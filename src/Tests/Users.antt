-- ===== src/Tests/Users.antt =====
-- dfc/server.c and the message packets of dfc/trans.c
use network_system_hw.Dfc.Partition.{Directory, put_file}
use network_system_hw.Dfc.Client.{Answered}
use network_system_hw.Dfc.Server.Steps.{
  climbs, Descends, IsConfined, Steps-IsConfined, asked, start,
}
use network_system_hw.Dfc.Server.Loop.{Serving, answered, serve}
use network_system_hw.Base.{
  none, ◌≡◌, ◌↔◌, refl, true, false, List, [], ◌∷◌, ◌++◌, some, arith, Bytes, codes, str_eq, cstr,
}
use network_system_hw.Base.Memory.{zeros}
use network_system_hw.Dfc.Config.{User, ClientConfig}
use network_system_hw.Dfc.Server.Users.{FirstHas, check_user_iff}
use network_system_hw.Dfc.Packet.{
  cmd_get, buffer_of, credentials, build_msg_packet, username_of, password_of, msg_type_of, msg_of,
}
use network_system_hw.Dfc.Packet.Messages.{Reads, build_msg_packet-Reads}
use network_system_hw.Dfc.Server.{
  Stat, check_user, set_path, Disk, Answer, next_request, send_content, connection_handler,
}
use network_system_hw.Dfc.Server.Access.{
  stranger_text, connection_handler-Permits, connection_handler-stranger,
}

build_msg_packet-Reads_example :
    (p : Bytes) × (build_msg_packet 3 0 (some (codes "f")) (some (codes "bob", codes "pw"))
      ≡ some p)
    × Reads p (codes "bob") (codes "pw") 0 3 (codes "f")
build_msg_packet-Reads_example =
    build_msg_packet-Reads (codes "bob") (codes "pw") (refl, omega arith) (refl, omega arith) 3 0
      (codes "f") (omega arith) (omega arith) refl (omega arith)

abbrev users : List User
users = record { username = codes "bob"; password = codes "pw" } ∷ []

abbrev pub disk : Disk
disk = record {
  stat = λ path. Stat.directory;
  made = λ path. true;
  entries = λ path. [];
  open_read = λ path. some (codes "hi");
  open_write = λ path. true;
}

abbrev get_f : Bytes → Bytes → Bytes
get_f username password = 0 ∷ 1 ∷ (username ++ (password ++ (0 ∷ 3 ∷ (codes "f" ++ zeros 523))))

abbrev by_bob : Bytes
by_bob = get_f (codes "bob" ++ zeros 13) (codes "pw" ++ zeros 14)

abbrev by_eve : Bytes
by_eve = get_f (codes "eve" ++ zeros 13) (codes "pw" ++ zeros 14)

abbrev answer_to_bob : Answer
answer_to_bob = record {
  reply = 0 ∷ 1 ∷ (zeros 32 ++ (0 ∷ 3 ∷ zeros 524));
  action = send_content (codes "./bob/f") (codes "hi");
}

bob_run : connection_handler users disk true by_bob ≡ some answer_to_bob
unfolding connection_handler check_user set_path str_eq cstr zeros build_msg_packet credentials
bob_run = refl

connection_handler-Permits_example :
    (check_user users (username_of by_bob) (password_of by_bob) ≡ true)
    × (msg_type_of by_bob ≡ cmd_get)
    × (set_path (username_of by_bob) (msg_of by_bob) ≡ some (codes "./bob/f"))
    × (disk.open_read (codes "./bob/f") ≡ some (codes "hi"))
connection_handler-Permits_example =
    connection_handler-Permits users disk true by_bob answer_to_bob bob_run

eve_unknown : check_user users (username_of by_eve) (password_of by_eve) ≡ false
unfolding check_user str_eq cstr zeros
eve_unknown = refl

eve_type : msg_type_of by_eve ≡ 3
unfolding zeros
eve_type = refl

connection_handler-stranger_example :
    (reply : Bytes) × (connection_handler users disk true by_eve
      ≡ some (record { reply = reply; action = next_request }))
    × Reads reply [] [] 1 (msg_type_of by_eve) stranger_text
connection_handler-stranger_example =
    connection_handler-stranger users disk true by_eve eve_unknown (omega (arith, eve_type))

abbrev pub server_conf : Bytes
server_conf = codes "# users\nbob   pw\n\nann \t x\n"

abbrev pub two_users : List User
two_users =
    record { username = codes "bob"; password = codes "pw" }
    ∷ record { username = codes "ann"; password = codes "x" }
    ∷ []

abbrev pub client_conf : Bytes
client_conf = codes "Server: DFS1 127.0.0.1:10001\nUsername: bob\nPassword: pw\n"

abbrev pub one_server : ClientConfig
one_server = record {
  hosts = record { ip = codes "127.0.0.1"; port = 10001 } ∷ [];
  username = codes "bob";
  password = codes "pw";
}

check_user_example :
    (check_user two_users (codes "ann") (codes "x") ≡ true)
    ↔ FirstHas (codes "ann") (codes "x") two_users
check_user_example = check_user_iff two_users (codes "ann") (codes "x")

abbrev pub put_by_bob : Bytes
put_by_bob =
    0
    ∷ 1
    ∷ (codes "bob"
        ++ (zeros 13 ++ (codes "pw" ++ (zeros 14 ++ (0 ∷ 2 ∷ (codes "f" ++ zeros 523))))))

abbrev pub storage : Directory → Disk
storage files = record {
  stat = λ path. Stat.directory;
  made = λ path. true;
  entries = λ path. [];
  open_read = files;
  open_write = λ path. true;
}

abbrev idle : Serving
idle = record { files = λ q. none; receives = none }

abbrev agreed : Answered Serving
agreed =
    answered (put_file idle.files (codes "./bob/f") []) (some (codes "./bob/f"))
      (0 ∷ 1 ∷ (zeros 32 ++ (0 ∷ 2 ∷ zeros 524))) []

put_run : serve users storage idle put_by_bob ≡ some agreed
unfolding serve connection_handler check_user set_path str_eq cstr zeros build_msg_packet
    credentials
put_run = refl

descends : Descends (buffer_of put_by_bob)
unfolding cstr zeros
descends = refl

out_of_it : climbs (codes "bob/a/../../ann/f") ≡ true
out_of_it = refl

dots : climbs (codes "bob/..f/a..") ≡ false
dots = refl

Steps-IsConfined_example : IsConfined users idle agreed.state
Steps-IsConfined_example =
    Steps-IsConfined users storage idle agreed.state refl (asked put_by_bob start descends put_run)
