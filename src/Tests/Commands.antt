-- ===== src/Tests/Commands.antt =====
-- The command loops of udp/server.c and udp/client.c
use network_system_hw.Base.{
  ◌≡◌, refl, true, false, [], ◌∷◌, some, arith, Bytes, codes, str_eq, split_last,
}
use network_system_hw.Strutil.{split, strip}
use network_system_hw.Udp.Packet.{buffer_of}
use network_system_hw.Udp.Commands.{
  parse_line, list_dir, set_received_filename, Files, reading, writing, send_content, receive_to,
  server_round, null, argument, Client, client_round, client_action,
}
use network_system_hw.Udp.Commands.Exchange.{ComesThrough, client_round-get, client_round-put}

abbrev files : Files
files = record {
  names = codes "." ∷ codes "a" ∷ codes "b" ∷ [];
  open_read = λ name. some (codes "hi");
  open_write = λ name. true;
}

abbrev begun : Client
begun = record { argv1 = []; msg = null }

listed : list_dir b'\n' files.names ≡ codes "a\nb\n"
unfolding list_dir str_eq
listed = refl

get_line : parse_line (codes " get d/f \n") ≡ some (codes "get" ∷ codes "d/f" ∷ [])
unfolding parse_line split strip
get_line = refl

put_line : parse_line (codes "put d/f\n") ≡ some (codes "put" ∷ codes "d/f" ∷ [])
unfolding parse_line split strip
put_line = refl

received_name : set_received_filename (codes "d/f") ≡ some (codes "f.received")
unfolding set_received_filename split_last
received_name = refl

get_example :
    (request : Bytes) × (reply : Bytes) × (client_round files begun (codes " get d/f \n")
      ≡ some (
        record { argv1 = codes "d/f"; msg = argument },
        some (request, writing (codes "f.received")),
      ))
    × (server_round files (buffer_of request) ≡ some (reply, (send_content (codes "hi"), false)))
    × (client_action (buffer_of reply) (writing (codes "f.received"))
        ≡ some (receive_to (codes "f.received")))
    × ComesThrough (codes "hi")
get_example =
    client_round-get files files begun (codes " get d/f \n") (codes "d/f") (codes "f.received")
      (codes "hi") [] get_line (omega arith, omega arith, refl) received_name refl refl
      (omega arith)

put_example :
    (request : Bytes) × (reply : Bytes) × (client_round files begun (codes "put d/f\n")
      ≡ some (record { argv1 = codes "d/f"; msg = argument }, some (request, reading (codes "hi"))))
    × (server_round files (buffer_of request)
        ≡ some (reply, (receive_to (codes "f.received"), false)))
    × (client_action (buffer_of reply) (reading (codes "hi")) ≡ some (send_content (codes "hi")))
    × ComesThrough (codes "hi")
put_example =
    client_round-put files files begun (codes "put d/f\n") (codes "d/f") (codes "f.received")
      (codes "hi") [] put_line (omega arith, omega arith, refl) refl received_name refl
      (omega arith)
