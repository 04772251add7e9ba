-- ===== src/Tests/Failures.antt =====
-- The command loop of dfc/client.c with servers that do not answer.
use network_system_hw.Dfc.Session.Rounds.{fetch_enough}
use network_system_hw.Dfc.Server.{set_path}
use network_system_hw.Dfc.Placement.Retry.{mark}
use network_system_hw.Dfc.Placement.{Parts, threads}
use network_system_hw.Dfc.Packet.{build_msg_packet, credentials}
use network_system_hw.Base.Memory.{zeros}
use network_system_hw.Base.{
  ◌++◌, arith, decimal, digits_from, cstr, ◌≡◌, ◌⊎◌, refl, Bool, true, false, [], if◌then◌else◌,
  ◌∷◌, none, some, Bytes, codes, str_eq,
}
use network_system_hw.Strutil.{strip, remove_endl, tokens, copy_all, lower}
use network_system_hw.Dfc.Client.{ThreadParam, connection_handler, handle_get, get_part, Peer}
use network_system_hw.Dfc.Config.{Host, ClientConfig, split}
use network_system_hw.Dfc.Partition.{
  set_partition_name, merge_partitions, delete_partitions, put_file, unlink,
}
use network_system_hw.Dfc.Partition.Names.{IsApart}
use network_system_hw.Dfc.Session.{
  command_of, run_command, fetch, unfinished, run_threads, retval_of, code_of, Session, words,
  command_round,
}
use network_system_hw.Dfc.Session.Commands.{command_round-changes}

abbrev host : Host
host = record { ip = codes "1.2.3.4"; port = 80 }

abbrev conf : ClientConfig
conf = record { hosts = host ∷ host ∷ []; username = codes "bob"; password = codes "pw" }

abbrev pub dead : Peer Bool
dead = record {
  request = λ s q.
      some (record {
        state = true;
        sent = false;
        received = none;
        arriving = [];
        accepts = λ i. false;
      });
  deliver = λ s ps. some true;
}

abbrev before : Session Bool
before = record {
  hosts = true ∷ true ∷ [];
  peers = true ∷ true ∷ [];
  files = λ q. if str_eq q (codes "h") then some (codes "hello") else none;
  printed = [];
  pointed = false;
}

-- Both servers are given up, and then the file is put together from no parts: it is emptied.
abbrev after : Session Bool
after = record {
  hosts = false ∷ false ∷ [];
  peers = true ∷ true ∷ [];
  files = unlink (unlink (put_file before.files (codes "h") []) (codes ".h.0")) (codes ".h.1");
  printed = [];
  pointed = false;
}

get_words : words (codes "get h\n") ≡ some (codes "get" ∷ codes "h" ∷ [])
unfolding words split strip remove_endl tokens copy_all
get_words = refl

failed_get :
    command_round conf dead (λ name. true) [] (λ s. s) before (codes "get h\n") ≡ some after
unfolding command_round words split strip remove_endl tokens copy_all lower str_eq command_of
    run_command fetch threads run_threads connection_handler handle_get get_part build_msg_packet
    credentials zeros set_partition_name decimal digits_from set_path retval_of code_of mark
    merge_partitions delete_partitions cstr
failed_get = refl

command_round-changes_example :
    (after.files ≡ before.files)
    ⊎ ((lower (codes "get") ≡ codes "get")
        × ((q : Bytes)
            → IsApart (codes "h") q
            → str_eq q (codes "h") ≡ false
            → after.files q ≡ before.files q))
command_round-changes_example =
    command_round-changes conf dead (λ name. true) [] (λ s. s) before after (codes "get h\n")
      (codes "get" ∷ codes "h" ∷ []) get_words failed_get

abbrev get_h : Parts → ThreadParam
get_h parts = record {
  parts = parts;
  path = [];
  filename = codes "h";
  pkt = 0 ∷ 1 ∷ (zeros 32 ++ (0 ∷ 3 ∷ zeros 524));
}

fetch_enough_example :
    ¬ (fetch conf dead (λ name. true) [] 3 get_h 0 (codes "h") before ≡ some unfinished)
    × (fetch conf dead (λ name. true) [] 3 get_h 0 (codes "h") before
        ≡ fetch conf dead (λ name. true) [] 9 get_h 0 (codes "h") before)
fetch_enough_example =
    fetch_enough conf dead (λ name. true) [] get_h 0 (codes "h") 3 9 before (omega arith)
      (omega arith)
