-- ===== src/Tests/Serving.antt =====
-- The server of udp/server.c from its start to its end
use network_system_hw.Base.{
  ◌≡◌, refl, true, false, List, [], ◌∷◌, ◌++◌, some, none, if◌then◌else◌, length, Bytes, codes,
  str_eq, ◌-◌, cstr,
}
use network_system_hw.Base.Memory.{zeros, le16}
use network_system_hw.Udp.Packet.{packet_size, build_msg_packet}
use network_system_hw.Udp.Commands.{Files, list_dir, next_command, server_round}
use network_system_hw.Udp.Serving.{
  Process, serve_all, server_main, has_exit, until_exit, Answers, serve_all-Serves,
}

abbrev files : Files
files = record {
  names = codes "." ∷ codes "a" ∷ [];
  open_read = λ name. none;
  open_write = λ name. false;
}

abbrev reply : Bytes → Bytes
reply text = 0 ∷ 1 ∷ 0 ∷ 6 ∷ (le16 (length text) ++ (text ++ zeros (packet_size - 6 - length text)))

abbrev list_request : Bytes
list_request = 0 ∷ 1 ∷ 0 ∷ 1 ∷ []

abbrev exit_request : Bytes
exit_request = 0 ∷ 1 ∷ 0 ∷ 4 ∷ []

abbrev requests : List Bytes
requests = list_request ∷ exit_request ∷ list_request ∷ []

abbrev ended : Process
ended = record {
  status = some 0;
  replies =
      (reply (codes "a\n"), next_command)
      ∷ (reply (codes "Server will exit.\n"), next_command)
      ∷ [];
}

run : serve_all (λ i. files) 0 requests ≡ some ended
unfolding serve_all server_round list_dir build_msg_packet str_eq cstr zeros
run = refl

no_port :
    server_main 1 true true (λ i. files) requests ≡ some (record { status = some 1; replies = [] })
unfolding server_main
no_port = refl

serve_all-Serves_example :
    (ended.status ≡ (if has_exit requests then some 0 else none))
    × Answers (λ i. files) 0 (until_exit requests) ended.replies
serve_all-Serves_example = serve_all-Serves (λ i. files) 0 requests ended run
