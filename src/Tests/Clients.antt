-- ===== src/Tests/Clients.antt =====
-- dfc/client.c from its start on, with a server that does not answer
use network_system_hw.Base.{
  ◌≡◌, refl, sym, ◌∙◌, subst, true, false, [], ◌∷◌, none, some, some-injective, List, Bytes, codes,
  str_eq, cstr, decimal, digits_from, digits_value, length, if◌then◌else◌, Bool,
}
use network_system_hw.Base.Memory.{zeros}
use network_system_hw.Strutil.{strip, remove_endl, tokens, copy_all, lower, split_first}
use network_system_hw.HttpServer.Config.{fgets_all, atoi_unsigned}
use network_system_hw.Dfc.Client.{connection_handler, handle_get, get_part}
use network_system_hw.Dfc.Config.{line_tokens, setting, add_host, init_client_config, split}
use network_system_hw.Dfc.Config.Bounds.{ClientFits}
use network_system_hw.Dfc.Packet.{build_msg_packet, credentials}
use network_system_hw.Dfc.Partition.{
  Directory, set_partition_name, merge_partitions, delete_partitions, put_file, unlink,
}
use network_system_hw.Dfc.Partition.Names.{IsApart}
use network_system_hw.Dfc.Placement.{threads}
use network_system_hw.Dfc.Placement.Retry.{mark}
use network_system_hw.Dfc.Server.{set_path}
use network_system_hw.Dfc.Session.{
  command_of, run_command, fetch, run_threads, retval_of, code_of, Session, words, word,
  command_round,
}
use network_system_hw.Dfc.Session.Startup.{
  Network, open_clientfd, open_all, exited, running, start_up, main_loop, Spares,
  start_up-main_loop,
}
use network_system_hw.Tests.Failures.{dead}
use network_system_hw.Tests.Users.{client_conf, one_server}

abbrev net : Network Bool
net = record {
  socket = true;
  gethostbyname = λ hostname. true;
  connect = λ hostname port. some true;
}

abbrev own : Directory
own q = if str_eq q (codes "x") then some (codes "hello") else none

abbrev before : Session Bool
before = record { hosts = true ∷ []; peers = true ∷ []; files = own; printed = []; pointed = false }

abbrev after : Session Bool
after = record {
  hosts = false ∷ [];
  peers = true ∷ [];
  files = unlink (put_file own (codes "h") []) (codes ".h.0");
  printed = [];
  pointed = false;
}

starts : start_up net false own (some client_conf) ≡ some (running one_server before)
unfolding start_up open_all open_clientfd init_client_config line_tokens setting add_host strip
    remove_endl fgets_all tokens copy_all cstr str_eq lower split_first atoi_unsigned digits_value
starts = refl

no_file : start_up net false own none ≡ some (exited 1)
unfolding start_up init_client_config
no_file = refl

no_name :
    open_clientfd (record net { gethostbyname = λ hostname. false }) (codes "nowhere") 80 ≡ none
unfolding open_clientfd
no_name = refl

abbrev lines : List Bytes
lines = codes "get h\n" ∷ []

get_words : words (codes "get h\n") ≡ some (codes "get" ∷ codes "h" ∷ [])
unfolding words split strip remove_endl tokens copy_all
get_words = refl

run : main_loop one_server dead (λ name. true) [] (λ s. s) before lines ≡ some after
unfolding main_loop command_round words split strip remove_endl tokens copy_all lower str_eq
    command_of run_command fetch threads run_threads connection_handler handle_get get_part
    build_msg_packet credentials zeros set_partition_name decimal digits_from set_path retval_of
    code_of mark merge_partitions delete_partitions cstr
run = refl

apart : IsApart (codes "h") (codes "x")
unfolding str_eq
apart k = refl

spares : Spares (codes "x") (codes "get h\n")
unfolding str_eq
spares p read is_get =
    subst (λ ws. IsApart (word 1 ws) (codes "x") × (str_eq (codes "x") (word 1 ws) ≡ false))
      (some-injective _ _ (sym get_words ∙ read)) (apart, refl)

start_up-main_loop_example :
    ClientFits one_server
    × (length before.hosts ≡ length one_server.hosts)
    × (length before.peers ≡ length one_server.hosts)
    × (after.files (codes "x") ≡ own (codes "x"))
start_up-main_loop_example =
    start_up-main_loop one_server dead (λ name. true) [] (λ s. s) net false own (some client_conf)
      before after lines (codes "x") starts (spares, tt) run
