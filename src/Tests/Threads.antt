-- ===== src/Tests/Threads.antt =====
-- dfc/server.c from its start on, with two connections
use network_system_hw.Base.{All, ◌≡◌, refl, true, ℕ, List, [], ◌∷◌, none, some, codes, str_eq, cstr}
use network_system_hw.Base.Memory.{zeros}
use network_system_hw.Strutil.{strip, remove_endl, tokens, copy_all}
use network_system_hw.HttpServer.Config.{fgets_all}
use network_system_hw.Dfc.Config.{line_tokens, init_server_config}
use network_system_hw.Dfc.Config.Bounds.{UsersFit}
use network_system_hw.Dfc.Packet.{credentials, build_msg_packet}
use network_system_hw.Dfc.Partition.{Directory, put_file}
use network_system_hw.Dfc.Server.{check_user, set_path, makes_dir, connection_handler}
use network_system_hw.Dfc.Server.Loop.{serve}
use network_system_hw.Dfc.Server.Threads.{
  Threads, Event, DescendsIn, refused, accepted, request, on_event, on_events, AreConfined,
}
use network_system_hw.Dfc.Server.Startup.{SetUp, exited, running, start_up, start_up-AreConfined}
use network_system_hw.Tests.Users.{server_conf, two_users, put_by_bob, storage, disk}

abbrev calls : ℕ → SetUp
calls argc = record {
  argc = argc;
  conf = some server_conf;
  outside = disk;
  directory = codes "DFS1";
  chdir = true;
  socket = true;
  setsockopt = true;
  bind = true;
}

starts : start_up (calls 3) ≡ some (running two_users)
unfolding start_up init_server_config line_tokens strip remove_endl fgets_all tokens copy_all cstr
    makes_dir
starts = refl

no_port : start_up (calls 2) ≡ some (exited 1)
unfolding start_up
no_port = refl

abbrev nothing_stored : Directory
nothing_stored name = none

abbrev events : List Event
events = accepted ∷ refused ∷ accepted ∷ request 1 put_by_bob ∷ []

abbrev threads : Threads
threads = record {
  files = put_file nothing_stored (codes "./bob/f") [];
  receives = none ∷ some (codes "./bob/f") ∷ [];
}

run :
    on_events two_users storage (record { files = nothing_stored; receives = [] }) events
    ≡ some threads
unfolding on_events on_event serve connection_handler check_user set_path str_eq cstr zeros
    build_msg_packet credentials
run = refl

descend : All DescendsIn events
unfolding cstr zeros
descend = (tt, (tt, (tt, (refl, tt))))

start_up-AreConfined_example : UsersFit two_users × AreConfined two_users nothing_stored threads
start_up-AreConfined_example =
    start_up-AreConfined (calls 3) two_users storage nothing_stored events threads starts descend
      run
