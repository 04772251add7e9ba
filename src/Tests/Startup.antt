-- ===== src/Tests/Startup.antt =====
-- http_server/server.c from its start on
use network_system_hw.Base.{◌≡◌, refl, true, false, Bool, [], ◌∷◌, some, codes, str_eq}
use network_system_hw.Strutil.{strip, split, lower, remove_endl}
use network_system_hw.HttpServer.Config.{init_config, directive, next_argument, atoi_unsigned}
use network_system_hw.HttpServer.EventLoop.{Server, fresh}
use network_system_hw.HttpServer.Startup.{SetUp, exited, start_up}
use network_system_hw.Tests.Configs.{file}

abbrev calls : Bool → SetUp
calls binds = record {
  setrlimit = true;
  socket = true;
  setsockopt = true;
  fcntl = true;
  bind = binds;
  listen = true;
}

address_in_use : start_up (some file) (calls false) ≡ some (exited 1)
unfolding start_up init_config strip split lower remove_endl directive next_argument atoi_unsigned
    str_eq
address_in_use = refl

low_port : start_up (some (codes "Listen 80\n")) (calls true) ≡ some (exited 1)
unfolding start_up init_config strip split lower remove_endl directive next_argument atoi_unsigned
    str_eq
low_port = refl

abbrev one : Server
one = record { events_count = 2; connections = fresh 7 ∷ [] }

abbrev two : Server
two = record { events_count = 3; connections = fresh 7 ∷ fresh 8 ∷ [] }
