-- ===== src/HttpServer/Startup.antt =====
-- `main` of http_server/server.c: what stands in front of its loop.
use network_system_hw.Base.{
  ◌&&◌, true, ◌≡◌, ℕ, ◌≤◌, Bool, Option, some, if◌then◌else◌, ltb, ◌>>=◌, Bytes,
}
use network_system_hw.HttpServer.Config.{Config, Init, missing, ready, init_config}

-- Which calls of the system succeed
pub record SetUp : Type 0 where
  pub setrlimit : Bool
  pub socket : Bool
  pub setsockopt : Bool
  pub fcntl : Bool
  pub bind : Bool
  pub listen : Bool

-- `exit`, with its status, or the loop with its configuration.
pub data Start : Type 0 where
  exited : ℕ → Start
  running : Config → Start

abbrev set_up : SetUp → Config → Start
set_up calls conf =
    if calls.setrlimit
    then (if calls.socket
        then (if calls.setsockopt
            then (if calls.fcntl
                then (if calls.bind
                    then (if calls.listen then running conf else exited 1)
                    else exited 1)
                else exited 1)
            else exited 1)
        else exited 1)
    else exited 1

-- Of the configuration that was read
abbrev configured : SetUp → Init → Start
configured calls missing = exited 1
configured calls (ready conf) = if ltb conf.port 1024 then exited 1 else set_up calls conf

-- The configuration file is absent, or its bytes.
unfoldable pub start_up : Option Bytes → SetUp → Option Start
start_up file calls = init_config file >>= λ init. some (configured calls init)

-- All the calls succeed.
abbrev pub succeeds : SetUp → Bool
succeeds calls =
    calls.setrlimit
    && (calls.socket && (calls.setsockopt && (calls.fcntl && (calls.bind && calls.listen))))

-- What holds of a start with the configuration that was read
abbrev Starts : SetUp → Init → Start → Type 0
Starts calls init (exited status) = Unit
Starts calls init (running conf) =
    (init ≡ ready conf) × (1024 ≤ conf.port) × (succeeds calls ≡ true)
