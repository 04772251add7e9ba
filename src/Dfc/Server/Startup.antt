-- ===== src/Dfc/Server/Startup.antt =====
-- `main` of dfc/server.c: its set-up, in front of its loop.
use network_system_hw.Base.{
  All, ◌≡◌, refl, inr, Bool, ℕ, List, [], Option, none, some, if◌then◌else◌, ltb, if_both, ◌>>=◌,
  Ensures, Ensures-bind, Ensures-some, Ensures-if, Bytes,
}
use network_system_hw.Dfc.Config.{User, Loaded, missing, loaded, init_server_config}
use network_system_hw.Dfc.Config.Bounds.{UsersFit, init_server_config_bounds}
use network_system_hw.Dfc.Partition.{Directory}
use network_system_hw.Dfc.Server.{Disk, makes_dir}
use network_system_hw.Dfc.Server.Threads.{
  Threads, Event, DescendsIn, on_events, AreConfined, on_events-AreConfined,
}

-- What `main` is called with and what the system answers in front of the loop; `listen` may fail.
pub record SetUp : Type 0 where
  pub argc : ℕ
  pub conf : Option Bytes
  pub outside : Disk
  pub directory : Bytes
  pub chdir : Bool
  pub socket : Bool
  pub setsockopt : Bool
  pub bind : Bool

-- `exit` with its status, or the loop with its users.
pub data Start : Type 0 where
  exited : ℕ → Start
  running : List User → Start

abbrev set_up : SetUp → List User → Start
set_up c users =
    if makes_dir c.outside c.directory
    then (if c.chdir
        then (if c.socket
            then (if c.setsockopt then (if c.bind then running users else exited 1) else exited 1)
            else exited 1)
        else exited 1)
    else exited 1

abbrev configured : SetUp → Loaded (List User) → Start
configured c missing = exited 1
configured c (loaded users) = set_up c users

unfoldable pub start_up : SetUp → Option Start
start_up c =
    if ltb c.argc 3
    then some (exited 1)
    else init_server_config c.conf >>= λ l. some (configured c l)

-- What holds of the users that the loop is given
abbrev Starts : Start → Type 0
Starts (exited status) = Unit
Starts (running users) = UsersFit users

set_up-Starts : (c : SetUp) (users : List User) → UsersFit users → Starts (set_up c users)
set_up-Starts c users fit =
    if_both Starts (makes_dir c.outside c.directory) _ _
      (if_both Starts c.chdir _ _
        (if_both Starts c.socket _ _
          (if_both Starts c.setsockopt _ _ (if_both Starts c.bind _ _ fit tt) tt) tt)
        tt)
      tt

init_server_config-fit :
    (conf : Option Bytes) (users : List User)
    → init_server_config conf ≡ some (loaded users)
    → UsersFit users
unfolding init_server_config
init_server_config-fit none users e = absurd (cc)
init_server_config-fit (some content) users e = init_server_config_bounds content users e

configured-Starts :
    (c : SetUp) (l : Loaded (List User))
    → init_server_config c.conf ≡ some l
    → Starts (configured c l)
configured-Starts c missing e = tt
configured-Starts c (loaded users) e = set_up-Starts c users (init_server_config-fit c.conf users e)

start_up-Starts : (c : SetUp) → Ensures Starts (start_up c)
unfolding start_up
start_up-Starts c =
    Ensures-if Starts (ltb c.argc 3) _ _ (λ few. tt)
      λ enough. Ensures-bind Starts (init_server_config c.conf) _ λ l e. configured-Starts c l e

-- Whatever the system answers in front of its loop, a server that comes to it, having read its
-- configuration without a write past an array, which nothing in the code checks, knows at most 32
-- users, each with a name and a password of less than 16 bytes. If no request's user name and
-- operand make a path with a component "..", and none makes a thread write past an array, then in
-- whatever order the threads take their steps no file has changed and no thread is about to write
-- one but below "./", the name of one of these users, and "/", by a path that does not lead out of
-- there. Links in the file system are left out.
pub start_up-AreConfined :
    (c : SetUp) (users : List User) (fs : Directory → Disk) (files : Directory) (es : List Event)
    (t : Threads)
    → start_up c ≡ some (running users)
    → All DescendsIn es
    → on_events users fs (record { files = files; receives = [] }) es ≡ some t
    → UsersFit users × AreConfined users files t
start_up-AreConfined c users fs files es t starts descend runs = (
  Ensures-some Starts (start_up c) (start_up-Starts c) starts,
  Ensures-some (AreConfined users files) _
      (on_events-AreConfined users fs files es _ descend
        (record { files_kept = λ path. inr refl; receives_owned = tt }))
      runs,
)
