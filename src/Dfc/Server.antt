-- ===== src/Dfc/Server.antt =====
-- dfc/server.c: `check_user` and `connection_handler`, with `set_path` of dfc/util.c. What the
-- file system answers stands in a `Disk`.
pub mod Access
pub mod Users
pub mod Loop
pub mod Replies
pub mod Steps
pub mod Threads
pub mod Startup
use network_system_hw.Base.{
  ℕ, ◌+◌, ◌<◌, ◌≡◌, Bool, true, false, ◌||◌, List, [], ◌∷◌, ◌++◌, Option, none, some, if◌then◌else◌,
  ltb, ◌==◌, ◌>>=◌, length, Bytes, codes, str_eq, copy,
}
use network_system_hw.Dfc.Config.{User}
use network_system_hw.Dfc.Packet.{
  cmd_ls, cmd_put, cmd_get, cmd_mkdir, build_msg_packet, username_of, password_of, msg_type_of,
  msg_of,
}

-- The first user of the name decides.
unfoldable pub check_user : List User → Bytes → Bytes → Bool
check_user [] username password = false
check_user (u ∷ us) username password =
    if str_eq username u.username
    then str_eq password u.password
    else check_user us username password

-- `sprintf` of "./%s/%s" into an array of 256 bytes
unfoldable pub set_path : Bytes → Bytes → Option Bytes
set_path p1 p2 = copy 256 (codes "./" ++ (p1 ++ (b'/' ∷ p2)))

-- `struct dirent`
pub record Entry : Type 0 where
  pub d_name : Bytes
  pub is_dir : Bool

-- `list_dir` of dfc/trans.c over the entries that `readdir` hands out; no entries stand for a
-- directory that cannot be opened, too.
unfoldable pub list_dir : ℕ → List Entry → Bytes
list_dir delimiter [] = []
list_dir delimiter (e ∷ es) =
    let rest = list_dir delimiter es in
    if str_eq e.d_name (codes ".") || str_eq e.d_name (codes "..") || e.is_dir
    then rest
    else e.d_name ++ (delimiter ∷ rest)

-- What `stat` answers: ENOENT, another error, a directory, or something else.
pub data Stat : Type 0 where
  absent unreadable directory other : Stat

-- `create_dir` of dfc/util.c, where `made` is whether `mkdir` returns 0; `none` is -1.
unfoldable pub create_dir : Stat → Bool → Option ℕ
create_dir absent true = some 1
create_dir absent false = none
create_dir unreadable made = none
create_dir directory made = some 0
create_dir other made = none

-- What `stat` and `mkdir` answer, the entries of a directory, the content of a file that `fopen`
-- can read (`none`: NULL), and whether `fopen` can write a file.
pub record Disk : Type 0 where
  pub stat : Bytes → Stat
  pub made : Bytes → Bool
  pub entries : Bytes → List Entry
  pub open_read : Bytes → Option Bytes
  pub open_write : Bytes → Bool

abbrev succeeded : Option ℕ → Bool
succeeded none = false
succeeded (some n) = true

-- `create_dir` does not return -1.
unfoldable pub makes_dir : Disk → Bytes → Bool
unfolding create_dir
makes_dir disk path = succeeded (create_dir (disk.stat path) (disk.made path))

-- The open `fp`: the content of a file to read, or the path of a file to write.
pub data Opened : Type 0 where
  nothing : Opened
  reading : Bytes → Bytes → Opened
  writing : Bytes → Opened

-- What the `switch` leaves: `errno`, `msg` and `fp`.
pub record Outcome : Type 0 where
  pub errno : ℕ
  pub msg : Bytes
  pub fp : Opened

abbrev pub refused : Bytes → Outcome
refused text = record { errno = 1; msg = text; fp = nothing }

abbrev pub done : Bytes → Outcome
done text = record { errno = 0; msg = text; fp = nothing }

mkdir : Disk → Bytes → Outcome
mkdir disk path = if makes_dir disk path then done [] else refused (codes "Fail to mkdir")

get_opened : Bytes → Option Bytes → Outcome
get_opened path none = refused (codes "server: get: cannot open the file")
get_opened path (some content) = record { errno = 0; msg = []; fp = reading path content }

put_opened : Bytes → Bool → Outcome
put_opened path false = refused (codes "server: put: Cannot create the file")
put_opened path true = record { errno = 0; msg = []; fp = writing path }

-- The cases of the `switch` that need an operand.
unfoldable pub with_operand : Bytes → Bytes → Bytes → (Bytes → Outcome) → Option Outcome
unfolding set_path
with_operand username operand missing f =
    if ltb 0 (length operand)
    then (set_path username operand >>= λ path. some (f path))
    else some (refused missing)

-- `switch (mpkt->msg_type)`; `msg` has 1024 bytes.
unfoldable pub command : Disk → ℕ → Bytes → Bytes → Option Outcome
unfolding list_dir makes_dir mkdir get_opened put_opened with_operand
command disk msg_type username operand =
    if msg_type == cmd_mkdir
    then (set_path username operand >>= λ path. some (mkdir disk path))
    else if msg_type == cmd_ls
    then (set_path username operand >>= λ path.
        copy 1024 (list_dir b'\n' (disk.entries path)) >>= λ text. some (done text))
    else if msg_type == cmd_get
    then with_operand username operand (codes "server: get: missing file operand")
        (λ path. get_opened path (disk.open_read path))
    else if msg_type == cmd_put
    then with_operand username operand (codes "server: get: Missing file operand")
        (λ path. put_opened path (disk.open_write path))
    else some (done operand)

unfoldable pub outcome : List User → Disk → Bytes → Option Outcome
unfolding check_user command
outcome users disk p =
    if check_user users (username_of p) (password_of p)
    then (if makes_dir disk (username_of p)
        then command disk (msg_type_of p) (username_of p) (msg_of p)
        else some (refused (codes "Fail to create user's dir. Please try again.")))
    else some (refused (codes "Invalid Username/Password. Please try again."))

-- What the server does behind its reply: send a file's content, or receive a file.
pub data Action : Type 0 where
  next_request : Action
  send_content : Bytes → Bytes → Action
  receive_to : Bytes → Action

unfoldable pub follow_up : ℕ → Opened → Action
follow_up msg_type nothing = next_request
follow_up msg_type (reading path content) =
    if msg_type == cmd_get then send_content path content else next_request
follow_up msg_type (writing path) = if msg_type == cmd_put then receive_to path else next_request

pub record Answer : Type 0 where
  pub reply : Bytes
  pub action : Action

-- One round of the loop; `sent` is whether the reply could be sent.
unfoldable pub connection_handler : List User → Disk → Bool → Bytes → Option Answer
unfolding outcome follow_up
connection_handler users disk sent p = outcome users disk p >>= λ o.
    build_msg_packet (msg_type_of p) o.errno (some o.msg) none >>= λ reply. some (record {
      reply = reply;
      action = if sent then follow_up (msg_type_of p) o.fp else next_request;
    })
