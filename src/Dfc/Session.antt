-- ===== src/Dfc/Session.antt =====
-- The command loop in `main` of dfc/client.c: a line of input, the threads that it starts with the
-- servers, and what is done with what they return.
pub mod Parameters
pub mod Puts
pub mod Gets
pub mod Frame
pub mod Commands
pub mod Rounds
pub mod Lists
pub mod Shows
pub mod Merged
pub mod RoundTrip
pub mod Startup
use network_system_hw.Base.{
  ℕ, zero, suc, ◌%◌, Bool, true, false, not, ◌&&◌, ◌||◌, List, [], ◌∷◌, ◌++◌, Option, none, some,
  if◌then◌else◌, ◌==◌, ◌>>=◌, length, get_or, Bytes, codes, str_eq, copy,
}
use network_system_hw.Base.Memory.{byte_at}
use network_system_hw.Dfc.Strutil.{remove_endl, strip, lower}
use network_system_hw.Dfc.Client.{
  Peer, ThreadParam, Thread, Returned, code, result, connection_handler,
}
use network_system_hw.Dfc.Config.{ClientConfig, split}
use network_system_hw.Dfc.Listing.{listing}
use network_system_hw.Dfc.Packet.{cmd_ls, cmd_put, cmd_get, cmd_mkdir, build_msg_packet}
use network_system_hw.Dfc.Partition.{Directory, put_file, merge_partitions, delete_partitions}
use network_system_hw.Dfc.Placement.{Parts, threads}
use network_system_hw.Dfc.Placement.Retry.{mark}

-- What `main` keeps from line to line: `available` of the servers, the connections, the client's
-- files, what was printed, and whether `msg` points to `p[1]`.
pub record Session {ℓ} (S : Type ℓ) : Type ℓ where
  pub hosts : List Bool
  pub peers : List S
  pub files : Directory
  pub printed : List Bytes
  pub pointed : Bool

-- `c[0] % n` of the digest that OpenSSL computes.
abbrev pub md5_mod : (Bytes → Bytes) → Bytes → ℕ → ℕ
md5_mod digest filename n = byte_at 0 (digest filename) % n

-- The words of a line of input, in 4096 arrays of 256 bytes.
unfoldable pub words : Bytes → Option (List Bytes)
words buffer = split 4096 256 (strip (remove_endl buffer) b' ') (b' ' ∷ [])

-- The next line (`continue`), behind a text or not, or a command and whether it sets `msg`.
pub data Asked : Type 0 where
  next_line : List Bytes → Asked
  ask : ℕ → Bool → Asked

abbrev with_operand : List Bytes → ℕ → Bool → Bytes → Asked
with_operand [] cmd sets missing = next_line (missing ∷ [])
with_operand (operand ∷ rest) cmd sets missing = ask cmd sets

abbrev has_operand : List Bytes → Bool
has_operand [] = false
has_operand (operand ∷ rest) = true

-- The chain of `strcmp` on `p[0]`
unfoldable pub command_of : List Bytes → Asked
command_of [] = next_line []
command_of (command ∷ operands) =
    if str_eq (lower command) (codes "mkdir")
    then with_operand operands cmd_mkdir true (codes "mkdir: Missing file operand")
    else if str_eq (lower command) (codes "list")
    then ask cmd_ls (has_operand operands)
    else if str_eq (lower command) (codes "get")
    then with_operand operands cmd_get false (codes "get: Missing file operand")
    else if str_eq (lower command) (codes "put")
    then with_operand operands cmd_put false (codes "put: Missing file operand")
    else next_line []

-- What the threads of a round leave.
pub record Ran {ℓ} (S : Type ℓ) : Type ℓ where
  pub peers : List S
  pub files : Directory
  pub printed : List Bytes
  pub retvals : List Returned

unfoldable pub code_of : Returned → ℕ
code_of (code n) = n
code_of (result text) = 0

unfoldable pub retval_of : List Returned → ℕ → ℕ
unfolding code_of
retval_of retvals i = code_of (get_or retvals i (code 0))

abbrev pub word : ℕ → List Bytes → Bytes
word i p = get_or p i []

-- A "get" and a "put" name a file and a directory.
abbrev pub names_file : ℕ → Bool
names_file cmd = cmd == cmd_put || cmd == cmd_get

abbrev pub param_of : ℕ → List Bytes → Bytes → Parts → ThreadParam
param_of cmd p pkt parts = record {
  parts = parts;
  path = if names_file cmd then word 2 p else [];
  filename = if names_file cmd then word 1 p else [];
  pkt = pkt;
}

-- A thread at its start; `stale` is what its buffer holds.
abbrev pub start {ℓ} : {S : Type ℓ} → Bytes → Directory → S → Thread S
start stale files s = record {
  files = files;
  peer = s;
  printed = [];
  outpkt = [];
  buffer = stale;
  retval = 0;
}

-- The session behind the loop of a "get", or a loop that has not ended when the fuel is used up.
pub data Got {ℓ} (S : Type ℓ) : Type ℓ where
  unfinished : Got S
  ended : Session S → Got S

module _ {ℓ} {S : Type ℓ} (conf : ClientConfig) (peer : Peer S) (creates : Bytes → Bool)
    (stale : Bytes) where
  abbrev with_thread : Thread S → Returned → Ran S → Ran S
  with_thread t v r = record {
    peers = t.peer ∷ r.peers;
    files = r.files;
    printed = t.printed ++ r.printed;
    retvals = v ∷ r.retvals;
  }

  -- Every thread has a connection and the files of its parts of its own, so they are run one
  -- behind the other. Without a thread `retval` stays 0.
  unfoldable pub run_threads :
      (Parts → ThreadParam) → List (Option Parts) → List S → Directory → Option (Ran S)
  unfolding connection_handler
  run_threads param [] peers files =
      some (record { peers = peers; files = files; printed = []; retvals = [] })
  run_threads param (p ∷ ps) [] files = none
  run_threads param (none ∷ ps) (s ∷ ss) files =
      run_threads param ps ss files >>= λ r. some (with_thread (start stale files s) (code 0) r)
  run_threads param (some parts ∷ ps) (s ∷ ss) files =
      connection_handler conf peer creates (param parts) (start stale files s) >>= λ (t, v).
      run_threads param ps ss t.files >>= λ r. some (with_thread t v r)

  -- A session behind the threads of a round.
  abbrev pub behind : Session S → Ran S → Session S
  behind st r = record st {
    hosts = (mark (retval_of r.retvals) 0 st.hosts).hosts;
    peers = r.peers;
    files = r.files;
    printed = st.printed ++ r.printed;
  }

  -- What `merge_partitions` returns is not looked at.
  abbrev pub merge_file : Directory → Bytes → Option Directory
  merge_file files filename =
      if creates filename
      then (merge_partitions (put_file files filename []) filename (length conf.hosts)
          >>= λ content. some (put_file files filename content))
      else some files

  abbrev pub put_together : Bytes → Session S → Option (Session S)
  put_together filename st = merge_file st.files filename >>= λ files.
      delete_partitions files filename (length conf.hosts) >>= λ files'.
      some (record st { files = files' })

  -- `retry` and `flag` behind a round of a "get"
  abbrev pub after_get :
      (Session S → Option (Got S)) → Bytes → Bool → Bool → Session S → Option (Got S)
  after_get again filename true flag st = again st
  after_get again filename false true st = some (ended st)
  after_get again filename false false st = put_together filename st >>= λ st'. some (ended st')

  -- `while (retry)` of a "get". One unit of fuel for each round; one more than servers that are up
  -- is enough.
  unfoldable pub fetch : ℕ → (Parts → ThreadParam) → ℕ → Bytes → Session S → Option (Got S)
  unfolding run_threads
  fetch zero param h filename st = some unfinished
  fetch (suc fuel) param h filename st = do
    ts ← threads h cmd_get st.hosts
    r ← run_threads param ts st.peers st.files
    let m = mark (retval_of r.retvals) 0 st.hosts in
        after_get (fetch fuel param h filename) filename m.retry m.flag (behind st r)

  -- Enough fuel is given, so that this is the session behind the loop.
  abbrev pub session_of : Got S → Option (Session S)
  session_of unfinished = none
  session_of (ended st) = some st

  -- The other commands; only a "list" looks at what the threads return.
  abbrev pub after_command : ℕ → Session S → Ran S → Option (Session S)
  after_command cmd st r =
      if cmd == cmd_ls
      then (listing r.retvals >>= λ lines.
          let st' = behind st r in some (record st' { printed = st'.printed ++ lines }))
      else some (record (behind st r) { hosts = st.hosts })

  unfoldable pub run_command :
      ℕ → (Parts → ThreadParam) → ℕ → Bytes → Session S → Option (Session S)
  unfolding fetch
  run_command cmd param h filename st =
      if cmd == cmd_get
      then (fetch (suc (length st.hosts)) param h filename st >>= session_of)
      else (threads h cmd st.hosts >>= λ ts.
          run_threads param ts st.peers st.files >>= after_command cmd st)

  abbrev pub obey : (Bytes → Bytes) → List Bytes → Session S → Asked → Option (Session S)
  obey digest p st (next_line text) = some (record st { printed = st.printed ++ text })
  obey digest p st (ask cmd sets) =
      let pointed = sets || st.pointed in
      build_msg_packet cmd 0 (if pointed then some (word 1 p) else none)
        (some (conf.username, conf.password))
      >>= λ pkt.
          run_command cmd (param_of cmd p pkt)
            (if names_file cmd then md5_mod digest (word 1 p) (length conf.hosts) else 0) (word 1 p)
            (record st { pointed = pointed })

  -- One round of `while (1)` with a line of input. `digest` is the MD5 digest of OpenSSL.
  unfoldable pub command_round : (Bytes → Bytes) → Session S → Bytes → Option (Session S)
  unfolding words command_of run_command
  command_round digest st line = words line >>= λ p. obey digest p st (command_of p)
