-- ===== src/Dfc/Client.antt =====
-- The threads of dfc/client.c: `handle_put`, `handle_get`, `handle_ls`, `handle_mkdir` and
-- `connection_handler`, over a connection to a peer in a state of its own.
pub mod Requests
pub mod Paths
pub mod Stores
pub mod Fetches
pub mod Frame
pub mod Ends
use network_system_hw.Base.{
  ℕ, suc, ◌+◌, ◌*◌, ◌≡◌, Bool, true, false, not, List, [], ◌∷◌, ◌++◌, Option, none, some,
  if◌then◌else◌, ◌==◌, ◌>>=◌, length, take, drop, Bytes,
}
use network_system_hw.Base.Memory.{zeros}
use network_system_hw.Dfc.Config.{ClientConfig}
use network_system_hw.Dfc.Packet.{
  packet_size, cmd_ls, cmd_put, cmd_get, cmd_mkdir, errno_of, msg_type_of, msg_of, buffer_of,
}
use network_system_hw.Dfc.Partition.{set_partition_name, Directory, put_file, psize}
use network_system_hw.Dfc.Placement.{Parts}
use network_system_hw.Dfc.Server.{set_path}
use network_system_hw.Dfc.Transfer.{send_file, Received, finished, broken, receive_file}

-- What the calls of the system answer once a request is offered: whether `send` takes it, what the
-- next `recv` brings (`none`: -1), what the later ones bring, and which packets a `send_file`
-- behind it can send.
pub record Answered {ℓ} (S : Type ℓ) : Type ℓ where
  pub state : S
  pub sent : Bool
  pub received : Option Bytes
  pub arriving : List Bytes
  pub accepts : ℕ → Bool

-- The other end: its answer to a request, and its state behind the packets of a file.
pub record Peer {ℓ} (S : Type ℓ) : Type ℓ where
  pub request : S → Bytes → Option (Answered S)
  pub deliver : S → List Bytes → Option S

-- `thread_param` without `sock`
pub record ThreadParam : Type 0 where
  pub parts : Parts
  pub path : Bytes
  pub filename : Bytes
  pub pkt : Bytes

-- A thread: the client's files and the peer, what is printed, `outpkt`, `buffer` and `retval`.
pub record Thread {ℓ} (S : Type ℓ) : Type ℓ where
  pub files : Directory
  pub peer : S
  pub printed : List Bytes
  pub outpkt : Bytes
  pub buffer : Bytes
  pub retval : ℕ

-- `set_path(outpkt->msg, ...)`: the path and its NUL over what the packet holds from `msg` on.
abbrev pub with_msg : Bytes → Bytes → Bytes
with_msg pkt path = take 36 pkt ++ (path ++ (0 ∷ drop (suc (36 + length path)) pkt))

-- `printf("%s\n", mpkt->msg)`
abbrev pub print_msg : List Bytes → Bytes → List Bytes
print_msg printed [] = printed
print_msg printed (c ∷ msg) = printed ++ ((c ∷ msg) ∷ [])

-- `recv` into `buffer`; what it does not fill stays.
abbrev pub refill : Bytes → Bytes → Bytes
refill buffer d = take packet_size (d ++ drop (length d) buffer)

-- Into a buffer of zeros; where `recv` fails they stay.
abbrev pub zeroed : Option Bytes → Bytes
zeroed none = zeros packet_size
zeroed (some d) = buffer_of d

abbrev pub failed : Bool → Option Bytes → Bool
failed false d = true
failed true none = true
failed true (some d) = false

abbrev key_of : ClientConfig → Option Bytes
key_of conf = some conf.password

-- What a thread returns: a number, or the `result` of `handle_ls`.
pub data Returned : Type 0 where
  code : ℕ → Returned
  result : Bytes → Returned

abbrev received_bytes : Option Bytes → Bytes
received_bytes none = []
received_bytes (some d) = d

module _ {ℓ} {S : Type ℓ} (conf : ClientConfig) (peer : Peer S) where
  -- `send_file` of one part, where the server agrees.
  abbrev pub send_part : Bytes → ℕ → Thread S → (ℕ → Bool) → Option (Thread S)
  send_part file k t accepts =
      let size = psize (length conf.hosts) (length file) in
      send_file accepts (some file) (size * k) (some size) (key_of conf) >>= λ (ps, ok).
      peer.deliver t.peer ps >>= λ s. some (record t { peer = s })

  abbrev pub put_answered : Bytes → ℕ → Thread S → Answered S → Option (Thread S)
  put_answered file k t a =
      let buffer = zeroed a.received in
      let t' = record t {
        peer = a.state;
        printed = print_msg t.printed (msg_of buffer);
        buffer = buffer;
        retval = if failed a.sent a.received then 1 else t.retval;
      } in
      if errno_of buffer == 0 then send_part file k t' a.accepts else some t'

  -- A round of the loop of `handle_put`. A failed `send` or `recv` does not end it.
  unfoldable pub put_part : ThreadParam → Bytes → ℕ → Thread S → Option (Thread S)
  unfolding set_partition_name set_path
  put_part tp file k t = do
    pname ← set_partition_name packet_size tp.filename k
    path ← set_path tp.path pname
    a ← peer.request t.peer (with_msg t.outpkt path)
    put_answered file k (record t { outpkt = with_msg t.outpkt path }) a

  -- Both rounds; `parts[0]` is not -1 in a "put".
  abbrev pub put_parts : ThreadParam → Bytes → Option ℕ → ℕ → Thread S → Option (Thread S)
  put_parts tp file none j t = none
  put_parts tp file (some i) j t = put_part tp file i t >>= put_part tp file j

  abbrev pub put_opened : ThreadParam → Option Bytes → Thread S → Option (Thread S)
  put_opened tp none t = some t
  put_opened tp (some file) t =
      put_parts tp file tp.parts.first tp.parts.second (record t { outpkt = tp.pkt })

  unfoldable pub handle_put : ThreadParam → Thread S → Option (Thread S)
  unfolding put_part
  handle_put tp t = put_opened tp (t.files tp.filename) t

  -- Whether the loop of `handle_get` goes on.
  abbrev pub Looping : Type ℓ
  Looping = Thread S × Bool

  abbrev pub break_with : ℕ → Thread S → Option Looping
  break_with retval t = some (record t { retval = retval }, false)

  abbrev pub file_received : Bytes → Thread S → Received → Option Looping
  file_received pname t (finished content) =
      some (record t { files = put_file t.files pname content }, true)
  file_received pname t (broken content) =
      break_with 1 (record t { files = put_file t.files pname content })

  -- The answer is in the buffer; `creates` is whether `fopen` can write a file.
  abbrev pub get_answered : (Bytes → Bool) → Bytes → Thread S → List Bytes → Option Looping
  get_answered creates pname t arriving =
      if errno_of t.buffer == 0
      then (if creates pname
          then (receive_file (key_of conf) arriving >>= file_received pname t)
          else break_with 0 t)
      else break_with 2 t

  abbrev pub get_received :
      (Bytes → Bool) → Bytes → Thread S → Answered S → Option Bytes → Option Looping
  get_received creates pname t a none = break_with 1 t
  get_received creates pname t a (some d) =
      let buffer = refill t.buffer d in
      get_answered creates pname
        (record t { printed = print_msg t.printed (msg_of buffer); buffer = buffer }) a.arriving

  -- A round of the loop of `handle_get` for a part that is not -1.
  unfoldable pub get_part : (Bytes → Bool) → ThreadParam → ℕ → Thread S → Option Looping
  unfolding set_partition_name set_path
  get_part creates tp k t = do
    pname ← set_partition_name 256 tp.filename k
    path ← set_path tp.path pname
    a ← peer.request t.peer (with_msg t.outpkt path)
    let t' = record t { outpkt = with_msg t.outpkt path; peer = a.state } in
        if a.sent then get_received creates pname t' a a.received else break_with 1 t'

  abbrev pub go_on : (Thread S → Option (Thread S)) → Looping → Option (Thread S)
  go_on next (t, true) = next t
  go_on next (t, false) = some t

  abbrev pub get_first : (Bytes → Bool) → ThreadParam → Option ℕ → Thread S → Option Looping
  get_first creates tp none t = some (t, true)
  get_first creates tp (some k) t = get_part creates tp k t

  unfoldable pub handle_get : (Bytes → Bool) → ThreadParam → Thread S → Option (Thread S)
  unfolding get_part
  handle_get creates tp t =
      get_first creates tp tp.parts.first (record t { outpkt = tp.pkt })
      >>= go_on (λ t'. get_part creates tp tp.parts.second t' >>= go_on (λ u. some u))

  abbrev Ended : Type ℓ
  Ended = Thread S × Returned

  -- The request of `handle_ls` and `handle_mkdir`: `answered` goes on with the answer in `buffer`.
  abbrev pub ask : ThreadParam → (Thread S → Ended) → Thread S → Option Ended
  ask tp answered t = peer.request t.peer tp.pkt >>= λ a. some (
      if failed a.sent a.received
      then (record t { peer = a.state }, code 1)
      else answered
          (record t { peer = a.state; buffer = refill t.buffer (received_bytes a.received) }))

  abbrev pub list_answered : Thread S → Ended
  list_answered t =
      if errno_of t.buffer == 1
      then (record t { printed = print_msg t.printed (msg_of t.buffer) }, result [])
      else (t, result (msg_of t.buffer))

  unfoldable pub handle_ls : ThreadParam → Thread S → Option Ended
  handle_ls tp = ask tp list_answered

  abbrev pub mkdir_answered : Thread S → Ended
  mkdir_answered t = (record t { printed = print_msg t.printed (msg_of t.buffer) }, code 0)

  unfoldable pub handle_mkdir : ThreadParam → Thread S → Option Ended
  handle_mkdir tp = ask tp mkdir_answered

  abbrev pub returns_retval : Option (Thread S) → Option Ended
  returns_retval o = o >>= λ t. some (t, code t.retval)

  unfoldable pub connection_handler : (Bytes → Bool) → ThreadParam → Thread S → Option Ended
  unfolding handle_put handle_get handle_ls handle_mkdir
  connection_handler creates tp t =
      if msg_type_of tp.pkt == cmd_ls
      then handle_ls tp t
      else if msg_type_of tp.pkt == cmd_put
      then returns_retval (handle_put tp t)
      else if msg_type_of tp.pkt == cmd_get
      then returns_retval (handle_get creates tp t)
      else if msg_type_of tp.pkt == cmd_mkdir
      then handle_mkdir tp t
      else some (t, code 0)
