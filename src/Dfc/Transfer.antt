-- ===== src/Dfc/Transfer.antt =====
-- `send_file` and `receive_file` of dfc/trans.c. The receiver's state is the one of Udp.Transfer.
pub mod Rounds
pub mod Pieces
pub mod Delivery
pub mod RoundTrip
use network_system_hw.Base.{
  ℕ, zero, suc, ◌+◌, ◌-◌, ◌%◌, ◌^◌, min, Bool, true, false, List, [], ◌∷◌, ◌++◌, Option, none, some,
  if◌then◌else◌, ltb, leb, ◌==◌, ◌>>=◌, length, take, drop, Bytes,
}
use network_system_hw.Base.Memory.{write_at}
use network_system_hw.Udp.Transfer.{Receiving, seek}
use network_system_hw.Dfc.Packet.{
  packet_size, data_size_max, build_data_packet, buffer_of, eof_of, data_len_of, offset_of, data_of,
}
use network_system_hw.Dfc.Mask.{mask}

-- `n` is the number of bytes still to send, and `none` is -1: all of them.
abbrev pub count : Option ℕ → ℕ
count none = data_size_max
count (some n) = min n data_size_max

abbrev pub less : Option ℕ → ℕ → Option ℕ
less none nbytes = none
less (some n) nbytes = some (n - nbytes)

-- The datagrams that `send` took, and whether the call returns 0.
abbrev pub Sent : Type 0
Sent = List Bytes × Bool

-- A round behind its `fread`: `more` is what the later rounds send, `last` that the end of file is
-- set. Where `send` fails, nothing more is sent.
abbrev pub send_round : Bool → Bool → Bytes → Option Sent → Option Sent
send_round false last p more = some ([], false)
send_round true true p more = some (p ∷ [], true)
send_round true false p more = more >>= λ (ps, ok). some (p ∷ ps, ok)

-- `while (!feof(fp) && (n == -1 || n > 0))`. `accepts i` says that `send` takes packet `i`. One
-- unit of fuel for each round; `length rest + 1` units are enough. `none` is undefined, or a loop
-- that has not ended when the fuel is used up.
unfoldable pub send_rounds : ℕ → (ℕ → Bool) → Option Bytes → ℕ → ℕ → Option ℕ → Bytes → Option Sent
send_rounds zero accepts key i c n rest = none
send_rounds (suc fuel) accepts key i c n rest =
    let bytes = take (count n) rest in
    let more =
      send_rounds fuel accepts key (suc i) ((c + length bytes) % 2 ^ 32) (less n (length bytes))
        (drop (count n) rest) in
    if count n == 0
    then some ([], true)
    else (mask key bytes >>= λ masked. build_data_packet c (some masked) 0 >>= λ p.
        send_round (accepts i) (ltb (length bytes) (count n)) p more)

-- The end packet; whether `send` takes it is not looked at.
abbrev pub finish : (ℕ → Bool) → Sent → Option Sent
finish accepts (ps, false) = some (ps, false)
finish accepts (ps, true) = build_data_packet 0 none 1 >>= λ end.
    some (if accepts (length ps) then ps ++ (end ∷ []) else ps, true)

-- `fp` is the content of the file, or `none` for a null pointer.
unfoldable pub send_file : (ℕ → Bool) → Option Bytes → ℕ → Option ℕ → Option Bytes → Option Sent
unfolding send_rounds
send_file accepts none offset n key = some ([], false)
send_file accepts (some file) offset n key =
    send_rounds (length file + 1) accepts key 0 0 n (drop offset file) >>= finish accepts

-- The file when the call returns 0, or when it returns -1 since `recv` gave nothing more.
pub data Received : Type 0 where
  finished : Bytes → Received
  broken : Bytes → Received

-- `seek`, the masking and the `fwrite` of the `n` bytes of `data`; `none` is a read of `data` past
-- the buffer.
receive_data : Option Bytes → Receiving → ℕ → ℕ → Bytes → Option Receiving
receive_data key r offset n bytes =
    let r' = seek r offset in
    if leb (44 + n) packet_size
    then (mask key bytes >>= λ plain. some (record {
      content = write_at r'.at plain r'.content;
      at = r'.at + n;
      pos = (r'.pos + n) % 2 ^ 64;
    }))
    else none

-- One data packet in the buffer.
unfoldable pub receive_packet : Option Bytes → Receiving → Bytes → Option Receiving
unfolding receive_data
receive_packet key r p =
    receive_data key r (offset_of p) (data_len_of p) (data_of (data_len_of p) p)

-- The loop over what each `recv` brings.
unfoldable pub receive_from : Option Bytes → Receiving → List Bytes → Option Received
unfolding receive_packet
receive_from key r [] = some (broken r.content)
receive_from key r (d ∷ ds) =
    let rest = receive_packet key r (buffer_of d) >>= λ r'. receive_from key r' ds in
    if eof_of (buffer_of d) == 1 then some (finished r.content) else rest

-- A file opened by "wb".
unfoldable pub receive_file : Option Bytes → List Bytes → Option Received
unfolding receive_from
receive_file key ds = receive_from key (record { content = []; at = 0; pos = 0 }) ds
