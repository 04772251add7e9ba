-- ===== src/Udp/Transfer.antt =====
-- `send_file` and `receive_file` of udp/util.c.
pub mod Parts
pub mod Delivery
pub mod Sending
pub mod RoundTrip
use network_system_hw.Base.{
  ℕ, zero, suc, ◌+◌, ◌%◌, ◌^◌, List, [], ◌∷◌, ◌++◌, Option, none, some, if◌then◌else◌, ltb, leb,
  ◌==◌, ◌>>=◌, length, take, drop, Bytes,
}
use network_system_hw.Base.Memory.{write_at}
use network_system_hw.Udp.Packet.{
  packet_size, data_size_max, build_data_packet, buffer_of, eof_of, data_len_of, offset_of, data_of,
}

-- `while (!feof(fp))`: a `fread` of less than 400 bytes sets the end of file. One unit of fuel for
-- each round; `length rest + 1` units are enough. `none` is a write past a packet, or a loop that
-- has not ended when the fuel is used up.
unfoldable pub send_rounds : ℕ → ℕ → Bytes → Option (List Bytes)
send_rounds zero offset rest = none
send_rounds (suc fuel) offset rest =
    let bytes = take data_size_max rest in
    let more = send_rounds fuel ((offset + length bytes) % 2 ^ 32) (drop data_size_max rest) in
    build_data_packet offset (some bytes) 0 >>= λ p.
    if ltb (length bytes) data_size_max then some (p ∷ []) else (more >>= λ ps. some (p ∷ ps))

abbrev pub send_once : Bytes → Option (List Bytes)
send_once file = send_rounds (length file + 1) 0 file

-- The datagrams of one call: the file three times, then the end of file.
unfoldable pub send_file : Bytes → Option (List Bytes)
unfolding send_rounds
send_file file = do
  first ← send_once file
  second ← send_once file
  third ← send_once file
  end ← build_data_packet 0 none 1
  some (first ++ (second ++ (third ++ (end ∷ []))))

-- The file, the place where `fwrite` will write, and the variable `pos`.
pub record Receiving : Type 0 where
  pub content : Bytes
  pub at : ℕ
  pub pos : ℕ

-- `fseek` where the packet does not follow on.
abbrev pub seek : Receiving → ℕ → Receiving
seek r offset = if offset == r.pos then r else record r { at = offset; pos = offset }

-- `fwrite` of the `n` bytes of `data`; `none` is a read of `data` past the buffer.
receive_data : Receiving → ℕ → ℕ → Bytes → Option Receiving
receive_data r offset n bytes =
    let r' = seek r offset in
    if leb (12 + n) packet_size
    then some (record {
      content = write_at r'.at bytes r'.content;
      at = r'.at + n;
      pos = (r'.pos + n) % 2 ^ 64;
    })
    else none

-- One data packet in the buffer.
unfoldable pub receive_packet : Receiving → Bytes → Option Receiving
unfolding receive_data
receive_packet r p = receive_data r (offset_of p) (data_len_of p) (data_of (data_len_of p) p)

-- The file at the end of the transfer, or while `recvfrom` still waits.
pub data Received : Type 0 where
  finished : Bytes → Received
  waiting : Bytes → Received

-- The loop over the datagrams that arrive.
unfoldable pub receive_from : Receiving → List Bytes → Option Received
unfolding receive_packet
receive_from r [] = some (waiting r.content)
receive_from r (d ∷ ds) =
    let rest = receive_packet r (buffer_of d) >>= λ r'. receive_from r' ds in
    if eof_of (buffer_of d) == 1 then some (finished r.content) else rest

-- A file opened by "wb".
unfoldable pub receive_file : List Bytes → Option Received
unfolding receive_from
receive_file ds = receive_from (record { content = []; at = 0; pos = 0 }) ds
