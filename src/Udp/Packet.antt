-- ===== src/Udp/Packet.antt =====
-- The packets of udp/util.h as their 496 bytes, and the two builders of udp/util.c. The compiler
-- places `offset` of a data packet at byte 8, behind two bytes of padding.
pub mod Fields
pub mod Messages
use network_system_hw.Base.{
  ℕ, ◌+◌, ◌-◌, ◌%◌, ◌^◌, List, [], ◌∷◌, ◌++◌, Option, none, some, if◌then◌else◌, ltb, leb, length,
  take, drop, Bytes, cstr,
}
use network_system_hw.Base.Memory.{zeros, le16, le32, byte_at, read16, read32, slice}

abbrev pub packet_size : ℕ
packet_size = 496

abbrev pub data_size_max : ℕ
data_size_max = 400

abbrev pub cmd_ls : ℕ
cmd_ls = 1

abbrev pub cmd_put : ℕ
cmd_put = 2

abbrev pub cmd_get : ℕ
cmd_get = 3

abbrev pub cmd_exit : ℕ
cmd_exit = 4

abbrev pub cmd_und : ℕ
cmd_und = 5

abbrev pub msg_resp : ℕ
msg_resp = 6

abbrev pub get_start : ℕ
get_start = 7

abbrev pub put_start : ℕ
put_start = 8

-- The bytes of `data` from 12 on; `none` is a `memcpy` past the packet.
abbrev data_body : ℕ → Bytes → Bytes
data_body offset bytes =
    le16 (length bytes)
    ++ (0 ∷ 0 ∷ (le32 offset ++ (bytes ++ zeros (packet_size - 12 - length bytes))))

-- Without data only `eof` is set behind the type.
unfoldable pub build_data_packet : ℕ → Option Bytes → ℕ → Option Bytes
build_data_packet offset none eof = some (0 ∷ 2 ∷ (le16 eof ++ zeros (packet_size - 4)))
build_data_packet offset (some bytes) eof =
    if leb (12 + length bytes) packet_size
    then some (0 ∷ 2 ∷ (le16 eof ++ data_body offset bytes))
    else none

unfoldable pub build_msg_packet : ℕ → Option Bytes → Option Bytes
build_msg_packet req_type none = some (0 ∷ 1 ∷ 0 ∷ (req_type % 256) ∷ zeros (packet_size - 4))
build_msg_packet req_type (some msg) =
    if leb (6 + length msg) packet_size
    then some (
        0
        ∷ 1
        ∷ 0
        ∷ (req_type % 256)
        ∷ (le16 (length msg) ++ (msg ++ zeros (packet_size - 6 - length msg))))
    else none

-- The receive buffer: zeroed, then filled with what arrived.
abbrev pub buffer_of : Bytes → Bytes
buffer_of datagram = take packet_size (datagram ++ zeros packet_size)

abbrev pub eof_of : Bytes → ℕ
eof_of p = read16 2 p

abbrev pub data_len_of : Bytes → ℕ
data_len_of p = read16 4 p

abbrev pub offset_of : Bytes → ℕ
offset_of p = read32 8 p

abbrev pub data_of : ℕ → Bytes → Bytes
data_of n p = slice 12 n p

abbrev pub msg_type_of : Bytes → ℕ
msg_type_of p = byte_at 3 p

abbrev pub msg_of : Bytes → Bytes
msg_of p = cstr (drop 6 p)
