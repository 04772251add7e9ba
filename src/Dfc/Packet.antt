-- ===== src/Dfc/Packet.antt =====
-- The packets of dfc/trans.h as their 560 bytes, and the two builders of dfc/trans.c. The compiler
-- places `offset` of a data packet at byte 40, behind two bytes of padding.
pub mod Fields
pub mod Messages
use network_system_hw.Base.{
  ℕ, ◌+◌, ◌-◌, ◌%◌, List, [], ◌∷◌, ◌++◌, Option, none, some, if◌then◌else◌, leb, ◌>>=◌, length,
  take, drop, Bytes, cstr, copy,
}
use network_system_hw.Base.Memory.{zeros, le16, le32, byte_at, read16, read32, slice}

abbrev pub packet_size : ℕ
packet_size = 560

abbrev pub data_size_max : ℕ
data_size_max = 500

abbrev pub cmd_ls : ℕ
cmd_ls = 1

abbrev pub cmd_put : ℕ
cmd_put = 2

abbrev pub cmd_get : ℕ
cmd_get = 3

abbrev pub cmd_mkdir : ℕ
cmd_mkdir = 4

-- `strcpy` into a zeroed array of 16 bytes.
abbrev pub field : Bytes → Option Bytes
field s = copy 16 s >>= λ t. some (t ++ zeros (16 - length t))

-- Name and password of the client's configuration; `none` is a null `conf`.
unfoldable pub credentials : Option (Bytes × Bytes) → Option Bytes
credentials none = some (zeros 32)
credentials (some (username, password)) = do u ← field username; p ← field password; some (u ++ p)

-- The bytes from `msg` on. `msg` has 256 bytes and padding behind it up to the end of the packet:
-- `none` is a `memcpy` past the packet, one into the padding is what the code does.
abbrev pub message : Option Bytes → Option Bytes
message none = some (zeros (packet_size - 36))
message (some msg) =
    if leb (36 + length msg) packet_size
    then some (msg ++ zeros (packet_size - 36 - length msg))
    else none

unfoldable pub build_msg_packet : ℕ → ℕ → Option Bytes → Option (Bytes × Bytes) → Option Bytes
unfolding credentials
build_msg_packet msg_type errno msg conf = do
  who ← credentials conf
  body ← message msg
  some (0 ∷ 1 ∷ (who ++ ((errno % 256) ∷ (msg_type % 256) ∷ body)))

-- The bytes of `data` from 44 on; `none` is a `memcpy` past the packet.
unfoldable pub build_data_packet : ℕ → Option Bytes → ℕ → Option Bytes
build_data_packet offset none eof =
    some (0 ∷ 2 ∷ (zeros 32 ++ (le16 eof ++ zeros (packet_size - 36))))
build_data_packet offset (some bytes) eof =
    if leb (44 + length bytes) packet_size
    then some (
        0
        ∷ 2
        ∷ (zeros 32
            ++ (le16 eof
                ++ (le16 (length bytes)
                    ++ (0
                        ∷ 0
                        ∷ (le32 offset ++ (bytes ++ zeros (packet_size - 44 - length bytes))))))))
    else none

abbrev pub username_of : Bytes → Bytes
username_of p = cstr (drop 2 p)

abbrev pub password_of : Bytes → Bytes
password_of p = cstr (drop 18 p)

abbrev pub errno_of : Bytes → ℕ
errno_of p = byte_at 34 p

abbrev pub msg_type_of : Bytes → ℕ
msg_type_of p = byte_at 35 p

abbrev pub msg_of : Bytes → Bytes
msg_of p = cstr (drop 36 p)

abbrev pub eof_of : Bytes → ℕ
eof_of p = read16 34 p

abbrev pub data_len_of : Bytes → ℕ
data_len_of p = read16 36 p

abbrev pub offset_of : Bytes → ℕ
offset_of p = read32 40 p

abbrev pub data_of : ℕ → Bytes → Bytes
data_of n p = slice 44 n p

-- The receive buffer: zeroed, then filled with what arrived.
abbrev pub buffer_of : Bytes → Bytes
buffer_of datagram = take packet_size (datagram ++ zeros packet_size)
