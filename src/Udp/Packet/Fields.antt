-- ===== src/Udp/Packet/Fields.antt =====
-- A receiver reads back what the builders wrote.
use network_system_hw.Base.{
  ℕ, ◌+◌, ◌-◌, ◌^◌, ◌≤◌, ◌<◌, ◌≡◌, sym, ap, subst, ◌∙◌, ◌∷◌, ◌++◌, some, arith, le→leb, length,
  length-append, take, Bytes,
}
use network_system_hw.Base.Memory.{
  zeros, length-zeros, le16, le32, take-append, read16-le16, read32-le32,
}
use network_system_hw.Udp.Packet.{
  packet_size, data_size_max, build_data_packet, buffer_of, eof_of, data_len_of, offset_of, data_of,
}

pub buffer_of-full : (p : Bytes) → length p ≡ packet_size → buffer_of p ≡ p
buffer_of-full p h =
    ap (λ n. take n (p ++ zeros packet_size)) (sym h) ∙ take-append p (zeros packet_size)

-- The fields of a data packet in the receiver's buffer.
pub record Carries (q : Bytes) (eof offset : ℕ) (bytes : Bytes) : Type 0 where
  pub eof_is : eof_of q ≡ eof
  pub offset_is : offset_of q ≡ offset
  pub len_is : data_len_of q ≡ length bytes
  pub data_is : data_of (length bytes) q ≡ bytes

pub build_data_packet-Carries :
    (offset eof : ℕ) (bytes : Bytes)
    → length bytes ≤ data_size_max
    → offset < 2 ^ 32
    → eof < 2 ^ 16
    → (p : Bytes) × (build_data_packet offset (some bytes) eof ≡ some p)
      × (length p ≡ packet_size)
      × Carries (buffer_of p) eof offset bytes
unfolding build_data_packet
build_data_packet-Carries offset eof bytes short small low =
    let tail = bytes ++ zeros (packet_size - 12 - length bytes) in
    let p : Bytes =
      0 ∷ 2 ∷ (le16 eof ++ (le16 (length bytes) ++ (0 ∷ 0 ∷ (le32 offset ++ tail)))) in
    let len : length p ≡ packet_size = omega (
      arith,
      length-append bytes (zeros (packet_size - 12 - length bytes)),
      length-zeros (packet_size - 12 - length bytes),
    ) in
    let same = buffer_of-full p len in
    (
      p,
      rw (le→leb (12 + length bytes) packet_size (omega arith)),
      len,
      subst (λ q. Carries q eof offset bytes) (sym same)
          (record {
            eof_is = read16-le16 eof low;
            offset_is = read32-le32 offset small;
            len_is = read16-le16 (length bytes) (omega arith);
            data_is = take-append bytes (zeros (packet_size - 12 - length bytes));
          }),
    )
