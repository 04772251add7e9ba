-- ===== src/Dfc/Packet/Fields.antt =====
-- A receiver reads back what the builder of data packets wrote.
use network_system_hw.Base.{
  >>=-eq-some, copy-eq-some, some-injective, ◌%◌, Option, copy, ◌+◌, ◌-◌, ◌^◌, ◌≤◌, ◌<◌, ◌≡◌, refl,
  sym, ap, subst, ◌∙◌, ℕ, ◌∷◌, ◌++◌, none, some, arith, le→leb, length, length-append, take, Bytes,
}
use network_system_hw.Base.Memory.{
  byte_at, byte_at-append, zeros, length-zeros, le16, le32, take-append, read16-le16, read32-le32,
}
use network_system_hw.Dfc.Packet.{
  field, credentials, message, build_msg_packet, msg_type_of, packet_size, data_size_max,
  build_data_packet, buffer_of, eof_of, data_len_of, offset_of, data_of,
}

pub buffer_of-full : (p : Bytes) → length p ≡ packet_size → buffer_of p ≡ p
buffer_of-full p h =
    ap (λ n. take n (p ++ zeros packet_size)) (sym h) ∙ take-append p (zeros packet_size)

-- The fields of a data packet in the receiver's buffer.
pub record Carries (q : Bytes) (eof offset : ℕ) (bytes : Bytes) : Type 0 where
  pub eof_is : eof_of q ≡ eof
  pub offset_is : offset_of q ≡ offset
  pub len_is : data_len_of q ≡ length bytes
  pub data_is : data_of (length bytes) q ≡ bytes

abbrev padded : ℕ → ℕ → Bytes → Bytes
padded offset eof bytes =
    0
    ∷ 2
    ∷ (zeros 32
        ++ (le16 eof
            ++ (le16 (length bytes)
                ++ (0 ∷ 0 ∷ (le32 offset ++ (bytes ++ zeros (packet_size - 44 - length bytes)))))))

padded-size :
    (offset eof : ℕ) (bytes : Bytes)
    → length bytes ≤ data_size_max
    → length (padded offset eof bytes) ≡ packet_size
padded-size offset eof bytes short = omega (
  arith,
  length-append (zeros 32) (
      le16 eof
      ++ (le16 (length bytes)
          ++ (0 ∷ 0 ∷ (le32 offset ++ (bytes ++ zeros (packet_size - 44 - length bytes)))))),
  length-zeros 32,
  length-append bytes (zeros (packet_size - 44 - length bytes)),
  length-zeros (packet_size - 44 - length bytes),
)

padded-Carries :
    (offset eof : ℕ) (bytes : Bytes)
    → length bytes ≤ data_size_max
    → offset < 2 ^ 32
    → eof < 2 ^ 16
    → Carries (padded offset eof bytes) eof offset bytes
unfolding zeros
padded-Carries offset eof bytes short small low = record {
  eof_is = read16-le16 eof low;
  offset_is = read32-le32 offset small;
  len_is = read16-le16 (length bytes) (omega arith);
  data_is = take-append bytes (zeros (packet_size - 44 - length bytes));
}

pub build_data_packet-Carries :
    (offset eof : ℕ) (bytes : Bytes)
    → length bytes ≤ data_size_max
    → offset < 2 ^ 32
    → eof < 2 ^ 16
    → (p : Bytes) × (build_data_packet offset (some bytes) eof ≡ some p)
      × Carries (buffer_of p) eof offset bytes
unfolding build_data_packet
build_data_packet-Carries offset eof bytes short small low =
    let p = padded offset eof bytes in
    (
      p,
      rw (le→leb (44 + length bytes) packet_size (omega arith)),
      subst (λ q. Carries q eof offset bytes)
          (sym (buffer_of-full p (padded-size offset eof bytes short)))
          (padded-Carries offset eof bytes short small low),
    )

abbrev pub end_packet : Bytes
end_packet = 0 ∷ 2 ∷ (zeros 32 ++ (le16 1 ++ zeros (packet_size - 36)))

pub build_end : build_data_packet 0 none 1 ≡ some end_packet
unfolding build_data_packet
build_end = refl

end_packet-size : length end_packet ≡ packet_size
end_packet-size = omega (
  arith,
  length-append (zeros 32) (le16 1 ++ zeros (packet_size - 36)),
  length-zeros 32,
  length-zeros (packet_size - 36),
)

end_packet-bytes : eof_of end_packet ≡ 1
unfolding zeros
end_packet-bytes = refl

pub end_packet-eof : eof_of (buffer_of end_packet) ≡ 1
end_packet-eof = ap eof_of (buffer_of-full end_packet end_packet-size) ∙ end_packet-bytes

length-field : (s : Bytes) {t : Bytes} → field s ≡ some t → length t ≡ 16
length-field s e =
    let (u, copied, padded) = >>=-eq-some (copy 16 s) _ e in
    let (same, short) = copy-eq-some 16 s copied in
    ap length (sym (some-injective _ _ padded))
    ∙ omega (
      arith,
      length-append u (zeros (16 - length u)),
      length-zeros (16 - length u),
      ap length same,
      short,
    )

length-credentials :
    (conf : Option (Bytes × Bytes)) {who : Bytes} → credentials conf ≡ some who → length who ≡ 32
unfolding credentials
length-credentials none e = ap length (sym (some-injective _ _ e)) ∙ length-zeros 32
length-credentials (some (username, password)) e =
    let (u, first, rest) = >>=-eq-some (field username) _ e in
    let (p, second, both) = >>=-eq-some (field password) _ rest in
    ap length (sym (some-injective _ _ both))
    ∙ omega (arith, length-append u p, length-field username first, length-field password second)

-- Whatever a message packet holds, its type is the one it was built for.
pub build_msg_packet-msg_type :
    (msg_type errno : ℕ) (msg : Option Bytes) (conf : Option (Bytes × Bytes)) {p : Bytes}
    → build_msg_packet msg_type errno msg conf ≡ some p
    → msg_type_of p ≡ msg_type % 256
unfolding build_msg_packet
build_msg_packet-msg_type msg_type errno msg conf e =
    let (who, named, rest) = >>=-eq-some (credentials conf) _ e in
    let (body, held, whole) = >>=-eq-some (message msg) _ rest in
    ap msg_type_of (sym (some-injective _ _ whole))
    ∙ ap (λ n. byte_at (n + 1) (who ++ ((errno % 256) ∷ (msg_type % 256) ∷ body)))
        (sym (length-credentials conf named))
    ∙ byte_at-append who ((errno % 256) ∷ (msg_type % 256) ∷ body) 1
