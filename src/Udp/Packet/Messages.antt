-- ===== src/Udp/Packet/Messages.antt =====
-- A receiver reads back what `build_msg_packet` of udp/util.c wrote.
use network_system_hw.Base.{
  ℕ, ◌+◌, ◌-◌, ◌%◌, ◌<◌, ◌≡◌, sym, ap, subst, ◌∙◌, [], ◌∷◌, ◌++◌, append-nil, some, arith, le→leb,
  length, length-append, Bytes, cstr, Lacks,
}
use network_system_hw.Base.Memory.{zeros, length-zeros, le16, cstr-padded}
use network_system_hw.Udp.Packet.{packet_size, build_msg_packet, buffer_of, msg_type_of, msg_of}
use network_system_hw.Udp.Packet.Fields.{buffer_of-full}

-- The message packet in a receiver's buffer.
pub record Reads (q : Bytes) (msg_type : ℕ) (msg : Bytes) : Type 0 where
  pub msg_type_is : msg_type_of q ≡ msg_type
  pub msg_is : msg_of q ≡ msg

pub build_msg_packet-Reads :
    (msg_type : ℕ) (msg : Bytes)
    → msg_type < 256
    → Lacks 0 msg
    → 6 + length msg < packet_size
    → (p : Bytes) × (build_msg_packet msg_type (some msg) ≡ some p)
      × Reads (buffer_of p) msg_type msg
unfolding build_msg_packet
build_msg_packet-Reads msg_type msg byte clean short =
    let pad = zeros (packet_size - 6 - length msg) in
    let p : Bytes = 0 ∷ 1 ∷ 0 ∷ (msg_type % 256) ∷ (le16 (length msg) ++ (msg ++ pad)) in
    let size : length p ≡ packet_size =
      omega (arith, length-append msg pad, length-zeros (packet_size - 6 - length msg)) in
    let same_type : msg_type % 256 ≡ msg_type = omega arith in
    (
      p,
      rw (le→leb (6 + length msg) packet_size (omega arith)),
      subst (λ q. Reads q msg_type msg) (sym (buffer_of-full p size))
          (record {
            msg_type_is = same_type;
            msg_is =
                ap (λ z. cstr (msg ++ z)) (sym (append-nil pad))
                ∙ cstr-padded msg [] (packet_size - 6 - length msg) clean (omega arith);
          }),
    )
