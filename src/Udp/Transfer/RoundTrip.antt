-- ===== src/Udp/Transfer/RoundTrip.antt =====
-- From `send_file` at one end to `receive_file` at the other.
use network_system_hw.Base.{
  ◌+◌, ◌-◌, ◌/◌, ◌^◌, ◌<◌, ◌≡◌, refl, sym, ap, subst, ◌∙◌, ◌⊎◌, inl, inr, List, [], ◌∷◌, ◌++◌,
  append_assoc, none, some, some-injective, arith, All, length, Bytes,
}
use network_system_hw.Base.Memory.{zeros, length-zeros, le16}
use network_system_hw.Udp.Packet.{packet_size, build_data_packet, buffer_of, eof_of}
use network_system_hw.Udp.Packet.Fields.{buffer_of-full}
use network_system_hw.Udp.Transfer.{finished, receive_file, send_once, send_file}
use network_system_hw.Udp.Transfer.Delivery.{In, PartPacket, receive_file_parts}
use network_system_hw.Udp.Transfer.Sending.{Carried, send_rounds-Carried}

abbrev pub end_packet : Bytes
end_packet = 0 ∷ 2 ∷ (le16 1 ++ zeros (packet_size - 4))

build_end : build_data_packet 0 none 1 ≡ some end_packet
unfolding build_data_packet
build_end = refl

end_packet-eof : eof_of (buffer_of end_packet) ≡ 1
end_packet-eof =
    ap eof_of (buffer_of-full end_packet (omega (arith, length-zeros (packet_size - 4))))

sent_once : (file : Bytes) (small : length file < 2 ^ 32) → Carried file small 0 (send_once file)
sent_once file small =
    send_rounds-Carried file small (length file + 1) 0 (omega arith) (omega arith)

pub send_file_lem :
    (file : Bytes)
    → length file < 2 ^ 32
    → (ds : List Bytes) × (send_once file ≡ some ds)
      × (length ds ≡ length file / 400 + 1)
      × (send_file file ≡ some (ds ++ (ds ++ (ds ++ (end_packet ∷ [])))))
unfolding send_file
send_file_lem file small =
    let c = sent_once file small in
    (c.packets, c.sent_is, omega (arith, c.rounds), rw (c.sent_is, build_end))

All-In : (file p : Bytes) (ps : List Bytes) → In p ps → All (PartPacket file) ps → PartPacket file p
All-In file p [] i a = absurd i
All-In file p (q ∷ ps) i a = elim i [
  | inl e ↦ subst (PartPacket file) (sym e) a.0
  | inr later ↦ All-In file p ps later a.1
]

All-of-In :
    (file : Bytes) (ps : List Bytes)
    → ((p : Bytes) → In p ps → PartPacket file p)
    → All (PartPacket file) ps
All-of-In file [] f = tt
All-of-In file (p ∷ ps) f = (f p (inl refl), All-of-In file ps (λ q i. f q (inr i)))

pub receive_file-send_once :
    (file : Bytes) (ds arrived rest : List Bytes)
    → length file < 2 ^ 32
    → send_once file ≡ some ds
    → ((p : Bytes) → In p arrived → In p ds)
    → ((p : Bytes) → In p ds → In p arrived)
    → receive_file (arrived ++ (end_packet ∷ rest)) ≡ some (finished file)
receive_file-send_once file ds arrived rest small sent from_ds all_ds =
    let c = sent_once file small in
    let same : c.packets ≡ ds = some-injective c.packets ds (sym c.sent_is ∙ sent) in
    receive_file_parts file small arrived end_packet rest end_packet-eof
      (All-of-In file arrived
        (λ p i. All-In file p c.packets (subst (In p) (sym same) (from_ds p i)) c.parts))
      (λ j l.
        let found = c.cover j (omega arith) l in
        (found.0, all_ds found.0 (subst (In found.0) same found.1), found.2))

In-append : (p : Bytes) (xs ys : List Bytes) → In p (xs ++ ys) → In p xs ⊎ In p ys
In-append p [] ys i = inr i
In-append p (x ∷ xs) ys i = elim i [
  | inl e ↦ inl (inl e)
  | inr later ↦ elim (In-append p xs ys later) [ inl a ↦ inl (inr a) | inr b ↦ inr b ]
]

In-append_left : (p : Bytes) (xs ys : List Bytes) → In p xs → In p (xs ++ ys)
In-append_left p [] ys i = absurd i
In-append_left p (x ∷ xs) ys i = elim i [
  | inl e ↦ inl e
  | inr later ↦ inr (In-append_left p xs ys later)
]

-- With nothing lost and nothing reordered the file comes back as it is.
pub receive_file-send_file :
    (file : Bytes) (sent : List Bytes)
    → length file < 2 ^ 32
    → send_file file ≡ some sent
    → receive_file sent ≡ some (finished file)
receive_file-send_file file sent small h =
    let (ds, once, _, all) = send_file_lem file small in
    let same : ds ++ (ds ++ (ds ++ (end_packet ∷ []))) ≡ sent =
      some-injective _ sent (sym all ∙ h) in
    let shape : (ds ++ (ds ++ ds)) ++ (end_packet ∷ []) ≡ sent = simp append_assoc same in
    subst (λ s. receive_file s ≡ some (finished file)) shape
      (receive_file-send_once file ds (ds ++ (ds ++ ds)) [] small once
        (λ p i. elim (In-append p ds (ds ++ ds) i) [
          | inl a ↦ a
          | inr b ↦ elim (In-append p ds ds b) [ inl a ↦ a | inr a ↦ a ]
        ])
        (λ p i. In-append_left p ds (ds ++ ds) i))
