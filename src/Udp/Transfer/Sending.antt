-- ===== src/Udp/Transfer/Sending.antt =====
-- The packets that `send_file` sends carry the whole file.
use network_system_hw.Base.{
  ℕ, zero, suc, ◌+◌, ◌-◌, ◌/◌, ◌%◌, ◌^◌, ◌≤◌, ◌<◌, min, ◌≡◌, refl, ap, ◌∙◌, true, false, List, [],
  ◌∷◌, Option, some, arith, ltb, ltb→lt, ltb-false→le, ◌>>=◌, Bool-cases, inl, inr, All, length,
  take, drop, length-take, length-drop, drop-drop, Bytes,
}
use native.Mathlib.Decide.{dec_lt}
use network_system_hw.Base.Memory.{byte_at-take, byte_at-drop}
use network_system_hw.Udp.Packet.{data_size_max, build_data_packet}
use network_system_hw.Udp.Packet.Fields.{build_data_packet-Carries}
use network_system_hw.Udp.Transfer.{send_rounds}
use network_system_hw.Udp.Transfer.Parts.{IsPart}
use network_system_hw.Udp.Transfer.Delivery.{In, PartPacket, Brings}

send_last :
    (fuel at : ℕ) (rest : Bytes) {p : Bytes}
    → build_data_packet at (some (take data_size_max rest)) 0 ≡ some p
    → ltb (length (take data_size_max rest)) data_size_max ≡ true
    → send_rounds (suc fuel) at rest ≡ some (p ∷ [])
unfolding send_rounds
send_last fuel at rest built last = rw (built, last)

send_more :
    (fuel at : ℕ) (rest : Bytes) {p : Bytes}
    → build_data_packet at (some (take data_size_max rest)) 0 ≡ some p
    → ltb (length (take data_size_max rest)) data_size_max ≡ false
    → send_rounds (suc fuel) at rest ≡ (
        send_rounds fuel
          ((at + length (take data_size_max rest)) % 2 ^ 32)
          (drop data_size_max rest)
        >>= λ ps. some (p ∷ ps))
unfolding send_rounds
send_more fuel at rest built full = rw (built, full)

module _ (file : Bytes) (small : length file < 2 ^ 32) where
  chunk-IsPart : (at : ℕ) → at ≤ length file → IsPart file at (take data_size_max (drop at file))
  chunk-IsPart at le = record {
    inside = omega (arith, length-take data_size_max (drop at file), length-drop at file);
    short = omega (arith, length-take data_size_max (drop at file));
    same = λ k l.
        byte_at-take data_size_max k (drop at file)
          (omega (arith, length-take data_size_max (drop at file)))
        ∙ byte_at-drop at k file;
  }

  -- The packets carry the file from `at` on.
  pub record Carried (at : ℕ) (sent : Option (List Bytes)) : Type 0 where
    pub packets : List Bytes
    pub sent_is : sent ≡ some packets
    pub rounds : length packets ≡ (length file - at) / data_size_max + 1
    pub parts : All (PartPacket file) packets
    pub cover : (j : ℕ) → at ≤ j → j < length file → (p : Bytes) × In p packets × Brings p j

  -- The packet of the round at `at`.
  record Round (at : ℕ) : Type 0 where
    packet : Bytes
    built : build_data_packet at (some (take data_size_max (drop at file))) 0 ≡ some packet
    here : PartPacket file packet
    len : length (take data_size_max (drop at file)) ≡ min data_size_max (length file - at)
    brings : (j : ℕ) → at ≤ j → j < at + min data_size_max (length file - at) → Brings packet j

  Round-at : (at : ℕ) → at ≤ length file → Round at
  Round-at at le =
      let len : length (take data_size_max (drop at file)) ≡ min data_size_max (length file - at) =
        omega (arith, length-take data_size_max (drop at file), length-drop at file) in
      let (p, built, size, carries) =
        build_data_packet-Carries at 0 (take data_size_max (drop at file)) (omega (arith, len))
          (omega arith) (omega arith) in
      record {
        packet = p;
        built = built;
        here = record {
          offset = at;
          bytes = take data_size_max (drop at file);
          part = chunk-IsPart at le;
          carries = carries;
        };
        len = len;
        brings = λ j lo hi. (
          omega (arith, carries.offset_is),
          omega (arith, carries.offset_is, carries.len_is, len),
        );
      }

  pub send_rounds-Carried :
      (fuel at : ℕ)
      → at ≤ length file
      → length file < at + fuel
      → Carried at (send_rounds fuel at (drop at file))
  send_rounds-Carried zero at le enough = absurd (omega arith)
  send_rounds-Carried (suc fuel) at le enough =
      elim (Bool-cases (ltb (length (take data_size_max (drop at file))) data_size_max)) [
        | inl last ↦ record {
          packets = r.packet ∷ [];
          sent_is = send_last fuel at (drop at file) r.built last;
          rounds = omega (arith, r.len, ltb→lt _ _ last);
          parts = (r.here, tt);
          cover = λ j lo hi. (r.packet, inl refl, r.brings j lo (reaches j hi (ltb→lt _ _ last)));
        }
        | inr full ↦
            let whole : length (take data_size_max (drop at file)) ≡ data_size_max =
              omega (arith, r.len, ltb-false→le _ _ full) in
            let next : at + data_size_max ≤ length file = omega (arith, whole, r.len) in
            let more = send_rounds-Carried fuel (at + data_size_max) next (omega (arith, enough)) in
            record {
              packets = r.packet ∷ more.packets;
              sent_is =
                  send_more fuel at (drop at file) r.built full
                  ∙ ap
                      (λ n. send_rounds fuel n (drop data_size_max (drop at file)) >>= λ ps.
                        some (r.packet ∷ ps))
                      (step whole next)
                  ∙ ap (λ d. send_rounds fuel (at + data_size_max) d >>= λ ps. some (r.packet ∷ ps))
                      (drop-drop data_size_max at file)
                  ∙ ap (λ m. m >>= λ ps. some (r.packet ∷ ps)) more.sent_is;
              rounds = omega (arith, more.rounds, next);
              parts = (r.here, more.parts);
              cover = λ j lo hi. elim (dec_lt j (at + data_size_max)) [
                | yes early ↦ (r.packet, inl refl, r.brings j lo (omega (arith, early, next)))
                | no late ↦ let m = more.cover j (omega arith) hi in (m.0, inr m.1, m.2)
              ];
            }
      ]
    where
      r : Round at
      r = Round-at at le

      reaches :
          (j : ℕ)
          → j < length file
          → length (take data_size_max (drop at file)) < data_size_max
          → j < at + min data_size_max (length file - at)
      reaches j hi fewer = omega (arith, r.len)

      step :
          length (take data_size_max (drop at file)) ≡ data_size_max
          → at + data_size_max ≤ length file
          → (at + length (take data_size_max (drop at file))) % 2 ^ 32 ≡ at + data_size_max
      step whole next =
          let fits : (at + data_size_max) % 2 ^ 32 ≡ at + data_size_max = omega arith in
          ap (λ n. (at + n) % 2 ^ 32) whole ∙ fits
