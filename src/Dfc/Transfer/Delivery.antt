-- ===== src/Dfc/Transfer/Delivery.antt =====
-- What a receiver with the key `kr` has when `send_file` with the key `ks` has ended.
use network_system_hw.Base.{
  ℕ, zero, suc, ◌+◌, ◌%◌, ◌^◌, ◌≤◌, ◌<◌, ◌≡◌, refl, sym, ap, ◌∙◌, Bool, true, false, Bool-cases,
  inl, inr, List, [], ◌∷◌, ◌++◌, append_assoc, append-nil, Option, some, ◌>>=◌, ltb, ◌==◌, ltb→lt,
  ltb-false→le, ==_iff, arith, length, length-append, length-take, length-drop, take, drop,
  take_short, All, All-take, All-drop, Bytes,
}
use network_system_hw.Dfc.Packet.{data_size_max}
use network_system_hw.Dfc.Packet.Fields.{build_data_packet-Carries, end_packet, build_end}
use network_system_hw.Dfc.Mask.{IsByte}
use network_system_hw.Dfc.Transfer.Pieces.{Masks, pieces, pieces-nil, pieces-last, pieces-next}
use network_system_hw.Dfc.Transfer.{
  count, less, send_round, send_rounds, finish, send_file, finished, receive_from, receive_file,
}
use network_system_hw.Dfc.Transfer.Rounds.{
  part, part-count, part_short, part_none, part-less, count-bound, behind, receive_step,
  receive_end, Brought,
}

module _ (ks kr : Option Bytes) (g : Bytes → Bytes) (masks : Masks ks kr g) where
  module _ (accepts : ℕ → Bool) (all : (i : ℕ) → accepts i ≡ true) where
    -- One round that sends a packet.
    record Round (i : ℕ) (n : Option ℕ) (content rest : Bytes) : Type 0 where
      packet : Bytes
      sends :
          (fuel : ℕ)
          → send_rounds (suc fuel) accepts ks i (length content) n rest
            ≡ send_round true (ltb (length (take (count n) rest)) (count n)) packet (
                send_rounds fuel accepts ks
                  (suc i)
                  ((length content + length (take (count n) rest)) % 2 ^ 32)
                  (less n (length (take (count n) rest)))
                  (drop (count n) rest))
      brings :
          (ds : List Bytes)
          → receive_from kr (behind content) (packet ∷ ds)
            ≡ receive_from kr (behind (content ++ g (take (count n) rest))) ds

    Round-of :
        (i : ℕ) (n : Option ℕ) (content rest : Bytes)
        → (count n == 0) ≡ false
        → length content + length rest < 2 ^ 32
        → All IsByte rest
        → Round i n content rest
    unfolding send_rounds
    Round-of i n content rest positive small bytes =
        let (masked, m, len, back) =
          masks.works (take (count n) rest) (All-take IsByte (count n) rest bytes) in
        let same = masks.keeps (take (count n) rest) in
        let short : length (g (take (count n) rest)) ≤ data_size_max =
          omega (arith, length-take (count n) rest, count-bound n, same) in
        let fits : length content + length (g (take (count n) rest)) < 2 ^ 32 =
          omega (arith, length-take (count n) rest, same) in
        let (p, built, carries) =
          build_data_packet-Carries (length content) 0 masked (omega arith) (omega arith)
            (omega arith) in
        record {
          packet = p;
          sends = λ fuel. rw (positive, m, built, all i);
          brings = λ ds.
              receive_step kr content (g (take (count n) rest)) masked p ds (len ∙ sym same) short
                fits back carries;
        }

    Brought-none :
        (fuel i : ℕ) (n : Option ℕ) (content rest : Bytes)
        → (count n == 0) ≡ true
        → Brought kr content
            (pieces g (suc fuel) (part n rest))
            (send_rounds (suc fuel) accepts ks i (length content) n rest)
    unfolding send_rounds
    Brought-none fuel i n content rest stop =
        let nothing =
          ap (pieces g (suc fuel)) (part_none n rest ((==_iff (count n) 0).0 stop))
          ∙ pieces-nil g masks.keeps (suc fuel) in
        record {
          packets = [];
          sent_is = rw stop refl;
          brings = λ ds.
              ap (λ c. receive_from kr (behind c) ds)
                (sym (append-nil content) ∙ ap (◌++◌ content) (sym nothing));
        }

    Brought-last :
        (fuel i : ℕ) (n : Option ℕ) (content rest : Bytes)
        → Round i n content rest
        → ltb (length (take (count n) rest)) (count n) ≡ true
        → Brought kr content
            (pieces g (suc fuel) (part n rest))
            (send_rounds (suc fuel) accepts ks i (length content) n rest)
    Brought-last fuel i n content rest r last =
        let fewer : length rest < count n =
          omega (arith, ltb→lt _ _ last, length-take (count n) rest) in
        let whole =
          ap g (take_short (count n) rest (omega arith))
          ∙ sym (pieces-last g masks.keeps fuel rest (omega (arith, count-bound n)))
          ∙ ap (pieces g (suc fuel)) (sym (part_short n rest fewer)) in
        record {
          packets = r.packet ∷ [];
          sent_is = r.sends fuel ∙ rw last refl;
          brings = λ ds. r.brings ds ∙ ap (λ b. receive_from kr (behind (content ++ b)) ds) whole;
        }

    Brought-full :
        (fuel i : ℕ) (n : Option ℕ) (content rest : Bytes)
        → Round i n content rest
        → ltb (length (take (count n) rest)) (count n) ≡ false
        → length content + length rest < 2 ^ 32
        → Brought kr
            (content ++ g (take (count n) rest))
            (pieces g fuel (part (less n (count n)) (drop (count n) rest)))
            (send_rounds fuel accepts ks
              (suc i)
              (length (content ++ g (take (count n) rest)))
              (less n (count n))
              (drop (count n) rest))
        → Brought kr content
            (pieces g (suc fuel) (part n rest))
            (send_rounds (suc fuel) accepts ks i (length content) n rest)
    Brought-full fuel i n content rest r full small later =
        let size : length (take (count n) rest) ≡ count n =
          omega (arith, ltb-false→le _ _ full, length-take (count n) rest) in
        let at : (length content + length (take (count n) rest)) % 2 ^ 32
            ≡ length (content ++ g (take (count n) rest)) =
          omega (
            arith,
            length-append content (g (take (count n) rest)),
            masks.keeps (take (count n) rest),
            length-take (count n) rest,
          ) in
        let next =
          ap (pieces g (suc fuel)) (part-count n rest)
          ∙ pieces-next g masks.keeps fuel (take (count n) rest)
              (part (less n (count n)) (drop (count n) rest)) (omega (arith, count-bound n))
              (λ l. part-less n (drop (count n) rest) (omega arith)) in
        record {
          packets = r.packet ∷ later.packets;
          sent_is =
              r.sends fuel
              ∙ ap
                  (λ b. send_round true b r.packet (
                    send_rounds fuel accepts ks (suc i)
                      ((length content + length (take (count n) rest)) % 2 ^ 32)
                      (less n (length (take (count n) rest))) (drop (count n) rest)))
                  full
              ∙ (λ j. send_round true false r.packet (
                  send_rounds fuel accepts ks (suc i) (at j) (less n (size j))
                    (drop (count n) rest)))
              ∙ ap (send_round true false r.packet) later.sent_is;
          brings = λ ds.
              r.brings (later.packets ++ ds)
              ∙ later.brings ds
              ∙ ap (λ c. receive_from kr (behind c) ds)
                  (append_assoc content (g (take (count n) rest)) _ ∙ ap (◌++◌ content) (sym next));
        }

    pub send_rounds-Brought :
        (fuel i : ℕ) (n : Option ℕ) (content rest : Bytes)
        → length content + length rest < 2 ^ 32
        → length rest < fuel
        → All IsByte rest
        → Brought kr content
            (pieces g fuel (part n rest))
            (send_rounds fuel accepts ks i (length content) n rest)
    send_rounds-Brought zero i n content rest small enough bytes = absurd (omega arith)
    send_rounds-Brought (suc fuel) i n content rest small enough bytes =
        elim (Bool-cases (count n == 0)) [
          | inl none_left ↦ Brought-none fuel i n content rest none_left
          | inr positive ↦
              let r = Round-of i n content rest positive small bytes in
              elim (Bool-cases (ltb (length (take (count n) rest)) (count n))) [
                | inl last ↦ Brought-last fuel i n content rest r last
                | inr full ↦
                    let whole : count n ≤ length rest =
                      omega (arith, ltb-false→le _ _ full, length-take (count n) rest) in
                    let some_left : 0 < count n = ground arith in
                    Brought-full fuel i n content rest r full small (
                      send_rounds-Brought fuel (suc i) (less n (count n))
                        (content ++ g (take (count n) rest)) (drop (count n) rest)
                        (omega (
                          arith,
                          length-append content (g (take (count n) rest)),
                          masks.keeps (take (count n) rest),
                          length-take (count n) rest,
                          length-drop (count n) rest,
                        ))
                        (omega (arith, length-drop (count n) rest))
                        (All-drop IsByte (count n) rest bytes))
              ]
        ]

    -- The whole call, and a `receive_file` that gets packet after packet.
    pub send_file-Brought :
        (file : Bytes) (offset : ℕ) (n : Option ℕ)
        → length file < 2 ^ 32
        → All IsByte file
        → (ps : List Bytes) × (send_file accepts (some file) offset n ks ≡ some (ps, true))
          × ((ds : List Bytes)
              → receive_file kr (ps ++ ds)
                ≡ some (finished (pieces g (length file + 1) (part n (drop offset file)))))
    unfolding send_file receive_file receive_from
    send_file-Brought file offset n small bytes =
        let b =
          send_rounds-Brought (length file + 1) 0 n [] (drop offset file)
            (omega (arith, length-drop offset file)) (omega (arith, length-drop offset file))
            (All-drop IsByte offset file bytes) in
        (
          b.packets ++ (end_packet ∷ []),
          ap (λ m. m >>= finish accepts) b.sent_is ∙ rw (build_end, all (length b.packets)) refl,
          λ ds.
              ap (receive_file kr) (append_assoc b.packets (end_packet ∷ []) ds)
              ∙ b.brings (end_packet ∷ ds)
              ∙ receive_end kr (pieces g (length file + 1) (part n (drop offset file))) ds,
        )
