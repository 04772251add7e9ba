-- ===== src/Dfc/Transfer/Pieces.antt =====
-- A file is masked, and unmasked, packet by packet.
use network_system_hw.Base.{
  ℕ, zero, suc, ◌-◌, ◌≤◌, ◌<◌, ◌≡◌, refl, sym, ap, ◌∙◌, [], ◌∷◌, ◌++◌, append-nil, Option, none,
  some, Bool-cases, inl, inr, ltb, ltb→lt, ltb-false→le, arith, length, length-append, length-take,
  length-drop, take, drop, take_short, drop_short, take-append-drop, All, All-take, All-drop, Bytes,
}
use network_system_hw.Base.Memory.{take-append, drop-append}
use network_system_hw.Dfc.Packet.{data_size_max}
use network_system_hw.Dfc.Mask.{
  mask, masking, IsByte, IsKey, length-masking, mask-masking, masking-masking, masking-IsByte,
}

-- What becomes of each packet's data between the sender's key and the receiver's.
pub record Masks (ks kr : Option Bytes) (g : Bytes → Bytes) : Type 0 where
  pub keeps : (s : Bytes) → length (g s) ≡ length s
  pub works :
      (s : Bytes)
      → All IsByte s
      → (t : Bytes) × (mask ks s ≡ some t) × (length t ≡ length s) × (mask kr t ≡ some (g s))

module _ (g : Bytes → Bytes) where
  -- `g` on every 500 bytes; one unit of fuel for each, `length s + 1` units are enough
  abbrev pub pieces : ℕ → Bytes → Bytes
  pieces zero s = []
  pieces (suc fuel) s = g (take data_size_max s) ++ pieces fuel (drop data_size_max s)

module _ (g : Bytes → Bytes) (keeps : (s : Bytes) → length (g s) ≡ length s) where
  nothing_left : (s : Bytes) → length s ≡ 0 → s ≡ []
  nothing_left [] h = refl
  nothing_left (x ∷ s) h = absurd (omega arith)

  pub pieces-nil : (fuel : ℕ) → pieces g fuel [] ≡ []
  pieces-nil zero = refl
  pieces-nil (suc fuel) =
      ap (◌++◌ (g [])) (pieces-nil fuel) ∙ append-nil (g []) ∙ nothing_left (g []) (keeps [])

  pub pieces-last : (fuel : ℕ) (s : Bytes) → length s < data_size_max → pieces g (suc fuel) s ≡ g s
  pieces-last fuel s h =
      let t = take_short data_size_max s (omega arith) in
      let d = drop_short data_size_max s (omega arith) in
      (λ i. g (t i) ++ pieces g fuel (d i)) ∙ ap (◌++◌ (g s)) (pieces-nil fuel) ∙ append-nil (g s)

  -- One packet of a file that goes on only behind a full packet.
  pub pieces-next :
      (fuel : ℕ) (a b : Bytes)
      → length a ≤ data_size_max
      → (length a < data_size_max → b ≡ [])
      → pieces g (suc fuel) (a ++ b) ≡ g a ++ pieces g fuel b
  pieces-next fuel a b short more = elim (Bool-cases (ltb (length a) data_size_max)) [
    | inl part ↦
        let none_left = more (ltb→lt _ _ part) in
        ap (λ c. pieces g (suc fuel) (a ++ c)) none_left
        ∙ ap (pieces g (suc fuel)) (append-nil a)
        ∙ pieces-last fuel a (ltb→lt _ _ part)
        ∙ sym (append-nil (g a))
        ∙ ap (◌++◌ (g a)) (sym (pieces-nil fuel))
        ∙ ap (λ c. g a ++ pieces g fuel c) (sym none_left)
    | inr full ↦
        let size : length a ≡ data_size_max = omega (arith, ltb-false→le _ _ full) in
        let t = ap (λ k. take k (a ++ b)) (sym size) ∙ take-append a b in
        let d = ap (λ k. drop k (a ++ b)) (sym size) ∙ drop-append a b in
        λ i. g (t i) ++ pieces g fuel (d i)
  ]

  pub length-pieces : (fuel : ℕ) (s : Bytes) → length s < fuel → length (pieces g fuel s) ≡ length s
  length-pieces zero s h = absurd (omega arith)
  length-pieces (suc fuel) s h = elim (Bool-cases (ltb (length s) data_size_max)) [
    | inl last ↦ ap length (pieces-last fuel s (ltb→lt _ _ last)) ∙ keeps s
    | inr full ↦
        let le = ltb-false→le _ _ full in
        omega (
          arith,
          length-append (g (take data_size_max s)) (pieces g fuel (drop data_size_max s)),
          keeps (take data_size_max s),
          length-pieces fuel (drop data_size_max s) (omega (arith, length-drop data_size_max s)),
          length-take data_size_max s,
          length-drop data_size_max s,
        )
  ]

  -- If doing `g` twice undoes it, then so does doing it packet by packet twice.
  pub pieces-pieces :
      (again : (s : Bytes) → All IsByte s → g (g s) ≡ s) (fuel fuel' : ℕ) (s : Bytes)
      → length s < fuel
      → length s < fuel'
      → All IsByte s
      → pieces g fuel' (pieces g fuel s) ≡ s
  pieces-pieces again zero fuel' s h h' bytes = absurd (omega arith)
  pieces-pieces again (suc fuel) zero s h h' bytes = absurd (omega arith)
  pieces-pieces again (suc fuel) (suc fuel') s h h' bytes =
      elim (Bool-cases (ltb (length s) data_size_max)) [
        | inl last ↦
            let low = ltb→lt _ _ last in
            ap (pieces g (suc fuel')) (pieces-last fuel s low)
            ∙ pieces-last fuel' (g s) (omega (arith, keeps s))
            ∙ again s bytes
        | inr full ↦
            let a = take data_size_max s in
            let rest = drop data_size_max s in
            let le = ltb-false→le _ _ full in
            let size : length (g a) ≡ data_size_max =
              omega (arith, keeps a, length-take data_size_max s) in
            let left : length rest ≡ length s - data_size_max = length-drop data_size_max s in
            pieces-next fuel' (g a) (pieces g fuel rest) (omega arith) (λ l. absurd (omega arith))
            ∙ ap (λ x. x ++ pieces g fuel' (pieces g fuel rest))
                (again a (All-take IsByte data_size_max s bytes))
            ∙ ap (◌++◌ a) (
                pieces-pieces again fuel fuel' rest (omega arith) (omega arith)
                  (All-drop IsByte data_size_max s bytes))
            ∙ take-append-drop data_size_max s
      ]

mask-none : (s : Bytes) → mask none s ≡ some s
mask-none s = mask-masking none s tt

All-append : (a b : Bytes) → All IsByte a → All IsByte b → All IsByte (a ++ b)
All-append [] b h k = k
All-append (x ∷ a) b h k = (h.0, All-append a b h.1 k)

module _ (key : Option Bytes) where
  pub pieces-IsByte :
      (fuel : ℕ) (s : Bytes) → All IsByte s → All IsByte (pieces (masking key) fuel s)
  pieces-IsByte zero s h = tt
  pieces-IsByte (suc fuel) s h =
      All-append _ _ (masking-IsByte key _ (All-take IsByte data_size_max s h))
        (pieces-IsByte fuel (drop data_size_max s) (All-drop IsByte data_size_max s h))

  -- The sender masks, the receiver does not.
  pub sender_only : IsKey key → Masks key none (masking key)
  sender_only usable = record {
    keeps = length-masking key;
    works = λ s b.
        (masking key s, mask-masking key s usable, length-masking key s, mask-none (masking key s));
  }

  -- The receiver masks, the sender does not.
  pub receiver_only : IsKey key → Masks none key (masking key)
  receiver_only usable = record {
    keeps = length-masking key;
    works = λ s b. (s, mask-none s, refl, mask-masking key s usable);
  }

  -- Both mask.
  pub both_ends : IsKey key → Masks key key (λ s. s)
  both_ends usable = record {
    keeps = λ s. refl;
    works = λ s b. (
      masking key s,
      mask-masking key s usable,
      length-masking key s,
      mask-masking key (masking key s) usable ∙ ap some (masking-masking key s b),
    );
  }
