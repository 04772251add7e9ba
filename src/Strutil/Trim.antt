-- ===== src/Strutil/Trim.antt =====
-- `strip` and `remove_endl` drop what their comments name, and nothing else.
use mathlib.Core.List.{reverse, reverse-append, reverse-reverse}
use network_system_hw.Base.{
  ℕ, zero, suc, ◌≡◌, refl, sym, ap, ◌∙◌, inl, inr, false, ◌||◌, [], ◌∷◌, ◌++◌, append_assoc, arith,
  ltb, ◌==◌, Bool-cases, length, replicate, Bytes, Lacks, has,
}
use network_system_hw.Strutil.{chop, remove_endl, skip, strip}

-- The string begins with `b`.
abbrev pub Starts : ℕ → Bytes → Type 0
Starts b [] = ⊥
Starts b (c ∷ s) = c ≡ b

module _ (sep : ℕ) where
  skip_lem : (s : Bytes) → (a : ℕ) × (s ≡ replicate a sep ++ skip sep s)
  unfolding skip
  skip_lem [] = (0, refl)
  skip_lem (c ∷ s) = elim (Bool-cases (c == sep)) [
    | inl e ↦ (suc (skip_lem s).0, ground (arith, (skip_lem s).1))
    | inr e ↦ (0, rw e)
  ]

  not-Starts-skip : (s : Bytes) → ¬ Starts sep (skip sep s)
  unfolding skip
  not-Starts-skip [] = λ h. h
  not-Starts-skip (c ∷ s) = elim (Bool-cases (c == sep)) [
    | inl e ↦ rw e (not-Starts-skip s)
    | inr e ↦ rw e (λ h. ground arith)
  ]

  skip-clean : (s : Bytes) → ¬ Starts sep s → skip sep s ≡ s
  unfolding skip
  skip-clean [] h = refl
  skip-clean (c ∷ s) h = ground arith

  skip_twice :
      (s : Bytes) → ¬ Starts sep s → ltb 1 (length s) ≡ false → reverse (skip sep (reverse s)) ≡ s
  skip_twice [] h e = unfold skip in refl
  skip_twice (c ∷ []) h e = rw (skip-clean (c ∷ []) h)
  skip_twice (c ∷ d ∷ s) h e = ground arith

  strip-both : (s : Bytes) → strip s sep ≡ reverse (skip sep (reverse (skip sep s)))
  unfolding strip
  strip-both s = elim (Bool-cases (ltb 1 (length (skip sep s)))) [
    | inl e ↦ rw e
    | inr e ↦ rw e (sym (skip_twice (skip sep s) (not-Starts-skip s) e))
  ]

  replicate-concat : (n : ℕ) → replicate n sep ++ (sep ∷ []) ≡ replicate (suc n) sep
  replicate-concat zero = refl
  replicate-concat (suc n) = ap (◌∷◌ sep) (replicate-concat n)

  reverse-replicate : (n : ℕ) → reverse (replicate n sep) ≡ replicate n sep
  reverse-replicate zero = refl
  reverse-replicate (suc n) =
      reverse-append (sep ∷ []) (replicate n sep)
      ∙ ap (λ t. t ++ (sep ∷ [])) (reverse-replicate n)
      ∙ replicate-concat n

  Starts-append : (s t : Bytes) → Starts sep s → Starts sep (s ++ t)
  Starts-append [] t h = absurd h
  Starts-append (c ∷ s) t h = h

-- `strip` drops a run of `sep` at each end and nothing else, and leaves `sep` at neither end.
pub strip_lem :
    (line : Bytes) (sep : ℕ)
    → (a : ℕ) × (b : ℕ) × (line ≡ replicate a sep ++ (strip line sep ++ replicate b sep))
      × (¬ Starts sep (strip line sep))
      × (¬ Starts sep (reverse (strip line sep)))
strip_lem line sep =
    let front = skip_lem sep line in
    let rest : Bytes = skip sep line in
    let back = skip_lem sep (reverse rest) in
    let kept : Bytes = skip sep (reverse rest) in
    let halves : rest ≡ reverse kept ++ replicate back.0 sep =
      sym (reverse-reverse rest)
      ∙ ap reverse back.1
      ∙ reverse-append (replicate back.0 sep) kept
      ∙ ap (λ t. reverse kept ++ t) (reverse-replicate sep back.0) in
    (
      front.0,
      back.0,
      rw strip-both (front.1 ∙ ap (λ t. replicate front.0 sep ++ t) halves),
      rw strip-both (λ h. not-Starts-skip sep line (rw halves (Starts-append sep _ _ h))),
      rw (strip-both, reverse-reverse) (not-Starts-skip sep (reverse rest)),
    )

chop_end : (b : ℕ) (s : Bytes) → chop b (s ++ (b ∷ [])) ≡ s
chop_end b [] = ground arith
chop_end b (c ∷ []) = ground arith
chop_end b (c ∷ d ∷ s) = ap (◌∷◌ c) (chop_end b (d ∷ s))

chop-Lacks : (b : ℕ) (s : Bytes) → Lacks b s → chop b s ≡ s
chop-Lacks b [] h = refl
chop-Lacks b (c ∷ []) h = ground arith
chop-Lacks b (c ∷ d ∷ s) h = ap (◌∷◌ c) (chop-Lacks b (d ∷ s) (ground arith))

has-append : (s t : Bytes) (b : ℕ) → has (s ++ t) b ≡ (has s b || has t b)
has-append [] t b = refl
has-append (c ∷ s) t b = ground (arith, has-append s t b)

-- A line without `\r` and `\n` is given back from each of its three endings, and from none.
pub remove_endl_lem :
    (line : Bytes)
    → Lacks b'\r' line
    → Lacks b'\n' line
    → (remove_endl line ≡ line)
      × (remove_endl (line ++ (b'\n' ∷ [])) ≡ line)
      × (remove_endl (line ++ (b'\r' ∷ [])) ≡ line)
      × (remove_endl (line ++ (b'\r' ∷ b'\n' ∷ [])) ≡ line)
unfolding remove_endl
remove_endl_lem line r n =
    let plain = chop-Lacks b'\n' line n in
    let bare = chop-Lacks b'\r' line r in
    let return_only =
      chop-Lacks b'\n' (line ++ (b'\r' ∷ []))
        (ground (arith, has-append line (b'\r' ∷ []) b'\n')) in
    let both : chop b'\n' (line ++ (b'\r' ∷ b'\n' ∷ [])) ≡ line ++ (b'\r' ∷ []) =
      ap (chop b'\n') (sym (append_assoc line (b'\r' ∷ []) (b'\n' ∷ [])))
      ∙ chop_end b'\n' (line ++ (b'\r' ∷ [])) in
    (rw (plain, bare), rw (chop_end, bare), rw (return_only, chop_end), rw (both, chop_end))
