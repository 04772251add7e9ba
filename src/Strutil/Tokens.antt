-- ===== src/Strutil/Tokens.antt =====
-- `split` and `split_first` cut at the separators and lose nothing else.
use network_system_hw.Base.{
  ℕ, zero, suc, ◌≤◌, ◌<◌, ◌≡◌, ◌≢◌, ◌↔◌, refl, ◌⊎◌, inl, inr, true, false, List, [], ◌∷◌, ◌++◌,
  some, arith, Bool-cases, length, All, Bytes, Lacks, has, copy, >>=-eq-some,
}
use network_system_hw.Strutil.{on_head, tokens, copy_all, split, split_first}

-- The texts with one byte between them.
abbrev pub join : ℕ → List Bytes → Bytes
join b [] = []
join b (t ∷ []) = t
join b (t ∷ u ∷ ts) = t ++ (b ∷ join b (u ∷ ts))

tokens-ne-nil : (sep s : Bytes) → tokens sep s ≢ []
unfolding tokens
tokens-ne-nil sep [] h = cc
tokens-ne-nil sep (c ∷ s) h = ground (arith, tokens-ne-nil sep s)

join-on_head : (b c : ℕ) (ts : List Bytes) → ts ≢ [] → join b (on_head c ts) ≡ c ∷ join b ts
unfolding on_head
join-on_head b c [] h = absurd (h refl)
join-on_head b c (t ∷ []) h = refl
join-on_head b c (t ∷ u ∷ ts) h = refl

join-nil-cons : (b : ℕ) (ts : List Bytes) → ts ≢ [] → join b ([] ∷ ts) ≡ b ∷ join b ts
join-nil-cons b [] h = absurd (h refl)
join-nil-cons b (t ∷ ts) h = refl

pub join-tokens : (b : ℕ) (s : Bytes) → join b (tokens (b ∷ []) s) ≡ s
unfolding tokens
join-tokens b [] = refl
join-tokens b (c ∷ s) =
    let some_token = tokens-ne-nil (b ∷ []) s in
    ground (
      arith,
      join-tokens b s,
      join-on_head b c (tokens (b ∷ []) s) some_token,
      join-nil-cons b (tokens (b ∷ []) s) some_token,
    )

-- The token holds no separator.
abbrev pub Clean : Bytes → Bytes → Type 0
Clean sep [] = Unit
Clean sep (c ∷ s) = (has sep c ≡ false) × Clean sep s

on_head-Clean :
    (sep : Bytes) (c : ℕ) (ts : List Bytes)
    → has sep c ≡ false
    → All (Clean sep) ts
    → All (Clean sep) (on_head c ts)
unfolding on_head
on_head-Clean sep c [] h f = tt
on_head-Clean sep c (t ∷ ts) h f = ((h, f.0), f.1)

pub tokens-Clean : (sep s : Bytes) → All (Clean sep) (tokens sep s)
unfolding tokens
tokens-Clean sep [] = (tt, tt)
tokens-Clean sep (c ∷ s) = elim (Bool-cases (has sep c)) [
  | inl e ↦ rw e (tt, tokens-Clean sep s)
  | inr e ↦ rw e (on_head-Clean sep c _ e (tokens-Clean sep s))
]

copy_all_sound :
    (slots width : ℕ) (ts : List Bytes) {us : List Bytes}
    → copy_all slots width ts ≡ some us
    → (us ≡ ts) × (length ts ≤ slots) × All (λ t. length t < width) ts
unfolding copy_all
copy_all_sound slots width [] h = ground arith
copy_all_sound zero width (t ∷ ts) h = cc
copy_all_sound (suc slots) width (t ∷ ts) {us} h =
    let (t', one, more) = >>=-eq-some (copy width t) _ h in
    let (ts', rest, done) = >>=-eq-some (copy_all slots width ts) _ more in
    ground (arith, copy_all_sound slots width ts rest)

copy_all_complete :
    (slots width : ℕ) (ts : List Bytes)
    → length ts ≤ slots
    → All (λ t. length t < width) ts
    → copy_all slots width ts ≡ some ts
unfolding copy_all
copy_all_complete slots width [] h f = refl
copy_all_complete zero width (t ∷ ts) h f = absurd (omega arith)
copy_all_complete (suc slots) width (t ∷ ts) h f = ground (arith, copy_all_complete slots width ts)

-- What `split` hands out for a text that is not empty: the parts between the separators, each
-- within its array, so that joining them gives the text back. The empty text has no part.
pub split_sound :
    (slots width b : ℕ) (s : Bytes) {ts : List Bytes}
    → split slots width s (b ∷ []) ≡ some ts
    → (join b ts ≡ s)
      × All (Clean (b ∷ [])) ts
      × (length ts ≤ slots)
      × All (λ t. length t < width) ts
      × ((s ≡ []) ↔ (ts ≡ []))
unfolding split
split_sound slots width b [] {ts} h = ground arith
split_sound slots width b (c ∷ s) {ts} h =
    let (same, few, short) = copy_all_sound slots width _ h in
    rw same (
      join-tokens b (c ∷ s),
      tokens-Clean (b ∷ []) (c ∷ s),
      few,
      short,
      ((λ e. cc), (λ e. absurd (tokens-ne-nil (b ∷ []) (c ∷ s) e))),
    )

-- Either `split_first` cuts at a separator that is not in the first part and drops just it,
-- or the text has no separator and is the first part as a whole.
pub split_first_lem :
    (s : Bytes) (sep : ℕ)
    → ((has s sep ≡ true)
        × (s ≡ (split_first s sep).0 ++ (sep ∷ (split_first s sep).1))
        × Lacks sep (split_first s sep).0)
      ⊎ ((has s sep ≡ false) × (split_first s sep ≡ (s, [])))
unfolding split_first
split_first_lem [] sep = inr (refl, refl)
split_first_lem (c ∷ s) sep = ground (arith, split_first_lem s sep)
