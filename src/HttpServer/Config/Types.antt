-- ===== src/HttpServer/Config/Types.antt =====
-- Which content type a file name gets, and what becomes of the default one.
use network_system_hw.Base.{
  ℕ, zero, suc, ◌+◌, ◌≤◌, ◌<◌, ◌≡◌, ◌≢◌, refl, ap, ◌∙◌, ◌⊎◌, inl, inr, true, false, [], ◌∷◌, ◌++◌,
  some, arith, ◌==◌, >>=-eq-some, Bool-cases, get_or, Bytes, str_eq, str_eq_iff, copy, copy-eq-some,
  has, Lacks, subst,
}
use native.Mathlib.Decide.{ℕ_discrete}
use network_system_hw.HttpServer.Config.{
  Config, file_extension, find_type, type_of_extension, get_content_type,
}

has_dot : (stem ext : Bytes) → has (stem ++ (b'.' ∷ ext)) b'.' ≡ true
has_dot [] ext = refl
has_dot (c ∷ stem) ext = ground (arith, has_dot stem ext)

-- The extension is the part from the last dot on, or empty where there is no dot.
pub file_extension_lem :
    (f : Bytes)
    → (Lacks b'.' f × (file_extension f ≡ []))
      ⊎ ((stem : Bytes) × (ext : Bytes) × (f ≡ stem ++ (b'.' ∷ ext))
          × Lacks b'.' ext
          × (file_extension f ≡ b'.' ∷ ext))
unfolding file_extension
file_extension_lem [] = inl (refl, refl)
file_extension_lem (c ∷ s) = elim (file_extension_lem s) [
  | inl (none_left, e) ↦ elim (Bool-cases (c == b'.')) [
    | inl dot ↦ inr ([], s, ground arith, none_left, ground arith)
    | inr other ↦ inl (ground arith, ground arith)
  ]
  | inr (stem, ext, cut, clean, e) ↦
      let dotted : has s b'.' ≡ true = rw cut (has_dot stem ext) in
      inr (c ∷ stem, ext, ap (◌∷◌ c) cut, clean, ground (arith, dotted))
]

-- `i` is the first of the `n` indices from `from` on whose extension is `extension`.
pub record FirstAt (conf : Config) (extension : Bytes) (from n i : ℕ) : Type 0 where
  pub from_le : from ≤ i
  pub lt_end : i < from + n
  pub hit : get_or conf.file_extensions i [] ≡ extension
  pub first : (j : ℕ) → from ≤ j → j < i → get_or conf.file_extensions j [] ≢ extension

-- An index from `from` on is `from` itself, which does not match, or lies behind it.
later :
    (conf : Config) (extension : Bytes) (from : ℕ)
    → str_eq (get_or conf.file_extensions from []) extension ≡ false
    → (j : ℕ) → from ≤ j
    → (from + 1 ≤ j → get_or conf.file_extensions j [] ≢ extension)
    → get_or conf.file_extensions j [] ≢ extension
later conf extension from other j lo more same = elim (ℕ_discrete from j) [
  | yes e ↦ ground (arith, str_eq_iff (get_or conf.file_extensions j []) extension)
  | no ne ↦ more (ground arith) same
]

find_type_lem :
    (conf : Config) (extension : Bytes) (n from : ℕ)
    → ((i : ℕ) × FirstAt conf extension from n i
        × (find_type conf n from extension ≡ get_or conf.content_types i []))
      ⊎ (((j : ℕ) → from ≤ j → j < from + n → get_or conf.file_extensions j [] ≢ extension)
          × (find_type conf n from extension ≡ []))
unfolding find_type
find_type_lem conf extension zero from = inr ((λ j lo hi. absurd (omega arith)), refl)
find_type_lem conf extension (suc n) from =
    elim (Bool-cases (str_eq (get_or conf.file_extensions from []) extension)) [
      | inl same ↦ inl (
        from,
        record {
          from_le = omega arith;
          lt_end = omega arith;
          hit = (str_eq_iff _ extension).0 same;
          first = λ j lo hi. absurd (omega arith);
        },
        rw same,
      )
      | inr other ↦ elim (find_type_lem conf extension n (from + 1)) [
        | inl (i, at, found) ↦ inl (
          i,
          record {
            from_le = omega (arith, at.from_le);
            lt_end = omega (arith, at.lt_end);
            hit = at.hit;
            first = λ j lo hi. later conf extension from other j lo (λ up. at.first j up hi);
          },
          rw other found,
        )
        | inr (absent, found) ↦ inr (
          (λ j lo hi. later conf extension from other j lo (λ up. absent j up (omega arith))),
          rw other found,
        )
      ]
    ]

-- What `t` has to be for the extension.
abbrev pub HasType : Config → Bytes → Bytes → Type 0
HasType conf extension t =
    ((i : ℕ) × FirstAt conf extension 0 conf.count_content_types i
      × (extension ≢ [])
      × (t ≡ get_or conf.content_types i []))
    ⊎ ((t ≡ [])
        × ((extension ≡ [])
            ⊎ ((j : ℕ)
                → j < conf.count_content_types
                → get_or conf.file_extensions j [] ≢ extension)))

type_of_extension-HasType :
    (conf : Config) (extension : Bytes) {t : Bytes}
    → type_of_extension conf extension ≡ some t
    → HasType conf extension t
unfolding type_of_extension
type_of_extension-HasType conf [] {t} h = inr (ground arith, inl refl)
type_of_extension-HasType conf (c ∷ s) {t} h =
    let same = (copy-eq-some 64 (find_type conf conf.count_content_types 0 (c ∷ s)) h).0 in
    elim (find_type_lem conf (c ∷ s) conf.count_content_types 0) [
      | inl (i, at, found) ↦ inl (i, at, (λ e. cc), same ∙ found)
      | inr (absent, found) ↦ inr (same ∙ found, inr (λ j hi. absent j (omega arith) (omega arith)))
    ]

-- The type of a name whose extension is not empty is that of the first counted entry with just this
-- extension; without such an entry, or without an extension, the answer is empty.
pub get_content_type-HasType :
    (conf : Config) (f : Bytes) {t : Bytes}
    → get_content_type conf f ≡ some t
    → HasType conf (file_extension f) t
unfolding get_content_type
get_content_type-HasType conf f {t} h =
    let (ext, fits, typed) = >>=-eq-some (copy 64 (file_extension f)) (type_of_extension conf) h in
    subst (λ e. HasType conf e t) (copy-eq-some 64 (file_extension f) fits).0
      (type_of_extension-HasType conf ext typed)
