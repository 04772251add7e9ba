-- ===== src/Dfc/Listing/Complete.antt =====
-- Which files the listing of dfc/client.c shows as complete.
use network_system_hw.Base.{
  ℕ, ◌≡◌, ◌↔◌, refl, sym, ap, subst, ◌∙◌, Bool, true, false, true≢false, ◌||◌, Bool-cases, inl, inr,
  List, [], ◌∷◌, some, some-injective, >>=-eq-some, if◌then◌else◌, ltb, All, Bytes, str_eq,
  str_eq_iff, str_eq_refl,
}
use network_system_hw.Dfc.Listing.{Row, count_part, part_of, count_parts}
use network_system_hw.Dfc.Listing.Counts.{is_listed, count_of, count_of-count_parts}
use network_system_hw.Dfc.Listing.Bits.{bit, bit-zero, fifteen_iff}

-- No two rows have the same name.
abbrev Fresh : Bytes → List Row → Type 0
Fresh name rows = All (λ (r : Row). str_eq r.name name ≡ false) rows

abbrev Distinct : List Row → Type 0
Distinct [] = Unit
Distinct (r ∷ rows) = Fresh r.name rows × Distinct rows

str_eq-swap : (a b : Bytes) → str_eq a b ≡ false → str_eq b a ≡ false
str_eq-swap a b h = elim (Bool-cases (str_eq b a)) [
  | inl same ↦ absurd (true≢false (sym ((str_eq_iff a b).1 (sym ((str_eq_iff b a).0 same))) ∙ h))
  | inr apart ↦ apart
]

count_part-Fresh :
    (n : Bytes) (b : ℕ) (name : Bytes) (rows : List Row)
    → str_eq n name ≡ false
    → Fresh name rows
    → Fresh name (count_part n b rows)
count_part-Fresh n b name [] h fresh = (h, tt)
count_part-Fresh n b name (r ∷ rows) h (apart, fresh) = elim (Bool-cases (str_eq r.name n)) [
  | inl same ↦ rw same (apart, fresh)
  | inr other ↦ rw other (apart, count_part-Fresh n b name rows h fresh)
]

count_part-Distinct :
    (n : Bytes) (b : ℕ) (rows : List Row) → Distinct rows → Distinct (count_part n b rows)
count_part-Distinct n b [] distinct = (tt, tt)
count_part-Distinct n b (r ∷ rows) (fresh, distinct) = elim (Bool-cases (str_eq r.name n)) [
  | inl same ↦ rw same (fresh, distinct)
  | inr other ↦ rw other (
    count_part-Fresh n b r.name rows (str_eq-swap r.name n other) fresh,
    count_part-Distinct n b rows distinct,
  )
]

count_parts-Distinct :
    (ps : List Bytes) (rows : List Row) {final : List Row}
    → count_parts rows ps ≡ some final
    → Distinct rows
    → Distinct final
unfolding count_parts
count_parts-Distinct [] rows e distinct = subst Distinct (some-injective _ _ e) distinct
count_parts-Distinct (p ∷ ps) rows e distinct =
    let ((n, b), is_p, rest) = >>=-eq-some (part_of p) _ e in
    count_parts-Distinct ps (count_part n b rows) rest (count_part-Distinct n b rows distinct)

-- A row of the table
pub data IsRow (r : Row) : List Row → Type 0 where
  here : {rows : List Row} → IsRow r (r ∷ rows)
  later : {s : Row} {rows : List Row} → IsRow r rows → IsRow r (s ∷ rows)

Fresh-IsRow :
    (name : Bytes) (r : Row) (rows : List Row)
    → Fresh name rows
    → IsRow r rows
    → str_eq r.name name ≡ false
Fresh-IsRow name r (s ∷ rows) (apart, fresh) here = apart
Fresh-IsRow name r (s ∷ rows) (apart, fresh) (later i) = Fresh-IsRow name r rows fresh i
Fresh-IsRow name r [] fresh i = elim i [ ]

count_of-IsRow :
    (rows : List Row) (r : Row) → Distinct rows → IsRow r rows → count_of rows r.name ≡ r.count
count_of-IsRow (s ∷ rows) r distinct here = rw (str_eq_refl r.name) refl
count_of-IsRow (s ∷ rows) r (fresh, distinct) (later i) =
    rw (str_eq-swap r.name s.name (Fresh-IsRow s.name r rows fresh i))
      (count_of-IsRow rows r distinct i)
count_of-IsRow [] r distinct i = elim i [ ]

bit-IsRow :
    (rows : List Row) (name : Bytes) (k : ℕ)
    → bit (count_of rows name) k ≡ true
    → (r : Row) × IsRow r rows × (r.name ≡ name)
bit-IsRow [] name k e = absurd (true≢false (sym e ∙ bit-zero k))
bit-IsRow (r ∷ rows) name k e = elim (Bool-cases (str_eq r.name name)) [
  | inl same ↦ (r, here, (str_eq_iff r.name name).0 same)
  | inr other ↦
      let (s, i, named) =
        bit-IsRow rows name k
          (sym (ap (λ t. bit (if t then r.count else count_of rows name) k) other) ∙ e) in
      (s, later i, named)
]

or_false : (b : Bool) → (b || false) ≡ b
or_false true = refl
or_false false = refl

-- Where the counting is defined, a file's row gets the count of 15, by which it is shown as
-- complete, just if the parts 0 to 3 of the file and no others are listed, by whatever servers, in
-- whatever order and however often; and a file of which a part is listed has a row.
pub count_parts_complete :
    (ps : List Bytes) (rows : List Row)
    → count_parts [] ps ≡ some rows
    → ((r : Row) → IsRow r rows → (r.count ≡ 15) ↔ ((k : ℕ) → is_listed ps r.name k ≡ ltb k 4))
      × ((name : Bytes) (k : ℕ)
          → is_listed ps name k ≡ true
          → (r : Row) × IsRow r rows × (r.name ≡ name))
count_parts_complete ps rows e = (
  λ r i.
      let same = count_of-IsRow rows r (count_parts-Distinct ps [] e tt) i in
      let bits : (k : ℕ) → bit r.count k ≡ is_listed ps r.name k =
        λ k. sym (ap (λ c. bit c k) same) ∙ seen r.name k in
      (
        λ full k. sym (bits k) ∙ (fifteen_iff r.count).0 full k,
        λ listed. (fifteen_iff r.count).1 (λ k. bits k ∙ listed k),
      ),
  λ name k listed. bit-IsRow rows name k (seen name k ∙ listed),
)
  where
    seen : (name : Bytes) (k : ℕ) → bit (count_of rows name) k ≡ is_listed ps name k
    seen name k =
        count_of-count_parts ps [] name k e
        ∙ ap (λ t. is_listed ps name k || t) (bit-zero k)
        ∙ or_false (is_listed ps name k)
