-- ===== src/Dfc/Listing/Counts.antt =====
-- The counts of the listing of dfc/client.c, bit by bit.
use network_system_hw.Base.{
  ℕ, ◌≡◌, refl, sym, ap, ◌∙◌, Bool, true, false, true≢false, ◌&&◌, ◌||◌, Bool-cases, inl, inr, List,
  [], ◌∷◌, Option, none, some, some-injective, >>=-eq-some, if◌then◌else◌, ◌==◌, Bytes, str_eq,
  str_eq_iff,
}
use network_system_hw.Dfc.Listing.{set_bit, Row, count_part, part_of, count_parts}
use network_system_hw.Dfc.Listing.Bits.{bit, bit-set_bit}

-- Whether a name that the servers list is that of part `k` of the file.
abbrev pub is_part : Bytes → ℕ → Option (Bytes × ℕ) → Bool
is_part name k none = false
is_part name k (some (n, b)) = str_eq n name && b == k

-- Whether the servers list part `k` of the file.
unfoldable pub is_listed : List Bytes → Bytes → ℕ → Bool
is_listed [] name k = false
is_listed (p ∷ ps) name k = is_part name k (part_of p) || is_listed ps name k

-- The count of the name
abbrev pub count_of : List Row → Bytes → ℕ
count_of [] name = 0
count_of (r ∷ rows) name = if str_eq r.name name then r.count else count_of rows name

counted :
    (n name : Bytes) (b k c : ℕ) (t : Bool)
    → str_eq n name ≡ t
    → bit (if t then set_bit c b else c) k ≡ (str_eq n name && b == k || bit c k)
counted n name b k c true e = rw e (bit-set_bit c b k)
counted n name b k c false e = rw e refl

count_of-count_part :
    (n : Bytes) (b : ℕ) (rows : List Row) (name : Bytes) (k : ℕ)
    → bit (count_of (count_part n b rows) name) k
      ≡ (str_eq n name && b == k || bit (count_of rows name) k)
count_of-count_part n b [] name k = elim (Bool-cases (str_eq n name)) [
  | inl same ↦ rw same (bit-set_bit 0 b k)
  | inr apart ↦ rw apart refl
]
count_of-count_part n b (r ∷ rows) name k = elim (Bool-cases (str_eq r.name n)) [
  | inl same ↦
      let e = (str_eq_iff r.name n).0 same in
      elim (Bool-cases (str_eq r.name name)) [
        | inl found ↦
            let there : str_eq n name ≡ true = sym (ap (λ m. str_eq m name) e) ∙ found in
            rw (same, found, there) (bit-set_bit r.count b k)
        | inr other ↦
            let away : str_eq n name ≡ false = sym (ap (λ m. str_eq m name) e) ∙ other in
            rw (same, other, away) refl
      ]
  | inr apart ↦ elim (Bool-cases (str_eq r.name name)) [
    | inl found ↦
        let away : str_eq n name ≡ false = different apart ((str_eq_iff r.name name).0 found) in
        rw (apart, found, away) refl
    | inr other ↦ rw (apart, other) (count_of-count_part n b rows name k)
  ]
]
  where
    different : str_eq r.name n ≡ false → r.name ≡ name → str_eq n name ≡ false
    different apart e = elim (Bool-cases (str_eq n name)) [
      | inl same ↦ absurd (
          true≢false (sym ((str_eq_iff r.name n).1 (e ∙ sym ((str_eq_iff n name).0 same))) ∙ apart))
      | inr away ↦ away
    ]

or_swap : (a b c : Bool) → (a || (b || c)) ≡ (b || a || c)
or_swap true true c = refl
or_swap true false c = refl
or_swap false true c = refl
or_swap false false c = refl

-- The bits of a count are the parts that are listed.
pub count_of-count_parts :
    (ps : List Bytes) (rows : List Row) (name : Bytes) (k : ℕ) {final : List Row}
    → count_parts rows ps ≡ some final
    → bit (count_of final name) k ≡ (is_listed ps name k || bit (count_of rows name) k)
unfolding count_parts is_listed
count_of-count_parts [] rows name k e =
    ap (λ rs. bit (count_of rs name) k) (sym (some-injective _ _ e))
count_of-count_parts (p ∷ ps) rows name k e =
    let ((n, b), is_p, rest) = >>=-eq-some (part_of p) _ e in
    count_of-count_parts ps (count_part n b rows) name k rest
    ∙ ap (λ t. is_listed ps name k || t) (count_of-count_part n b rows name k)
    ∙ or_swap (is_listed ps name k) (str_eq n name && b == k) (bit (count_of rows name) k)
    ∙ rw is_p refl
