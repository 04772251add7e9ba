-- ===== src/Dfc/Placement/Rotation.antt =====
-- The arithmetic of the two parts of a server: a server's first part is the second part of the
-- server before it, and no two servers have one second part.
use native.Mathlib.Nat.{mod-eq_of_lt, mod-eq-sub-mod, mod_self, add-mod_right}
use network_system_hw.Base.{
  ℕ, ◌+◌, ◌-◌, ◌%◌, ◌≤◌, ◌<◌, ◌≡◌, ◌∙◌, ap, ◌⊎◌, inl, inr, if◌then◌else◌, ◌==◌, arith, ltb,
  Bool-cases, ltb→lt, ltb-false→le,
}
use network_system_hw.Dfc.Placement.{first_part, second_part}

-- The server before, in the circle of `nh` servers.
abbrev pub prev : ℕ → ℕ → ℕ
prev nh i = if i == 0 then nh - 1 else i - 1

mod_once : (x n : ℕ) → n ≤ x → x < n + n → x % n ≡ x - n
mod_once x n lo hi = mod-eq-sub-mod lo ∙ mod-eq_of_lt (omega arith)

-- The remainder of a number that is at most twice the divisor.
mod-cases :
    (x n : ℕ)
    → 0 < n
    → x ≤ n + n
    → (x % n < n) × ((x % n ≡ x) ⊎ (x % n + n ≡ x) ⊎ (x % n + n + n ≡ x))
mod-cases x n pos le = elim (Bool-cases (ltb x n)) [
  | inl low ↦
      let e : x % n ≡ x = mod-eq_of_lt (ltb→lt x n low) in (omega (arith, e, ltb→lt x n low), inl e)
  | inr high ↦ elim (Bool-cases (ltb x (n + n))) [
    | inl low ↦
        let lo = ltb-false→le x n high in
        let e = mod_once x n lo (ltb→lt x (n + n) low) in
        (omega (arith, e, ltb→lt x (n + n) low), inr (inl (omega (arith, e))))
    | inr twice ↦
        let e : x ≡ n + n = omega (arith, ltb-false→le x (n + n) twice) in
        let z : x % n ≡ 0 = ap (λ y. y % n) e ∙ add-mod_right n n ∙ mod_self n in
        (omega (arith, z), inr (inr (omega (arith, z, e))))
  ]
]

module _ (nh h : ℕ) (small : h < nh) where
  pub first-cases :
      (i : ℕ)
      → i < nh
      → (first_part nh h i < nh) × ((first_part nh h i + h ≡ i) ⊎ (first_part nh h i + h ≡ i + nh))
  first-cases i l = ground (arith, mod-cases (i + nh - h) nh)

  pub second-cases :
      (i : ℕ)
      → i < nh
      → (second_part nh h i < nh)
        × ((second_part nh h i + h ≡ i + 1)
            ⊎ (second_part nh h i + h ≡ i + 1 + nh)
            ⊎ (second_part nh h i + h + nh ≡ i + 1))
  second-cases i l = ground (arith, mod-cases (i + 1 + nh - h) nh)

  pub first_part-prev : (i : ℕ) → i < nh → first_part nh h i ≡ second_part nh h (prev nh i)
  first_part-prev i l = ground (arith, first-cases i l, second-cases (prev nh i))

  pub second_part-injective :
      (i j : ℕ) → i < nh → j < nh → second_part nh h i ≡ second_part nh h j → i ≡ j
  second_part-injective i j li lj e = ground (arith, second-cases i li, second-cases j lj)

pub prev-lt : (nh i : ℕ) → i < nh → prev nh i < nh
prev-lt nh i l = ground arith

pub prev-injective : (nh i j : ℕ) → i < nh → j < nh → prev nh i ≡ prev nh j → i ≡ j
prev-injective nh i j li lj e = ground arith
