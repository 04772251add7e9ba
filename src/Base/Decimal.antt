-- ===== src/Base/Decimal.antt =====
-- Decimal numerals, as `%d` and `%ld` print them and `atoi` reads them.
use Prim.Native.Nat.{ℕ, zero, suc, ◌+◌, ◌-◌, ◌*◌, ◌/◌, ◌%◌, ◌<◌}
use mathlib.Core.Path.{◌≡◌, ◌∙◌}
use mathlib.Core.Logic.{inl, inr}
use mathlib.Core.Bool.{◌&&◌}
use mathlib.Core.List.{[], ◌∷◌}
use native.Mathlib.Omega.{arith}
use network_system_hw.Base.Tests.{ltb, leb, if◌then◌else◌, Bool-cases}
use network_system_hw.Base.CString.{Bytes}

-- One digit for each unit of fuel at most; `n + 1` units are enough for `n`.
unfoldable pub digits_from : ℕ → ℕ → Bytes → Bytes
digits_from zero n out = out
digits_from (suc fuel) n out =
    let rest = digits_from fuel (n / 10) ((b'0' + n % 10) ∷ out) in
    if ltb n 10 then (b'0' + n) ∷ out else rest

unfoldable pub decimal : ℕ → Bytes
unfolding digits_from
decimal n = digits_from (n + 1) n []

-- The digits at the front, read behind `n`.
unfoldable pub digits_value : ℕ → Bytes → ℕ
digits_value n [] = n
digits_value n (c ∷ s) =
    if leb b'0' c && leb c b'9' then digits_value (n * 10 + (c - b'0')) s else n

digits_value-digit :
    (n d : ℕ) (s : Bytes) → d < 10 → digits_value n ((b'0' + d) ∷ s) ≡ digits_value (n * 10 + d) s
unfolding digits_value
digits_value-digit n d s h = ground arith

pub digits_value-digits_from :
    (fuel n : ℕ) (out : Bytes)
    → n < fuel
    → digits_value 0 (digits_from fuel n out) ≡ digits_value n out
unfolding digits_from
digits_value-digits_from zero n out h = absurd (omega arith)
digits_value-digits_from (suc fuel) n out h = elim (Bool-cases (ltb n 10)) [
  | inl e ↦ rw e (
      digits_value-digit 0 n out (ground arith)
      ∙ (let same : 0 * 10 + n ≡ n = omega arith in rw same))
  | inr e ↦ rw e (
      digits_value-digits_from fuel (n / 10) _ (ground arith)
      ∙ digits_value-digit (n / 10) (n % 10) out (omega arith)
      ∙ (let same : n / 10 * 10 + n % 10 ≡ n = omega arith in rw same))
]
