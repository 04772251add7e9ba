-- ===== src/Dfc/Listing/Bits.antt =====
-- The bits of `count` in the listing of dfc/client.c.
use network_system_hw.Base.{
  ℕ, zero, suc, ◌+◌, ◌*◌, ◌/◌, ◌%◌, ◌≤◌, ◌<◌, ◌≡◌, ◌↔◌, refl, ap, ◌∙◌, Bool, true, false, ◌||◌, ltb,
  ◌==◌, if◌then◌else◌, arith,
}
use network_system_hw.Dfc.Listing.{set_bit}

-- `c >> k & 1`
unfoldable pub bit : ℕ → ℕ → Bool
bit c zero = c % 2 == 1
bit c (suc k) = bit (c / 2) k

pub bit-set_bit : (c b k : ℕ) → bit (set_bit c b) k ≡ (b == k || bit c k)
unfolding bit set_bit
bit-set_bit c zero zero = ground arith
bit-set_bit c zero (suc k) =
    let same : (if c % 2 == 1 then c else c + 1) / 2 ≡ c / 2 = ground arith in
    let apart : false ≡ (0 == suc k) = ground arith in
    ap (λ d. bit d k) same ∙ ap (λ t. t || bit (c / 2) k) apart
bit-set_bit c (suc b) zero =
    let same : (c % 2 + 2 * set_bit (c / 2) b) % 2 ≡ c % 2 = omega arith in
    let apart : false ≡ (suc b == 0) = ground arith in
    ap (λ d. d == 1) same ∙ ap (λ t. t || c % 2 == 1) apart
bit-set_bit c (suc b) (suc k) =
    let same : (c % 2 + 2 * set_bit (c / 2) b) / 2 ≡ set_bit (c / 2) b = omega arith in
    let next : (b == k) ≡ (suc b == suc k) = ground arith in
    ap (λ d. bit d k) same ∙ bit-set_bit (c / 2) b k ∙ ap (λ t. t || bit (c / 2) k) next

pub bit-zero : (k : ℕ) → bit 0 k ≡ false
unfolding bit
bit-zero zero = refl
bit-zero (suc k) = bit-zero k

no_bits : (fuel c : ℕ) → c ≤ fuel → ((k : ℕ) → bit c k ≡ false) → c ≡ 0
unfolding bit
no_bits zero c h none_set = omega arith
no_bits (suc fuel) c h none_set =
    let even : (c % 2 == 1) ≡ false = none_set 0 in
    let odd : c % 2 < 1 = ground arith in
    let half : c / 2 ≤ fuel = omega arith in
    omega (arith, no_bits fuel (c / 2) half (λ k. none_set (suc k)))

bit-fifteen : (k : ℕ) → bit 15 k ≡ ltb k 4
unfolding bit
bit-fifteen zero = refl
bit-fifteen (suc zero) = refl
bit-fifteen (suc (suc zero)) = refl
bit-fifteen (suc (suc (suc zero))) = refl
bit-fifteen (suc (suc (suc (suc k)))) = bit-zero k ∙ above
  where
    above : false ≡ ltb (suc (suc (suc (suc k)))) 4
    above = ground arith

is_odd : (c : ℕ) → bit c 0 ≡ true → c % 2 ≡ 1
unfolding bit
is_odd c h = ground arith

-- A count is 15 just if its bits are the bits 0 to 3.
pub fifteen_iff : (c : ℕ) → (c ≡ 15) ↔ ((k : ℕ) → bit c k ≡ ltb k 4)
unfolding bit
fifteen_iff c = (
  λ e k. ap (λ d. bit d k) e ∙ bit-fifteen k,
  λ bits.
      let a = is_odd c (bits 0) in
      let b = is_odd (c / 2) (bits 1) in
      let d = is_odd (c / 2 / 2) (bits 2) in
      let e = is_odd (c / 2 / 2 / 2) (bits 3) in
      let rest =
        no_bits c (c / 2 / 2 / 2 / 2) (omega arith)
          (λ k. bits (suc (suc (suc (suc k)))) ∙ above k) in
      omega (arith, a, b, d, e, rest),
)
  where
    above : (k : ℕ) → ltb (suc (suc (suc (suc k)))) 4 ≡ false
    above k = ground arith
