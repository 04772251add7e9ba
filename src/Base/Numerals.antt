-- ===== src/Base/Numerals.antt =====
-- `atoi`, and that it reads back what `%d` prints.
use Prim.Native.Nat.{ℕ, zero, suc, ◌+◌, ◌-◌, ◌/◌, ◌%◌, ◌^◌, ◌<◌, ◌≤◌, min}
use mathlib.Core.Path.{◌≡◌, refl, sym, ap, ◌∙◌}
use mathlib.Core.Logic.{inl, inr}
use mathlib.Core.Bool.{Bool, true, false, ◌&&◌, ◌||◌}
use mathlib.Core.List.{[], ◌∷◌, ◌++◌, append-nil}
use native.Mathlib.Omega.{arith}
use network_system_hw.Base.Tests.{ltb, leb, ◌==◌, if◌then◌else◌, Bool-cases, lt→ltb}
use network_system_hw.Base.CString.{Bytes, Lacks}
use network_system_hw.Base.Decimal.{digits_from, decimal, digits_value, digits_value-digits_from}

-- The number that `atoi` reads, before it becomes an `int`: white space, a sign, digits. The Boolean
-- tells whether the number is negative.
unfoldable pub atoi : Bytes → Bool × ℕ
atoi [] = (false, 0)
atoi (c ∷ s) =
    let rest = atoi s in
    if c == b' ' || (leb 9 c && leb c 13)
    then rest
    else if c == b'-'
    then (true, digits_value 0 s)
    else if c == b'+'
    then (false, digits_value 0 s)
    else (false, digits_value 0 (c ∷ s))

-- The `int` in the low 32 bits of a word in two's complement: whether it is negative, and its size.
unfoldable pub signed : ℕ → Bool × ℕ
signed w = let v = w % 2 ^ 32 in if ltb v (2 ^ 31) then (false, v) else (true, 2 ^ 32 - v)

abbrev printed : Bool × ℕ → Bytes
printed (false, n) = decimal n
printed (true, n) = b'-' ∷ decimal n

-- `%d` of the low 32 bits
unfoldable pub print_int : ℕ → Bytes
unfolding signed decimal
print_int w = printed (signed w)

-- `(int) strtol(...)`: a `long` of 64 bits is as large as it can be, then its low 32 bits are taken.
unfoldable pub to_int : Bool × ℕ → Bool × ℕ
unfolding signed
to_int (false, n) = signed (min n (2 ^ 63 - 1))
to_int (true, n) = signed (2 ^ 64 - min n (2 ^ 63))

pub signed_small : (n : ℕ) → n < 2 ^ 31 → signed n ≡ (false, n)
unfolding signed
signed_small n small =
    let low : n % 2 ^ 32 ≡ n = omega arith in rw low (rw (lt→ltb n (2 ^ 31) small) refl)

pub print_int_small : (n : ℕ) → n < 2 ^ 31 → print_int n ≡ decimal n
unfolding print_int
print_int_small n small = ap printed (signed_small n small)

pub to_int_small : (n : ℕ) → n < 2 ^ 31 → to_int (false, n) ≡ (false, n)
unfolding to_int
to_int_small n small =
    let fits : min n (2 ^ 63 - 1) ≡ n = omega arith in ap signed fits ∙ signed_small n small

-- What `digits_from` writes: digits in front of `out`.
record Digits (out s : Bytes) : Type 0 where
  clean : (b : ℕ) → b < b'0' → Lacks b out → Lacks b s
  head : ℕ
  tail : Bytes
  starts : s ≡ head ∷ tail
  low : b'0' ≤ head
  high : head ≤ b'9'

Lacks-digit : (b d : ℕ) (out : Bytes) → b < b'0' → Lacks b out → Lacks b ((b'0' + d) ∷ out)
Lacks-digit b d out low h = ground arith

digits_from-Digits : (fuel n : ℕ) (out : Bytes) → n < fuel → Digits out (digits_from fuel n out)
unfolding digits_from
digits_from-Digits zero n out h = absurd (omega arith)
digits_from-Digits (suc fuel) n out h = elim (Bool-cases (ltb n 10)) [
  | inl e ↦ rw e (record {
    clean = λ b low l. Lacks-digit b n out low l;
    head = b'0' + n;
    tail = out;
    starts = refl;
    low = omega arith;
    high = ground arith;
  })
  | inr e ↦
      let more = digits_from-Digits fuel (n / 10) ((b'0' + n % 10) ∷ out) (ground arith) in
      rw e (record {
        clean = λ b low l. more.clean b low (Lacks-digit b (n % 10) out low l);
        head = more.head;
        tail = more.tail;
        starts = more.starts;
        low = more.low;
        high = more.high;
      })
]

atoi-digit :
    (c : ℕ) (s : Bytes) → b'0' ≤ c → c ≤ b'9' → atoi (c ∷ s) ≡ (false, digits_value 0 (c ∷ s))
unfolding atoi
atoi-digit c s low high = ground arith

digits_from-append :
    (fuel n : ℕ) (out t : Bytes) → digits_from fuel n out ++ t ≡ digits_from fuel n (out ++ t)
unfolding digits_from
digits_from-append zero n out t = refl
digits_from-append (suc fuel) n out t = elim (Bool-cases (ltb n 10)) [
  | inl e ↦ rw e refl
  | inr e ↦ rw e (digits_from-append fuel (n / 10) ((b'0' + n % 10) ∷ out) t)
]

-- A printed number is read back in front of a text that does not go on with a digit.
pub atoi-decimal_append :
    (n : ℕ) (t : Bytes) → digits_value n t ≡ n → atoi (decimal n ++ t) ≡ (false, n)
unfolding decimal
atoi-decimal_append n t stops =
    let d = digits_from-Digits (n + 1) n t (omega arith) in
    ap atoi (digits_from-append (n + 1) n [] t ∙ d.starts)
    ∙ atoi-digit d.head d.tail d.low d.high
    ∙ ap (λ s. (false, digits_value 0 s)) (sym d.starts)
    ∙ ap (λ m. (false, m)) (digits_value-digits_from (n + 1) n t (omega arith) ∙ stops)

pub atoi-decimal : (n : ℕ) → atoi (decimal n) ≡ (false, n)
unfolding digits_value
atoi-decimal n = ap atoi (sym (append-nil (decimal n))) ∙ atoi-decimal_append n [] refl

-- A printed number has no byte below its digits.
pub Lacks-decimal : (b n : ℕ) → b < b'0' → Lacks b (decimal n)
unfolding decimal
Lacks-decimal b n low = (digits_from-Digits (n + 1) n [] (omega arith)).clean b low refl
