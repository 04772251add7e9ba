-- ===== src/Base/CString.antt =====
-- Byte strings. A C string is the list of the bytes in front of its NUL.
use Prim.Native.Char.{code}
use Prim.Native.Nat.{ℕ, ◌<◌}
use Prim.Native.String.{String}
use mathlib.Core.Path.{◌≡◌, refl}
use mathlib.Core.Bool.{Bool, true, false, ◌&&◌, ◌||◌}
use mathlib.Core.Logic.{◌↔◌}
use mathlib.Core.List.{List, [], ◌∷◌, ◌++◌}
use mathlib.Core.Option.{Option, none, some}
use native.Mathlib.Omega.{arith}
use network_system_hw.Base.Tests.{◌==◌, ltb, if◌then◌else◌}
use network_system_hw.Base.Lists.{length}

abbrev pub Bytes : Type 0
Bytes = List ℕ

-- The code points of a literal; every literal of this development is ASCII.
abbrev pub codes : String → Bytes
codes String.[] = []
codes (String.◌∷◌ c s) = code c ∷ codes s

-- `strcmp(a, b) == 0`
unfoldable pub str_eq : Bytes → Bytes → Bool
str_eq [] [] = true
str_eq (x ∷ xs) (y ∷ ys) = x == y && str_eq xs ys
str_eq _ _ = false

pub str_eq_iff : (a b : Bytes) → (str_eq a b ≡ true) ↔ (a ≡ b)
unfolding str_eq
str_eq_iff (x ∷ a) (y ∷ b) = ground (arith, str_eq_iff a b)
str_eq_iff _ _ = ground arith

pub str_eq_refl : (a : Bytes) → str_eq a a ≡ true
str_eq_refl a = (str_eq_iff a a).1 refl

-- The C string at the start of a buffer.
unfoldable pub cstr : Bytes → Bytes
cstr [] = []
cstr (c ∷ s) = if c == 0 then [] else c ∷ cstr s

-- `strcpy(d, s)` for an array `d` of `room` bytes: the string and its NUL have to fit.
abbrev pub copy : ℕ → Bytes → Option Bytes
copy room s = if ltb (length s) room then some s else none

abbrev pub has : Bytes → ℕ → Bool
has [] b = false
has (c ∷ s) b = c == b || has s b

-- No byte of the string is `b`.
abbrev pub Lacks : ℕ → Bytes → Type 0
Lacks b s = has s b ≡ false

pub Lacks-append : (b : ℕ) (s t : Bytes) → Lacks b s → Lacks b t → Lacks b (s ++ t)
Lacks-append b [] t h k = k
Lacks-append b (c ∷ s) t h k = ground (arith, Lacks-append b s t)

pub Lacks-cstr : (s : Bytes) → Lacks 0 s → cstr s ≡ s
unfolding cstr
Lacks-cstr [] h = refl
Lacks-cstr (c ∷ s) h = ground (arith, Lacks-cstr s)

pub copy-eq-some :
    (room : ℕ) (s : Bytes) {t : Bytes} → copy room s ≡ some t → (t ≡ s) × (length s < room)
copy-eq-some room s h = ground arith

-- What stands in front of and behind the last `b`, as `strrchr` finds it.
abbrev pub keep_last : ℕ → ℕ → Bytes → Option (Bytes × Bytes) → Option (Bytes × Bytes)
keep_last b c s (some (front, back)) = some (c ∷ front, back)
keep_last b c s none = if c == b then some ([], s) else none

unfoldable pub split_last : ℕ → Bytes → Option (Bytes × Bytes)
split_last b [] = none
split_last b (c ∷ s) = keep_last b c s (split_last b s)
