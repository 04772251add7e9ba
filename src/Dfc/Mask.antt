-- ===== src/Dfc/Mask.antt =====
-- The masking of file data by the user's key in `send_file` and `receive_file` of dfc/trans.c.
use network_system_hw.Base.{
  ℕ, zero, suc, ◌+◌, ◌*◌, ◌/◌, ◌%◌, ◌^◌, ◌<◌, ◌≡◌, refl, ap, ap₂, ◌∙◌, false, not, ◌&&◌, [], ◌∷◌,
  Option, none, some, if◌then◌else◌, ◌==◌, arith, length, get_or, All, Bytes,
}

-- `a ^ b` on the `bits` lowest bits.
abbrev pub xor : ℕ → ℕ → ℕ → ℕ
xor zero a b = 0
xor (suc bits) a b = (a + b) % 2 + 2 * xor bits (a / 2) (b / 2)

-- `for (i = 0; ...) data[i] = data[i] ^ key[i % l];`
abbrev pub xor_from : Bytes → ℕ → Bytes → Bytes
xor_from key i [] = []
xor_from key i (c ∷ s) = xor 8 c (get_or key (i % length key) 0) ∷ xor_from key (suc i) s

-- Without a key the data stay as they are. An empty key divides by zero, unless there are no data.
unfoldable pub mask : Option Bytes → Bytes → Option Bytes
mask none s = some s
mask (some key) s = if length key == 0 && not (length s == 0) then none else some (xor_from key 0 s)

abbrev pub IsByte : ℕ → Type 0
IsByte c = c < 256

xor-xor : (bits a b : ℕ) → a < 2 ^ bits → xor bits (xor bits a b) b ≡ a
xor-xor zero a b h = omega arith
xor-xor (suc bits) a b h =
    let r = xor bits (a / 2) (b / 2) in
    let half : ((a + b) % 2 + 2 * r) / 2 ≡ r = omega arith in
    let low : a / 2 < 2 ^ bits = omega arith in
    let back = ap (λ x. xor bits x (b / 2)) half ∙ xor-xor bits (a / 2) (b / 2) low in
    omega (arith, back)

xor_from-xor_from :
    (key : Bytes) (i : ℕ) (s : Bytes) → All IsByte s → xor_from key i (xor_from key i s) ≡ s
xor_from-xor_from key i [] h = refl
xor_from-xor_from key i (c ∷ s) (b, h) =
    ap₂ (◌∷◌) (xor-xor 8 c (get_or key (i % length key) 0) b) (xor_from-xor_from key (suc i) s h)

pub length-xor_from : (key : Bytes) (i : ℕ) (s : Bytes) → length (xor_from key i s) ≡ length s
length-xor_from key i [] = refl
length-xor_from key i (c ∷ s) = ap suc (length-xor_from key (suc i) s)

-- A key that `send_file` and `receive_file` can use.
abbrev pub IsKey : Option Bytes → Type 0
IsKey none = Unit
IsKey (some key) = 0 < length key

-- The data behind the masking by a key that can be used.
abbrev pub masking : Option Bytes → Bytes → Bytes
masking none s = s
masking (some key) s = xor_from key 0 s

pub mask-masking : (key : Option Bytes) (s : Bytes) → IsKey key → mask key s ≡ some (masking key s)
unfolding mask
mask-masking none s k = refl
mask-masking (some key) s k =
    let usable : (length key == 0) ≡ false = ground arith in rw usable refl

pub length-masking : (key : Option Bytes) (s : Bytes) → length (masking key s) ≡ length s
length-masking none s = refl
length-masking (some key) s = length-xor_from key 0 s

pub masking-masking :
    (key : Option Bytes) (s : Bytes) → All IsByte s → masking key (masking key s) ≡ s
masking-masking none s h = refl
masking-masking (some key) s h = xor_from-xor_from key 0 s h

xor-lt : (bits a b : ℕ) → xor bits a b < 2 ^ bits
xor-lt zero a b = omega arith
xor-lt (suc bits) a b = omega (arith, xor-lt bits (a / 2) (b / 2))

xor_from-IsByte : (key : Bytes) (i : ℕ) (s : Bytes) → All IsByte (xor_from key i s)
xor_from-IsByte key i [] = tt
xor_from-IsByte key i (c ∷ s) =
    (xor-lt 8 c (get_or key (i % length key) 0), xor_from-IsByte key (suc i) s)

pub masking-IsByte : (key : Option Bytes) (s : Bytes) → All IsByte s → All IsByte (masking key s)
masking-IsByte none s h = h
masking-IsByte (some key) s h = xor_from-IsByte key 0 s
