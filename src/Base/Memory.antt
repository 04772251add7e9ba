-- ===== src/Base/Memory.antt =====
-- Numbers laid out in bytes, parts of a byte array, and files that are written at a position.
use Prim.Native.Nat.{ℕ, zero, suc, ◌+◌, ◌-◌, ◌*◌, ◌/◌, ◌%◌, ◌^◌, ◌<◌, max}
use mathlib.Core.Path.{◌≡◌, refl, sym, ap, ap₂, ◌∙◌}
use mathlib.Core.Bool.{Bool, ◌&&◌}
use mathlib.Core.List.{[], ◌∷◌, ◌++◌, append-nil}
use native.Mathlib.Omega.{arith}
use network_system_hw.Base.Tests.{ltb, leb, ◌==◌, if◌then◌else◌}
use network_system_hw.Base.Lists.{length, get_or, take, drop, replicate, length-replicate}
unfoldable use network_system_hw.Base.CString.{Bytes, Lacks, cstr}

-- Shut, so that no long run of zeros is ever written out.
unfoldable pub zeros : ℕ → Bytes
zeros n = replicate n 0

pub length-zeros : (n : ℕ) → length (zeros n) ≡ n
unfolding zeros
length-zeros n = length-replicate n 0

-- Little-endian, as the program's machines lay their integers out.
abbrev pub le16 : ℕ → Bytes
le16 n = (n % 256) ∷ (n / 256 % 256) ∷ []

abbrev pub le32 : ℕ → Bytes
le32 n = (n % 256) ∷ (n / 256 % 256) ∷ (n / 65536 % 256) ∷ (n / 16777216 % 256) ∷ []

abbrev pub byte_at : ℕ → Bytes → ℕ
byte_at i m = get_or m i 0

abbrev pub read16 : ℕ → Bytes → ℕ
read16 i m = byte_at i m + 256 * byte_at (suc i) m

abbrev pub read32 : ℕ → Bytes → ℕ
read32 i m = read16 i m + 65536 * read16 (suc (suc i)) m

abbrev pub slice : ℕ → ℕ → Bytes → Bytes
slice at n m = take n (drop at m)

-- `fwrite` at the start of what is left of a file.
abbrev over : Bytes → Bytes → Bytes
over [] m = m
over (x ∷ d) [] = x ∷ over d []
over (x ∷ d) (y ∷ m) = x ∷ over d m

abbrev over_at : ℕ → Bytes → Bytes → Bytes
over_at zero d m = over d m
over_at (suc i) d [] = 0 ∷ over_at i d []
over_at (suc i) d (y ∷ m) = y ∷ over_at i d m

-- `fwrite` at position `i`: a gap in front of it is filled with zeros, and writing nothing leaves
-- the file as it is.
unfoldable pub write_at : ℕ → Bytes → Bytes → Bytes
write_at i [] m = m
write_at i (x ∷ d) m = over_at i (x ∷ d) m

-- Whether `j` is one of the `n` positions from `i` on.
abbrev pub within : ℕ → ℕ → ℕ → Bool
within i n j = leb i j && ltb j (i + n)

over-get :
    (d m : Bytes) (j : ℕ)
    → byte_at j (over d m) ≡ (if ltb j (length d) then byte_at j d else byte_at j m)
over-get [] m j = ground arith
over-get (x ∷ d) [] zero = ground arith
over-get (x ∷ d) [] (suc j) = ground (arith, over-get d [] j)
over-get (x ∷ d) (y ∷ m) zero = ground arith
over-get (x ∷ d) (y ∷ m) (suc j) = ground (arith, over-get d m j)

over_at-get :
    (i : ℕ) (d m : Bytes) (j : ℕ)
    → byte_at j (over_at i d m) ≡ (if within i (length d) j then byte_at (j - i) d else byte_at j m)
over_at-get zero d m j = ground (arith, over-get d m j)
over_at-get (suc i) d [] zero = ground arith
over_at-get (suc i) d [] (suc j) = ground (arith, over_at-get i d [] j)
over_at-get (suc i) d (y ∷ m) zero = ground arith
over_at-get (suc i) d (y ∷ m) (suc j) = ground (arith, over_at-get i d m j)

pub write_at-get :
    (i : ℕ) (d m : Bytes) (j : ℕ)
    → byte_at j (write_at i d m)
      ≡ (if within i (length d) j then byte_at (j - i) d else byte_at j m)
unfolding write_at
write_at-get i [] m j = ground arith
write_at-get i (x ∷ d) m j = over_at-get i (x ∷ d) m j

over-length : (d m : Bytes) → length (over d m) ≡ max (length d) (length m)
over-length [] m = omega arith
over-length (x ∷ d) [] = omega (arith, over-length d [])
over-length (x ∷ d) (y ∷ m) = omega (arith, over-length d m)

over_at-length :
    (i : ℕ) (d m : Bytes) → 0 < length d → length (over_at i d m) ≡ max (i + length d) (length m)
over_at-length zero d m h = omega (arith, over-length d m)
over_at-length (suc i) d [] h = omega (arith, over_at-length i d [] h)
over_at-length (suc i) d (y ∷ m) h = omega (arith, over_at-length i d m h)

pub write_at-length :
    (i : ℕ) (d m : Bytes)
    → length (write_at i d m) ≡ (if length d == 0 then length m else max (i + length d) (length m))
unfolding write_at
write_at-length i [] m = refl
write_at-length i (x ∷ d) m = ground (arith, over_at-length i (x ∷ d) m)

-- Two arrays of one length with the same bytes.
pub bytes_ext :
    (a b : Bytes)
    → length a ≡ length b
    → ((j : ℕ) → j < length a → byte_at j a ≡ byte_at j b)
    → a ≡ b
bytes_ext [] [] h e = refl
bytes_ext [] (y ∷ b) h e = absurd (omega arith)
bytes_ext (x ∷ a) [] h e = absurd (omega arith)
bytes_ext (x ∷ a) (y ∷ b) h e =
    ap₂ (◌∷◌) (e 0 (omega arith)) (bytes_ext a b (omega arith) (λ j l. e (suc j) (omega arith)))

pub byte_at-take : (n j : ℕ) (m : Bytes) → j < n → byte_at j (take n m) ≡ byte_at j m
byte_at-take zero j m h = absurd (omega arith)
byte_at-take (suc n) j [] h = refl
byte_at-take (suc n) zero (x ∷ m) h = refl
byte_at-take (suc n) (suc j) (x ∷ m) h = byte_at-take n j m (omega arith)

pub byte_at-drop : (n j : ℕ) (m : Bytes) → byte_at j (drop n m) ≡ byte_at (n + j) m
byte_at-drop zero j m = ap (λ k. byte_at k m) (omega arith)
byte_at-drop (suc n) j [] = ground arith
byte_at-drop (suc n) j (x ∷ m) = ground (arith, byte_at-drop n j m)

pub read16-le16 : (n : ℕ) → n < 2 ^ 16 → read16 0 (le16 n) ≡ n
read16-le16 n h = omega arith

pub read32-le32 : (n : ℕ) → n < 2 ^ 32 → read32 0 (le32 n) ≡ n
read32-le32 n h = omega arith

-- A text in front of anything is read back by its length.
pub take-append : (s t : Bytes) → take (length s) (s ++ t) ≡ s
take-append [] t = refl
take-append (x ∷ s) t = ap (◌∷◌ x) (take-append s t)

over-nil : (d : Bytes) → over d [] ≡ d
over-nil [] = refl
over-nil (x ∷ d) = ap (◌∷◌ x) (over-nil d)

over_at-end : (d m : Bytes) → over_at (length m) d m ≡ m ++ d
over_at-end d [] = over-nil d
over_at-end d (y ∷ m) = ap (◌∷◌ y) (over_at-end d m)

-- Writing at the end of a file.
pub write_at-end : (d m : Bytes) → write_at (length m) d m ≡ m ++ d
unfolding write_at
write_at-end [] m = sym (append-nil m)
write_at-end (x ∷ d) m = over_at-end (x ∷ d) m

pub drop-append : (s t : Bytes) → drop (length s) (s ++ t) ≡ t
drop-append [] t = refl
drop-append (x ∷ s) t = drop-append s t

pub byte_at-append : (s t : Bytes) (j : ℕ) → byte_at (length s + j) (s ++ t) ≡ byte_at j t
byte_at-append [] t j = ap (λ k. byte_at k t) (omega arith)
byte_at-append (x ∷ s) t j =
    let e : suc (length s) + j ≡ suc (length s + j) = omega arith in
    ap (λ k. byte_at k (x ∷ (s ++ t))) e ∙ byte_at-append s t j

pub zeros-suc : (n : ℕ) → 0 < n → zeros n ≡ 0 ∷ zeros (n - 1)
unfolding zeros
zeros-suc zero h = absurd (omega arith)
zeros-suc (suc n) h = let e : n ≡ suc n - 1 = omega arith in ap (λ k. 0 ∷ zeros k) e

pub cstr-append : (s t : Bytes) → Lacks 0 s → cstr (s ++ (0 ∷ t)) ≡ s
unfolding cstr
cstr-append [] t h = refl
cstr-append (c ∷ s) t h = ground (arith, cstr-append s t)

-- A string that is shorter than its zeroed array is read back.
pub cstr-padded : (s t : Bytes) (n : ℕ) → Lacks 0 s → 0 < n → cstr (s ++ (zeros n ++ t)) ≡ s
cstr-padded s t n h pos =
    ap (λ z. cstr (s ++ (z ++ t))) (zeros-suc n pos) ∙ cstr-append s (zeros (n - 1) ++ t) h
