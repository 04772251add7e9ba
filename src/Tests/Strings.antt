-- ===== src/Tests/Strings.antt =====
-- http_server/strutil.c
use mathlib.Core.List.{reverse}
use network_system_hw.Base.{
  ℕ, ◌≡◌, ◌≤◌, ◌<◌, ◌↔◌, refl, List, [], ◌∷◌, ◌++◌, some, none, length, All, replicate, Bytes,
  codes, decimal,
}
use network_system_hw.Strutil.{strip, split, split_first, lower}
use network_system_hw.Strutil.Trim.{Starts, strip_lem}
use network_system_hw.Strutil.Tokens.{join, Clean, split_sound}

blanks : strip (codes "  a b  ") b' ' ≡ codes "a b"
unfolding strip
blanks = refl

only_blanks : strip (codes "   ") b' ' ≡ []
unfolding strip
only_blanks = refl

two_separators :
    split 32 128 (codes "Listen  8888") (codes " \t")
    ≡ some (codes "Listen" ∷ [] ∷ codes "8888" ∷ [])
unfolding split
two_separators = refl

too_many : split 2 128 (codes "a b c") (codes " ") ≡ none
unfolding split
too_many = refl

header_parts : split_first (codes "host: x:1") b':' ≡ (codes "host", codes " x:1")
unfolding split_first
header_parts = refl

lower_case : lower (codes "GeT /A") ≡ codes "get /a"
unfolding lower
lower_case = refl

printed : decimal 1204 ≡ codes "1204"
unfolding decimal
printed = refl

three_parts : split 3 4 (codes "ab,,c") (b',' ∷ []) ≡ some (codes "ab" ∷ [] ∷ codes "c" ∷ [])
unfolding split
three_parts = refl

strip_example :
    (a : ℕ) × (b : ℕ) × (codes " ab  "
      ≡ replicate a b' ' ++ (strip (codes " ab  ") b' ' ++ replicate b b' '))
    × (¬ Starts b' ' (strip (codes " ab  ") b' '))
    × (¬ Starts b' ' (reverse (strip (codes " ab  ") b' ')))
strip_example = strip_lem (codes " ab  ") b' '

split_example :
    (join b',' (codes "ab" ∷ [] ∷ codes "c" ∷ []) ≡ codes "ab,,c")
    × All (Clean (b',' ∷ [])) (codes "ab" ∷ [] ∷ codes "c" ∷ [])
    × (length (codes "ab" ∷ [] ∷ codes "c" ∷ []) ≤ 3)
    × All (λ t. length t < 4) (codes "ab" ∷ [] ∷ codes "c" ∷ [])
    × ((codes "ab,,c" ≡ []) ↔ (◌≡◌ {A = List Bytes} (codes "ab" ∷ [] ∷ codes "c" ∷ []) []))
split_example = split_sound 3 4 b',' (codes "ab,,c") three_parts
