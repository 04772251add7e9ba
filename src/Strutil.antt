-- ===== src/Strutil.antt =====
-- http_server/strutil.c; dfc/strutil.c is the same file but for its `split`.
pub mod Trim
pub mod Tokens
use mathlib.Core.List.{reverse}
use network_system_hw.Base.{
  ℕ, zero, suc, ◌+◌, ◌&&◌, List, [], ◌∷◌, Option, none, some, map, ltb, leb, ◌==◌, if◌then◌else◌,
  ◌>>=◌, length, Bytes, copy, has,
}

-- Drops the last byte where it is `b`.
abbrev pub chop : ℕ → Bytes → Bytes
chop b [] = []
chop b (c ∷ []) = if c == b then [] else c ∷ []
chop b (c ∷ d ∷ s) = c ∷ chop b (d ∷ s)

unfoldable pub remove_endl : Bytes → Bytes
remove_endl line = chop b'\r' (chop b'\n' line)

-- `while (*p == sep) p++;`
unfoldable pub skip : ℕ → Bytes → Bytes
skip sep [] = []
skip sep (c ∷ s) = if c == sep then skip sep s else c ∷ s

-- The second loop walks back from the last byte. Where at most one byte is left, `p` has stayed
-- at the byte that ended the first loop, or at the NUL that `strcpy` wrote there, and neither is
-- `sep`: nothing is dropped.
unfoldable pub strip : Bytes → ℕ → Bytes
unfolding skip
strip line sep =
    let rest = skip sep line in
    if ltb 1 (length rest) then reverse (skip sep (reverse rest)) else rest

-- The tokens that `strsep` hands out until its pointer is null.
unfoldable pub on_head : ℕ → List Bytes → List Bytes
on_head c [] = []
on_head c (t ∷ ts) = (c ∷ t) ∷ ts

unfoldable pub tokens : Bytes → Bytes → List Bytes
unfolding on_head
tokens sep [] = [] ∷ []
tokens sep (c ∷ s) = let rest = tokens sep s in if has sep c then [] ∷ rest else on_head c rest

-- `strcpy(results[i], p); i++;` into `slots` arrays of `width` bytes.
unfoldable pub copy_all : ℕ → ℕ → List Bytes → Option (List Bytes)
copy_all slots width [] = some []
copy_all zero width (t ∷ ts) = none
copy_all (suc slots) width (t ∷ ts) = do
  t' ← copy width t
  ts' ← copy_all slots width ts
  some (t' ∷ ts')

unfoldable pub split : ℕ → ℕ → Bytes → Bytes → Option (List Bytes)
unfolding tokens copy_all
split slots width [] sep = some []
split slots width (c ∷ s) sep = copy_all slots width (tokens sep (c ∷ s))

unfoldable pub split_first : Bytes → ℕ → Bytes × Bytes
split_first [] sep = ([], [])
split_first (c ∷ s) sep =
    if c == sep then ([], s) else (c ∷ (split_first s sep).0, (split_first s sep).1)

unfoldable pub to_lower : ℕ → ℕ
to_lower c = if leb b'A' c && leb c b'Z' then c + 32 else c

unfoldable pub lower : Bytes → Bytes
unfolding to_lower
lower = map to_lower
