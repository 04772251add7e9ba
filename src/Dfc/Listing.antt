-- ===== src/Dfc/Listing.antt =====
-- The listing in `main` of dfc/client.c: what the servers list is counted part by part, and a file
-- is shown as complete or not.
pub mod Bits
pub mod Counts
pub mod Complete
pub mod Lines
use network_system_hw.Base.{
  ℕ, zero, suc, ◌+◌, ◌*◌, ◌/◌, ◌%◌, Bool, true, false, ◌||◌, not, List, [], ◌∷◌, ◌++◌, Option, none,
  some, map, if◌then◌else◌, ltb, leb, ◌==◌, ◌>>=◌, Bytes, codes, str_eq, copy,
}
use network_system_hw.Dfc.Client.{Returned, code, result}
use network_system_hw.Dfc.Config.{split}
use network_system_hw.Dfc.Partition.{parse_partition_name}

-- `c | (1 << b)`
unfoldable pub set_bit : ℕ → ℕ → ℕ
set_bit c zero = if c % 2 == 1 then c else c + 1
set_bit c (suc b) = c % 2 + 2 * set_bit (c / 2) b

-- An element of `p` and of `count`
pub record Row : Type 0 where
  pub name : Bytes
  pub count : ℕ

-- The first row of the name gets the bit; without such a row there is a new one behind them. No two
-- rows have the same name, so that the loop over `k` meets one at most.
abbrev pub count_part : Bytes → ℕ → List Row → List Row
count_part name b [] = record { name = name; count = set_bit 0 b } ∷ []
count_part name b (r ∷ rows) =
    if str_eq r.name name
    then record { name = r.name; count = set_bit r.count b } ∷ rows
    else r ∷ count_part name b rows

-- A shift by a negative number, or out of an `int`, is undefined.
abbrev pub shift_by : Bool × ℕ → Option ℕ
shift_by (negative, n) = if (negative || leb 31 n) then none else some n

abbrev pub part_of : Bytes → Option (Bytes × ℕ)
part_of partname =
    parse_partition_name partname >>= λ (name, number). shift_by number >>= λ b. some (name, b)

unfoldable pub count_parts : List Row → List Bytes → Option (List Row)
count_parts rows [] = some rows
count_parts rows (p ∷ ps) = part_of p >>= λ (name, b). count_parts (count_part name b rows) ps

unfoldable pub show_row : Row → Bytes
show_row r = if r.count == 15 then r.name else r.name ++ codes " [imcomplete]"

-- The texts of the threads that did not return 1, one behind the other.
abbrev pub texts : List Returned → Bytes
texts [] = []
texts (code n ∷ rs) = texts rs
texts (result text ∷ rs) = text ++ texts rs

-- The lines that are printed; `buffer` has 4096 bytes, `p` 4096 arrays of 256.
unfoldable pub listing : List Returned → Option (List Bytes)
unfolding count_parts show_row
listing rs = do
  buffer ← copy 4096 (texts rs)
  p ← split 4096 256 buffer (b'\n' ∷ [])
  rows ← count_parts [] p
  some (map show_row rows)
