-- ===== src/Dfc/Partition.antt =====
-- The names of a file's parts and the putting together of the parts: `set_partition_name`,
-- `parse_partition_name`, `merge_partitions` and `delete_partitions` of dfc/util.c, and the size of
-- a part in `handle_put` of dfc/client.c.
pub mod Names
pub mod Merge
use network_system_hw.Base.{
  ℕ, zero, suc, ◌+◌, ◌*◌, ◌/◌, Bool, [], ◌∷◌, ◌++◌, Option, none, some, if◌then◌else◌, ◌>>=◌,
  length, take, drop, Bytes, str_eq, copy, decimal, atoi, split_last,
}

-- `sprintf` of ".%s.%d" into an array of `room` bytes
unfoldable pub set_partition_name : ℕ → Bytes → ℕ → Option Bytes
set_partition_name room filename n = copy room (b'.' ∷ (filename ++ (b'.' ∷ decimal n)))

-- The name from byte 1 up to the last dot, and the number behind it, which the code keeps in an
-- `int`: below 2 ^ 31 they are the same. `none` is a name without a dot behind its first byte.
abbrev pub named : Bytes × Bytes → Option (Bytes × (Bool × ℕ))
named ([], digits) = none
named (d ∷ name, digits) = some (name, atoi digits)

unfoldable pub parse_partition_name : Bytes → Option (Bytes × (Bool × ℕ))
unfolding split_last
parse_partition_name partname = split_last b'.' partname >>= named

-- The client's directory: the content of the files that can be opened.
abbrev pub Directory : Type 0
Directory = Bytes → Option Bytes

-- The loop of `merge_partitions` from part `i` on: it stops at the first part that is missing.
abbrev pub append_part : (Bytes → Option Bytes) → Bytes → Option Bytes → Option Bytes
append_part next out none = some out
append_part next out (some content) = next (out ++ content)

unfoldable pub merge_from : Directory → Bytes → ℕ → ℕ → Bytes → Option Bytes
unfolding set_partition_name
merge_from files filename i zero out = some out
merge_from files filename i (suc n) out = set_partition_name 128 filename i >>= λ pname.
    append_part (λ o. merge_from files filename (suc i) n o) out (files pname)

-- The content of the file that is written.
unfoldable pub merge_partitions : Directory → Bytes → ℕ → Option Bytes
unfolding merge_from
merge_partitions files filename n = merge_from files filename 0 n []

abbrev pub unlink : Directory → Bytes → Directory
unlink files pname = λ q. if str_eq q pname then none else files q

-- A file that `fopen` has opened by "wb" and that then got the content.
abbrev pub put_file : Directory → Bytes → Bytes → Directory
put_file files name content = λ q. if str_eq q name then some content else files q

-- `delete_partitions` from part `i` on
unfoldable pub delete_from : Directory → Bytes → ℕ → ℕ → Option Directory
unfolding set_partition_name
delete_from files filename i zero = some files
delete_from files filename i (suc n) = set_partition_name 128 filename i >>= λ pname.
    delete_from (unlink files pname) filename (suc i) n

unfoldable pub delete_partitions : Directory → Bytes → ℕ → Option Directory
unfolding delete_from
delete_partitions files filename n = delete_from files filename 0 n

-- `psize` for `nh` servers, and the bytes of part `k`
abbrev pub psize : ℕ → ℕ → ℕ
psize nh fsize = fsize / nh + 1

abbrev pub partition : ℕ → Bytes → ℕ → Bytes
partition nh file k = take (psize nh (length file)) (drop (psize nh (length file) * k) file)
