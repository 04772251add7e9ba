-- ===== src/Dfc/Partition/Merge.antt =====
-- The parts of a file put together are the file.
use native.Mathlib.Nat.{mod-lt, div-add-mod'}
use network_system_hw.Base.{
  ℕ, zero, suc, ◌+◌, ◌*◌, ◌/◌, ◌≤◌, ◌<◌, ◌≡◌, sym, ap, ◌∙◌, some, arith, length, take, take-plus,
  take_short, Bytes, refl, false, ◌∷◌, length-append, Bool-cases, inl, inr, str_eq, str_eq_iff,
  decimal,
}
use network_system_hw.Dfc.Partition.{
  set_partition_name, Directory, merge_from, merge_partitions, psize, partition, unlink,
  delete_from,
}
use network_system_hw.Dfc.Partition.Names.{part_name, set_partition_name-fits}

-- `nh` parts of `psize` bytes are enough.
psize-covers : (nh n : ℕ) → 0 < nh → n ≤ psize nh n * nh
psize-covers nh n pos =
    let split = div-add-mod' n nh in
    let low = mod-lt n pos in
    let more : (n / nh + 1) * nh ≡ n / nh * nh + nh = grind arith in omega arith

module _ (files : Directory) (filename file : Bytes) (nh : ℕ)
    (kept : (k : ℕ)
      → k < nh
      → (pname : Bytes) × (set_partition_name 128 filename k ≡ some pname)
        × (files pname ≡ some (partition nh file k))) where
  merge_from-rest :
      (n i : ℕ)
      → i + n ≡ nh
      → 0 < nh
      → merge_from files filename i n (take (psize nh (length file) * i) file) ≡ some file
  unfolding merge_from
  merge_from-rest zero i all pos =
      let same : i ≡ nh = omega arith in
      ap (λ k. some (take (psize nh (length file) * k) file)) same
      ∙ ap some (take_short (psize nh (length file) * nh) file (psize-covers nh (length file) pos))
  merge_from-rest (suc n) i all pos =
      let (pname, named, there) = kept i (omega arith) in
      let p = psize nh (length file) in
      let next : p * i + p ≡ p * suc i = grind arith in
      let joined = sym (take-plus (p * i) p file) ∙ ap (λ k. take k file) next in
      rw (named, there)
        (ap (merge_from files filename (suc i) n) joined
          ∙ merge_from-rest n (suc i) (omega arith) pos)

  -- If each of the `nh` parts, under its name, has the bytes of the file from `psize * k` on, at
  -- most `psize` of them, then the merged file is the file.
  pub merge_partitions-partition : 0 < nh → merge_partitions files filename nh ≡ some file
  unfolding merge_partitions
  merge_partitions-partition pos =
      let start : psize nh (length file) * 0 ≡ 0 = grind arith in
      ap (λ k. merge_from files filename 0 nh (take k file)) (sym start)
      ∙ merge_from-rest nh 0 (omega arith) pos

-- `delete_partitions` leaves all files but the parts.
pub delete_from-other :
    (filename : Bytes) (n i : ℕ) (files : Directory)
    → ((k : ℕ) → k < i + n → length (part_name filename k) < 128)
    → (files' : Directory) × (delete_from files filename i n ≡ some files')
      × ((q : Bytes) → ((k : ℕ) → str_eq q (part_name filename k) ≡ false) → files' q ≡ files q)
unfolding delete_from
delete_from-other filename zero i files fits = (files, refl, λ q apart. refl)
delete_from-other filename (suc n) i files fits =
    let name = set_partition_name-fits 128 filename i (fits i (omega arith)) in
    let (files', deleted, others) =
      delete_from-other filename n (suc i) (unlink files (part_name filename i))
        (λ k lt. fits k (omega arith)) in
    (files', rw name deleted, λ q apart. others q apart ∙ rw (apart i) refl)

-- No file has the name of one of its parts.
pub part_name-other : (filename : Bytes) (k : ℕ) → str_eq filename (part_name filename k) ≡ false
part_name-other filename k = elim (Bool-cases (str_eq filename (part_name filename k))) [
  | inl same ↦
      let e = ap length ((str_eq_iff _ _).0 same) in
      absurd (omega (arith, e, length-append filename (b'.' ∷ decimal k)))
  | inr apart ↦ apart
]

pub part_name-longer : (filename : Bytes) (k : ℕ) → str_eq (part_name filename k) filename ≡ false
part_name-longer filename k = elim (Bool-cases (str_eq (part_name filename k) filename)) [
  | inl same ↦
      let e = ap length ((str_eq_iff _ _).0 same) in
      absurd (omega (arith, e, length-append filename (b'.' ∷ decimal k)))
  | inr apart ↦ apart
]
