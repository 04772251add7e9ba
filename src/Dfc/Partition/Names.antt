-- ===== src/Dfc/Partition/Names.antt =====
-- The name of a part is read back.
use network_system_hw.Base.{
  str_eq, ℕ, suc, ◌<◌, length, lt→ltb, some-injective, sym, Lacks-append, ◌≡◌, refl, ap, ◌∙◌, true,
  false, [], ◌∷◌, ◌++◌, none, some, ◌>>=◌, ◌==◌, arith, Lacks, Bytes, decimal, atoi-decimal,
  Lacks-decimal, keep_last, split_last, copy-eq-some,
}
use network_system_hw.Dfc.Partition.{set_partition_name, named, parse_partition_name}

split_last-Lacks : (b : ℕ) (s : Bytes) → Lacks b s → split_last b s ≡ none
unfolding split_last
split_last-Lacks b [] h = refl
split_last-Lacks b (c ∷ s) h =
    let (other, later) = apart in ap (keep_last b c s) (split_last-Lacks b s later) ∙ rw other refl
  where
    apart : ((c == b) ≡ false) × Lacks b s
    apart = ground arith

split_last-append : (b : ℕ) (s t : Bytes) → Lacks b t → split_last b (s ++ (b ∷ t)) ≡ some (s, t)
unfolding split_last
split_last-append b [] t h =
    let same : (b == b) ≡ true = ground arith in
    ap (keep_last b b t) (split_last-Lacks b t h) ∙ rw same refl
split_last-append b (c ∷ s) t h = ap (keep_last b c (s ++ (b ∷ t))) (split_last-append b s t h)

-- Whatever the name of the file, dots included, the name of its part `n` is parsed into the
-- file's name and `n`.
pub parse_partition_name-set_partition_name :
    (room : ℕ) (filename partname : Bytes) (n : ℕ)
    → set_partition_name room filename n ≡ some partname
    → parse_partition_name partname ≡ some (filename, (false, n))
unfolding parse_partition_name set_partition_name
parse_partition_name-set_partition_name room filename partname n h =
    let name = b'.' ∷ (filename ++ (b'.' ∷ decimal n)) in
    let same = (copy-eq-some room name h).0 in
    let clean = Lacks-decimal b'.' n (omega arith) in
    ap (λ s. split_last b'.' s >>= named) same
    ∙ ap (λ m. m >>= named) (split_last-append b'.' (b'.' ∷ filename) (decimal n) clean)
    ∙ ap (λ v. some (filename, v)) (atoi-decimal n)

-- The name of part `n`
abbrev pub part_name : Bytes → ℕ → Bytes
part_name filename n = b'.' ∷ (filename ++ (b'.' ∷ decimal n))

pub set_partition_name-fits :
    (room : ℕ) (filename : Bytes) (n : ℕ)
    → length (part_name filename n) < room
    → set_partition_name room filename n ≡ some (part_name filename n)
unfolding set_partition_name
set_partition_name-fits room filename n h = rw (lt→ltb _ room h) refl

pub part_name-injective :
    (filename : Bytes) (m n : ℕ) → part_name filename m ≡ part_name filename n → m ≡ n
part_name-injective filename m n e =
    ap (λ v. v.1.1) (some-injective _ _ (sym (read m refl) ∙ read n e))
  where
    read :
        (k : ℕ)
        → part_name filename m ≡ part_name filename k
        → parse_partition_name (part_name filename m) ≡ some (filename, (false, k))
    read k same =
        ap parse_partition_name same
        ∙ parse_partition_name-set_partition_name (suc (length (part_name filename k))) filename
            (part_name filename k) k (set_partition_name-fits _ filename k (omega arith))

pub part_name-Lacks : (filename : Bytes) (n : ℕ) → Lacks 0 filename → Lacks 0 (part_name filename n)
part_name-Lacks filename n h =
    Lacks-append 0 filename (b'.' ∷ decimal n) h (Lacks-decimal 0 n (omega arith))

-- Not the name of a part
abbrev pub IsApart : Bytes → Bytes → Type 0
IsApart filename q = (k : ℕ) → str_eq q (part_name filename k) ≡ false
