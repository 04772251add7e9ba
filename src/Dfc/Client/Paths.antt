-- ===== src/Dfc/Client/Paths.antt =====
-- The paths under which the parts of a file stand with a server: `set_path` of dfc/util.c, as the
-- client calls it and then the server.
use network_system_hw.Base.{
  ℕ, ◌<◌, ◌≤◌, ◌≡◌, refl, sym, ap, ◌∙◌, ◌∷◌, ◌++◌, some, arith, length, length-append, drop, lt→ltb,
  Bytes, Lacks, Lacks-append, codes,
}
use network_system_hw.Base.Memory.{drop-append}
use network_system_hw.Dfc.Config.{ClientConfig}
use network_system_hw.Dfc.Packet.Messages.{FitsField}
use network_system_hw.Dfc.Partition.{set_partition_name}
use network_system_hw.Dfc.Partition.Names.{
  part_name, set_partition_name-fits, part_name-injective, part_name-Lacks,
}
use network_system_hw.Dfc.Server.{set_path}

-- What `set_path` writes.
abbrev pub joined : Bytes → Bytes → Bytes
joined p1 p2 = codes "./" ++ (p1 ++ (b'/' ∷ p2))

pub set_path-fits :
    (p1 p2 : Bytes) → length (joined p1 p2) < 256 → set_path p1 p2 ≡ some (joined p1 p2)
unfolding set_path
set_path-fits p1 p2 h = rw (lt→ltb _ 256 h) refl

joined-injective : (p1 p2 q2 : Bytes) → joined p1 p2 ≡ joined p1 q2 → p2 ≡ q2
joined-injective p1 p2 q2 e = ap (drop 1) (
    sym (drop-append p1 (b'/' ∷ p2))
    ∙ ap (λ t. drop (length p1) (drop 2 t)) e
    ∙ drop-append p1 (b'/' ∷ q2))

length-joined : (p1 p2 : Bytes) → length p2 ≤ length (joined p1 p2)
length-joined p1 p2 = omega (arith, length-append p1 (b'/' ∷ p2))

-- The operand of the command, and the path of the server's file, for part `k` of the file.
abbrev pub operand : Bytes → Bytes → ℕ → Bytes
operand path filename k = joined path (part_name filename k)

abbrev pub place : ClientConfig → Bytes → Bytes → ℕ → Bytes
place conf path filename k = joined conf.username (operand path filename k)

-- The client's name and password fit their fields, and the names of the file's parts the arrays.
pub record Fits (conf : ClientConfig) (path filename : Bytes) : Type 0 where
  pub username_fits : FitsField conf.username
  pub password_fits : FitsField conf.password
  pub password_given : 0 < length conf.password
  pub path_clean : Lacks 0 path
  pub filename_clean : Lacks 0 filename
  pub names_fit : (k : ℕ) → k < length conf.hosts → length (part_name filename k) < 128
  pub places_fit : (k : ℕ) → k < length conf.hosts → length (place conf path filename k) < 256

module _ (conf : ClientConfig) (path filename : Bytes) (fits : Fits conf path filename) (k : ℕ)
    (small : k < length conf.hosts) where
  pub name_is :
      (room : ℕ) → 128 ≤ room → set_partition_name room filename k ≡ some (part_name filename k)
  name_is room h = set_partition_name-fits room filename k (omega (arith, fits.names_fit k small))

  pub operand_short : length (operand path filename k) < 256
  operand_short =
      omega (arith, fits.places_fit k small, length-joined conf.username (operand path filename k))

  pub operand_is : set_path path (part_name filename k) ≡ some (operand path filename k)
  operand_is = set_path-fits path (part_name filename k) operand_short

  pub place_is :
      set_path conf.username (operand path filename k) ≡ some (place conf path filename k)
  place_is = set_path-fits conf.username (operand path filename k) (fits.places_fit k small)

  pub operand_clean : Lacks 0 (operand path filename k)
  operand_clean =
      Lacks-append 0 path (b'/' ∷ part_name filename k) fits.path_clean
        (part_name-Lacks filename k fits.filename_clean)

pub place-injective :
    (conf : ClientConfig) (path filename : Bytes) (j k : ℕ)
    → place conf path filename j ≡ place conf path filename k
    → j ≡ k
place-injective conf path filename j k e =
    part_name-injective filename j k
      (joined-injective path _ _ (joined-injective conf.username _ _ e))
