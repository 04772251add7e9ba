-- ===== src/Dfc/Listing/Lines.antt =====
-- The text of a listing between `list_dir` of dfc/trans.c and `split` of dfc/strutil.c.
use network_system_hw.Base.{
  ℕ, zero, suc, ◌≤◌, ◌<◌, ◌≡◌, refl, sym, ap, ◌∙◌, false, Bool-cases, inl, inr, ◌||◌, List, [], ◌∷◌,
  ◌++◌, append_assoc, some, if◌then◌else◌, arith, lt→ltb, length, length-append, All, Bytes, codes,
  str_eq, Lacks, Lacks-append, has,
}
use network_system_hw.Strutil.{tokens, on_head, copy_all}
use network_system_hw.Dfc.Config.{filled, split}
use network_system_hw.Dfc.Server.{Entry, list_dir}

abbrev pub newline : Bytes
newline = b'\n' ∷ []

-- Each name with a newline behind it
abbrev pub lines : List Bytes → Bytes
lines [] = []
lines (n ∷ ns) = n ++ (b'\n' ∷ lines ns)

pub lines-append : (a b : List Bytes) → lines (a ++ b) ≡ lines a ++ lines b
lines-append [] b = refl
lines-append (n ∷ a) b =
    ap (λ t. n ++ (b'\n' ∷ t)) (lines-append a b) ∙ sym (append_assoc n (b'\n' ∷ lines a) (lines b))

-- A name that a directory can hold, below 256 bytes and without a newline.
pub record IsName (n : Bytes) : Type 0 where
  pub one_line : Lacks b'\n' n
  pub clean : Lacks 0 n
  pub given : 0 < length n
  pub short : length n < 256

pub lines-Lacks : (ns : List Bytes) → All IsName ns → Lacks 0 (lines ns)
lines-Lacks [] all = refl
lines-Lacks (n ∷ ns) (name, all) =
    Lacks-append 0 n (b'\n' ∷ lines ns) name.clean (lines-Lacks ns all)

tokens-line :
    (n s : Bytes) → Lacks b'\n' n → tokens newline (n ++ (b'\n' ∷ s)) ≡ n ∷ tokens newline s
unfolding tokens on_head
tokens-line [] s h = refl
tokens-line (c ∷ n) s h = let (other, rest) = apart in rw (other, tokens-line n s rest) refl
  where
    apart : (has newline c ≡ false) × Lacks b'\n' n
    apart = ground arith

filled-lines : (ns : List Bytes) → All IsName ns → filled (tokens newline (lines ns)) ≡ ns
unfolding filled tokens
filled-lines [] all = refl
filled-lines ([] ∷ ns) (name, all) = absurd (omega (arith, name.given))
filled-lines ((c ∷ n) ∷ ns) (name, all) =
    ap filled (tokens-line (c ∷ n) (lines ns) name.one_line)
    ∙ ap (◌∷◌ (c ∷ n)) (filled-lines ns all)

copy_all-names :
    (slots : ℕ) (ns : List Bytes)
    → All IsName ns
    → length ns ≤ slots
    → copy_all slots 256 ns ≡ some ns
unfolding copy_all
copy_all-names slots [] all fit = refl
copy_all-names zero (n ∷ ns) all fit = absurd (omega arith)
copy_all-names (suc slots) (n ∷ ns) (name, all) fit =
    rw (lt→ltb (length n) 256 name.short, copy_all-names slots ns all (omega arith)) refl

split-filled :
    (slots width : ℕ) (s sep : Bytes)
    → split slots width s sep ≡ copy_all slots width (filled (tokens sep s))
unfolding split filled tokens copy_all
split-filled slots width [] sep = refl
split-filled slots width (c ∷ s) sep = refl

-- The client's `split` finds the names.
pub split-lines :
    (slots : ℕ) (ns : List Bytes)
    → All IsName ns
    → length ns ≤ slots
    → split slots 256 (lines ns) newline ≡ some ns
split-lines slots ns all fit =
    split-filled slots 256 (lines ns) newline
    ∙ ap (copy_all slots 256) (filled-lines ns all)
    ∙ copy_all-names slots ns all fit

pub length-lines : (ns : List Bytes) → length ns ≤ length (lines ns)
length-lines [] = omega arith
length-lines (n ∷ ns) = omega (arith, length-append n (b'\n' ∷ lines ns), length-lines ns)

-- The names that `list_dir` lists
abbrev pub visible : List Entry → List Bytes
visible [] = []
visible (e ∷ es) =
    if str_eq e.d_name (codes ".") || str_eq e.d_name (codes "..") || e.is_dir
    then visible es
    else e.d_name ∷ visible es

pub list_dir-lines : (es : List Entry) → list_dir b'\n' es ≡ lines (visible es)
unfolding list_dir
list_dir-lines [] = refl
list_dir-lines (e ∷ es) =
    elim (Bool-cases (str_eq e.d_name (codes ".") || str_eq e.d_name (codes "..") || e.is_dir)) [
      | inl hidden ↦ rw hidden (list_dir-lines es)
      | inr seen ↦ rw seen (ap (λ t. e.d_name ++ (b'\n' ∷ t)) (list_dir-lines es))
    ]
