-- ===== src/HttpServer/Config/Bounds.antt =====
-- What `init_config` leaves in a `config_t`, whatever the file holds.
use network_system_hw.Base.{
  ℕ, ◌+◌, ◌^◌, ◌≤◌, ◌<◌, ◌≡◌, refl, List, [], ◌∷◌, Option, none, some, arith, Ensures, Ensures-bind,
  Ensures-if, Ensures-some, >>=-eq-some, Ensures-mono, ◌∙◌, length, length-store, store, Bytes,
  codes, copy,
}
use network_system_hw.Strutil.{remove_endl, strip, split, lower}
use network_system_hw.HttpServer.Config.{
  Config, Reading, ready, defaults, atoi_unsigned, next_argument, set_listen, set_root,
  store_indices, set_index, set_keepalive, set_type, set_content_type, directive, apply_tokens,
  is_directive, read_line, read_lines, fgets_all, init_config,
}

-- The three arrays keep their 32 entries, and the numbers fit their types.
record IsBounded (r : Reading) : Type 0 where
  port_lt : r.conf.port < 2 ^ 16
  keepalive_lt : r.conf.keepalive_time < 2 ^ 32
  k_le : r.k ≤ 32
  index_len : length r.conf.index ≡ 32
  extensions_len : length r.conf.file_extensions ≡ 32
  types_len : length r.conf.content_types ≡ 32

pub atoi_unsigned-lt16 : (s : Bytes) → atoi_unsigned 16 s < 2 ^ 16
unfolding atoi_unsigned
atoi_unsigned-lt16 [] = omega arith
atoi_unsigned-lt16 (c ∷ s) = ground (arith, atoi_unsigned-lt16 s)

atoi_unsigned-lt32 : (s : Bytes) → atoi_unsigned 32 s < 2 ^ 32
unfolding atoi_unsigned
atoi_unsigned-lt32 [] = omega arith
atoi_unsigned-lt32 (c ∷ s) = ground (arith, atoi_unsigned-lt32 s)

set_listen-IsBounded :
    (r : Reading) (a : Option (Bytes × List Bytes))
    → IsBounded r
    → Ensures IsBounded (set_listen r a)
unfolding set_listen
set_listen-IsBounded r none b = b
set_listen-IsBounded r (some (t, ts)) b = ground (arith, atoi_unsigned-lt16 t)

set_keepalive-IsBounded :
    (r : Reading) (a : Option (Bytes × List Bytes))
    → IsBounded r
    → Ensures IsBounded (set_keepalive r a)
unfolding set_keepalive
set_keepalive-IsBounded r none b = b
set_keepalive-IsBounded r (some (t, ts)) b = ground (arith, atoi_unsigned-lt32 t)

set_root-IsBounded :
    (r : Reading) (a : Option (Bytes × List Bytes)) → IsBounded r → Ensures IsBounded (set_root r a)
unfolding set_root
set_root-IsBounded r none b = b
set_root-IsBounded r (some (t, ts)) b =
    Ensures-bind IsBounded (copy 256 (strip t b'"')) _ λ root _. ground arith

store_indices-length :
    (j : ℕ) (index ts : List Bytes)
    → Ensures (λ xs. length xs ≡ length index) (store_indices j index ts)
unfolding store_indices
store_indices-length j index [] = refl
store_indices-length j index ([] ∷ ts) = store_indices-length j index ts
store_indices-length j index ((c ∷ s) ∷ ts) =
    Ensures-bind (λ xs. length xs ≡ length index) (store index j (c ∷ s)) _
      λ ys e.
        Ensures-mono (store_indices (j + 1) ys ts) (λ xs h. h ∙ (length-store index j (c ∷ s) e).0)
          (store_indices-length (j + 1) ys ts)

set_index-IsBounded :
    (r : Reading) (ts : List Bytes) → IsBounded r → Ensures IsBounded (set_index r ts)
unfolding set_index
set_index-IsBounded r ts b = Ensures-bind IsBounded (store_indices 0 r.conf.index ts) _ λ index e.
    let same = Ensures-some _ _ (store_indices-length 0 r.conf.index ts) e in ground (arith, same)

set_type-IsBounded :
    (r : Reading) (a : Option (Bytes × List Bytes)) → IsBounded r → Ensures IsBounded (set_type r a)
unfolding set_type
set_type-IsBounded r none b = b
set_type-IsBounded r (some (t, ts)) b =
    Ensures-bind IsBounded (store r.conf.content_types r.k t) _
      λ types e. ground (arith, length-store r.conf.content_types r.k t e)

set_content_type-IsBounded :
    (r : Reading) (a : Option (Bytes × List Bytes))
    → IsBounded r
    → Ensures IsBounded (set_content_type r a)
unfolding set_content_type
set_content_type-IsBounded r none b = b
set_content_type-IsBounded r (some (t, ts)) b =
    Ensures-bind IsBounded (store r.conf.file_extensions r.k t) _ λ extensions e.
      set_type-IsBounded _ (next_argument ts)
        (ground (arith, length-store r.conf.file_extensions r.k t e))

directive-IsBounded :
    (r : Reading) (name : Bytes) (ts : List Bytes)
    → IsBounded r
    → Ensures IsBounded (directive r name ts)
unfolding directive
directive-IsBounded r name ts b =
    let a = next_argument ts in
    ground (
      arith,
      set_listen-IsBounded r a b,
      set_root-IsBounded r a b,
      set_index-IsBounded r ts b,
      set_keepalive-IsBounded r a b,
      set_content_type-IsBounded r a b,
    )

apply_tokens-IsBounded :
    (r : Reading) (ts : List Bytes) → IsBounded r → Ensures IsBounded (apply_tokens r ts)
unfolding apply_tokens
apply_tokens-IsBounded r [] b = b
apply_tokens-IsBounded r (name ∷ []) b = b
apply_tokens-IsBounded r (name ∷ t ∷ ts) b = directive-IsBounded r (lower name) (t ∷ ts) b

read_line-IsBounded :
    (r : Reading) (buf : Bytes) → IsBounded r → Ensures IsBounded (read_line r buf)
unfolding read_line
read_line-IsBounded r buf b =
    Ensures-if IsBounded (is_directive (strip (remove_endl buf) b' ')) _ _
      (λ h.
        Ensures-bind IsBounded (split 32 128 (strip (remove_endl buf) b' ') (codes " \t")) _
          λ ts _. apply_tokens-IsBounded r ts b)
      (λ h. b)

read_lines-IsBounded :
    (r : Reading) (ls : List Bytes) → IsBounded r → Ensures IsBounded (read_lines r ls)
unfolding read_lines
read_lines-IsBounded r [] b = b
read_lines-IsBounded r (l ∷ ls) b =
    Ensures-bind IsBounded (read_line r l) _
      λ r' e. read_lines-IsBounded r' ls (Ensures-some _ _ (read_line-IsBounded r l b) e)

-- Whatever the file holds, a configuration that `init_config` returns has a port below 2 ^ 16, a
-- keep-alive time below 2 ^ 32, at most 32 counted content types, and its three arrays still have
-- 32 entries each, so that every counted index lies in them.
pub init_config_bounds :
    (content : Bytes) {conf : Config}
    → init_config (some content) ≡ some (ready conf)
    → (conf.port < 2 ^ 16)
      × (conf.keepalive_time < 2 ^ 32)
      × (conf.count_content_types ≤ 32)
      × (length conf.index ≡ 32)
      × (length conf.file_extensions ≡ 32)
      × (length conf.content_types ≡ 32)
unfolding init_config
init_config_bounds content {conf} h =
    let start : Reading = record { conf = defaults; k = 0 } in
    let (r, read, done) = >>=-eq-some (read_lines start (fgets_all 128 content)) _ h in
    let b =
      Ensures-some IsBounded _ (read_lines-IsBounded start (fgets_all 128 content) (omega arith))
        read in
    ground arith
