-- ===== src/HttpServer/Config.antt =====
-- http_server/config.c and config.h, with `get_file_extension` of http_server/util.c.
pub mod Bounds
pub mod Types
pub mod Defaults
use network_system_hw.Base.{
  ℕ, zero, suc, ◌+◌, ◌-◌, ◌%◌, ◌^◌, min, Bool, false, not, ◌&&◌, ◌||◌, List, [], ◌∷◌, ◌++◌, Option,
  none, some, map, leb, ◌==◌, if◌then◌else◌, ◌>>=◌, length, get_or, replicate, store, Bytes, codes,
  digits_value, str_eq, cstr, copy, has,
}
use network_system_hw.Strutil.{remove_endl, strip, split, lower}

pub record Config : Type 0 where
  pub port : ℕ
  pub keepalive_time : ℕ
  pub count_content_types : ℕ
  pub root : Bytes
  pub index : List Bytes
  pub file_extensions : List Bytes
  pub content_types : List Bytes

-- `bzero`, then the default settings.
abbrev pub defaults : Config
defaults = record {
  port = 80;
  keepalive_time = 0;
  count_content_types = 0;
  root = codes ".";
  index = codes "index.html" ∷ replicate 31 [];
  file_extensions = codes ".html" ∷ replicate 31 [];
  content_types = codes "text/html" ∷ replicate 31 [];
}

-- `fgets` over a whole file: a line ends at its newline, or where the array of `room` bytes is
-- full.
pub fgets_from : ℕ → ℕ → Bytes → Bytes → List Bytes
fgets_from room left cur [] = if leb (length cur) 0 then [] else cur ∷ []
fgets_from room left cur (c ∷ s) =
    let full = (cur ++ (c ∷ [])) ∷ fgets_from room (room - 2) [] s in
    let more = fgets_from room (left - 1) (cur ++ (c ∷ [])) s in
    if c == b'\n' || left == 0 then full else more

unfoldable pub fgets_all : ℕ → Bytes → List Bytes
unfolding fgets_from cstr
fgets_all room content = map cstr (fgets_from room (room - 2) [] content)

is_space : ℕ → Bool
is_space c = c == b' ' || (leb 9 c && leb c 13)

-- `(uintW_t) atoi(s)`: what is behind the sign is as large as a `long` can be and is reduced modulo
-- 2 ^ W, a negative value wraps.
unfoldable pub atoi_unsigned : ℕ → Bytes → ℕ
unfolding is_space digits_value
atoi_unsigned w [] = 0
atoi_unsigned w (c ∷ s) =
    if is_space c
    then atoi_unsigned w s
    else if c == b'-'
    then (2 ^ w - min (digits_value 0 s) (2 ^ 63) % 2 ^ w) % 2 ^ w
    else if c == b'+'
    then min (digits_value 0 s) (2 ^ 63 - 1) % 2 ^ w
    else min (digits_value 0 (c ∷ s)) (2 ^ 63 - 1) % 2 ^ w

-- The variables of the reading loop: `conf`, and the number `k` of content types read so far.
pub record Reading : Type 0 where
  pub conf : Config
  pub k : ℕ

-- `for (i = …; i < n; i++) if (strlen(p[i]) != 0) { …; break; }`: the argument and those behind it.
unfoldable pub next_argument : List Bytes → Option (Bytes × List Bytes)
next_argument [] = none
next_argument ([] ∷ ts) = next_argument ts
next_argument ((c ∷ s) ∷ ts) = some (c ∷ s, ts)

set_listen : Reading → Option (Bytes × List Bytes) → Option Reading
set_listen r none = some r
set_listen r (some (t, ts)) =
    some (record r { conf = record (r.conf) { port = atoi_unsigned 16 t } })

set_root : Reading → Option (Bytes × List Bytes) → Option Reading
set_root r none = some r
set_root r (some (t, ts)) = do
  root ← copy 256 (strip t b'"')
  some (record r { conf = record (r.conf) { root = root } })

-- `conf->index[j++]`
store_indices : ℕ → List Bytes → List Bytes → Option (List Bytes)
store_indices j index [] = some index
store_indices j index ([] ∷ ts) = store_indices j index ts
store_indices j index ((c ∷ s) ∷ ts) = do
  index' ← store index j (c ∷ s)
  store_indices (j + 1) index' ts

set_index : Reading → List Bytes → Option Reading
set_index r ts = do
  index ← store_indices 0 r.conf.index ts
  some (record r { conf = record (r.conf) { index = index } })

set_keepalive : Reading → Option (Bytes × List Bytes) → Option Reading
set_keepalive r none = some r
set_keepalive r (some (t, ts)) =
    some (record r { conf = record (r.conf) { keepalive_time = atoi_unsigned 32 t } })

-- The second loop of `contenttype`; `k` is a `uint16_t`.
set_type : Reading → Option (Bytes × List Bytes) → Option Reading
set_type r none = some r
set_type r (some (t, ts)) = do
  types ← store r.conf.content_types r.k t
  some (record { conf = record (r.conf) { content_types = types }; k = (r.k + 1) % 2 ^ 16 })

set_content_type : Reading → Option (Bytes × List Bytes) → Option Reading
unfolding set_type
set_content_type r none = some r
set_content_type r (some (t, ts)) = do
  extensions ← store r.conf.file_extensions r.k t
  set_type (record r { conf = record (r.conf) { file_extensions = extensions } }) (next_argument ts)

-- The ladder over `p[0]`, which is in lower case already.
unfoldable pub directive : Reading → Bytes → List Bytes → Option Reading
unfolding set_listen set_root store_indices set_index set_keepalive set_content_type
directive r name ts =
    if str_eq name (codes "listen")
    then set_listen r (next_argument ts)
    else if str_eq name (codes "documentroot")
    then set_root r (next_argument ts)
    else if str_eq name (codes "directoryindex")
    then set_index r ts
    else if str_eq name (codes "keepalivetime")
    then set_keepalive r (next_argument ts)
    else if str_eq name (codes "contenttype")
    then set_content_type r (next_argument ts)
    else some r

-- `if (n > 1)`
unfoldable pub apply_tokens : Reading → List Bytes → Option Reading
apply_tokens r [] = some r
apply_tokens r (name ∷ []) = some r
apply_tokens r (name ∷ t ∷ ts) = directive r (lower name) (t ∷ ts)

-- `strlen(buf) > 0 && buf[0] != '#'`
abbrev pub is_directive : Bytes → Bool
is_directive [] = false
is_directive (c ∷ s) = not (c == b'#')

-- One round of `while (fgets(…) != 0)`.
unfoldable pub read_line : Reading → Bytes → Option Reading
unfolding apply_tokens
read_line r buf =
    let line = strip (remove_endl buf) b' ' in
    if is_directive line then split 32 128 line (codes " \t") >>= apply_tokens r else some r

unfoldable pub read_lines : Reading → List Bytes → Option Reading
unfolding read_line
read_lines r [] = some r
read_lines r (l ∷ ls) = read_line r l >>= λ r'. read_lines r' ls

pub data Init : Type 0 where
  missing : Init
  ready : Config → Init

-- The file is absent, or its bytes. `none` is a write past an array, which the code does not check:
-- a 33rd content type, or a line of more than 32 words.
unfoldable pub init_config : Option Bytes → Option Init
unfolding read_lines fgets_all
init_config none = some missing
init_config (some content) = do
  r ← read_lines (record { conf = defaults; k = 0 }) (fgets_all 128 content)
  some (ready (record (r.conf) { count_content_types = r.k }))

-- `strrchr(filename, '.')`: from the last dot on, or nothing.
unfoldable pub file_extension : Bytes → Bytes
file_extension [] = []
file_extension (c ∷ s) =
    let rest = file_extension s in if c == b'.' && not (has s b'.') then c ∷ s else rest

-- The loop over the first `n` entries from index `i` on.
find_type : Config → ℕ → ℕ → Bytes → Bytes
find_type conf zero i extension = []
find_type conf (suc n) i extension =
    let rest = find_type conf n (i + 1) extension in
    if str_eq (get_or conf.file_extensions i []) extension
    then get_or conf.content_types i []
    else rest

-- `strlen(extension) != 0`; the result is an array of 64 bytes, and so is `extension`.
type_of_extension : Config → Bytes → Option Bytes
unfolding find_type
type_of_extension conf [] = some []
type_of_extension conf (c ∷ s) = copy 64 (find_type conf conf.count_content_types 0 (c ∷ s))

unfoldable pub get_content_type : Config → Bytes → Option Bytes
unfolding file_extension type_of_extension
get_content_type conf filename = copy 64 (file_extension filename) >>= type_of_extension conf
