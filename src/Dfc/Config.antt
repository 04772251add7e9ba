-- ===== src/Dfc/Config.antt =====
-- dfc/config.c and config.h, with the `split` of dfc/strutil.c.
pub mod Bounds
use network_system_hw.Base.{
  ℕ, zero, suc, ◌+◌, List, [], ◌∷◌, ◌++◌, Option, none, some, if◌then◌else◌, ltb, leb, ◌==◌, ◌>>=◌,
  length, Bytes, codes, str_eq, copy,
}
use network_system_hw.Dfc.Strutil.{remove_endl, strip, split_first, lower}
use network_system_hw.Strutil.{tokens, copy_all}
use network_system_hw.HttpServer.Config.{atoi_unsigned, fgets_all, is_directive}

-- `split` of dfc/strutil.c skips empty tokens.
unfoldable pub filled : List Bytes → List Bytes
filled [] = []
filled ([] ∷ ts) = filled ts
filled ((c ∷ s) ∷ ts) = (c ∷ s) ∷ filled ts

unfoldable pub split : ℕ → ℕ → Bytes → Bytes → Option (List Bytes)
unfolding filled
split slots width [] sep = some []
split slots width (c ∷ s) sep = copy_all slots width (filled (tokens sep (c ∷ s)))

-- `user_t`
pub record User : Type 0 where
  pub username : Bytes
  pub password : Bytes

-- `host_t` without `available`, which `main` sets
pub record Host : Type 0 where
  pub ip : Bytes
  pub port : ℕ

-- `client_config_t`; `nh` is the length of `hosts`
pub record ClientConfig : Type 0 where
  pub hosts : List Host
  pub username : Bytes
  pub password : Bytes

-- One more element of an array of 32.
abbrev pub append_32 {ℓ} : {A : Type ℓ} → List A → A → Option (List A)
append_32 xs x = if ltb (length xs) 32 then some (xs ++ (x ∷ [])) else none

-- A line of either file, as its tokens: none for a comment or an empty line.
unfoldable pub line_tokens : Bytes → Option (List Bytes)
unfolding split
line_tokens buf =
    let line = strip (remove_endl buf) b' ' in
    if is_directive line then split 16 128 line (codes " \t") else some []

-- `if (n > 1)` of the server's file
unfoldable pub add_user : List User → List Bytes → Option (List User)
add_user users [] = some users
add_user users (name ∷ []) = some users
add_user users (name ∷ password ∷ rest) = do
  n ← copy 16 name
  p ← copy 16 password
  append_32 users (record { username = n; password = p })

unfoldable pub read_users : List User → List Bytes → Option (List User)
unfolding line_tokens add_user
read_users users [] = some users
read_users users (l ∷ ls) =
    line_tokens l >>= λ ts. add_user users ts >>= λ users'. read_users users' ls

-- -1 for a file that is absent, or what the file sets. Where the result is `none` the code, which
-- checks no length, writes past an array.
pub data Loaded {ℓ} (A : Type ℓ) : Type ℓ where
  missing : Loaded A
  loaded : A → Loaded A

unfoldable pub init_server_config : Option Bytes → Option (Loaded (List User))
unfolding read_users
init_server_config none = some missing
init_server_config (some content) =
    read_users [] (fgets_all 128 content) >>= λ users. some (loaded users)

unfoldable pub add_host : ClientConfig → Bytes → Option ClientConfig
add_host conf address = do
  ip ← copy 16 (split_first address b':').0
  port ← copy 8 (split_first address b':').1
  hosts ← append_32 conf.hosts (record { ip = ip; port = atoi_unsigned 16 port })
  some (record conf { hosts = hosts })

-- `if (n >= 3)`
abbrev pub set_server : ClientConfig → List Bytes → Option ClientConfig
set_server conf [] = some conf
set_server conf (address ∷ rest) = add_host conf address

-- The ladder over `p[0]`
unfoldable pub setting : ClientConfig → Bytes → Bytes → List Bytes → Option ClientConfig
unfolding add_host
setting conf name value rest =
    if str_eq name (codes "username")
    then (copy 16 value >>= λ v. some (record conf { username = v }))
    else if str_eq name (codes "password")
    then (copy 16 value >>= λ v. some (record conf { password = v }))
    else if str_eq name (codes "server")
    then set_server conf rest
    else some conf

unfoldable pub apply_setting : ClientConfig → List Bytes → Option ClientConfig
unfolding setting
apply_setting conf [] = some conf
apply_setting conf (name ∷ []) = some conf
apply_setting conf (name ∷ value ∷ rest) = setting conf (lower (strip name b':')) value rest

unfoldable pub read_settings : ClientConfig → List Bytes → Option ClientConfig
unfolding line_tokens apply_setting
read_settings conf [] = some conf
read_settings conf (l ∷ ls) =
    line_tokens l >>= λ ts. apply_setting conf ts >>= λ conf'. read_settings conf' ls

unfoldable pub init_client_config : Option Bytes → Option (Loaded ClientConfig)
unfolding read_settings
init_client_config none = some missing
init_client_config (some content) =
    read_settings (record { hosts = []; username = []; password = [] }) (fgets_all 128 content)
    >>= λ conf. some (loaded conf)
