-- ===== src/Dfc/Config/Bounds.antt =====
-- What the two configuration files leave, whatever they hold.
use network_system_hw.Base.{
  ◌^◌, ◌≤◌, ◌<◌, ◌≡◌, List, [], ◌∷◌, ◌++◌, some, arith, Ensures, Ensures-bind, Ensures-if,
  Ensures-some, ltb, ltb→lt, length, length-append, All, Bytes, codes, str_eq, copy, copy-eq-some,
  ap,
}
use network_system_hw.Strutil.{strip, lower, split_first}
use network_system_hw.HttpServer.Config.{atoi_unsigned, fgets_all}
use network_system_hw.HttpServer.Config.Bounds.{atoi_unsigned-lt16}
use network_system_hw.Dfc.Config.{
  User, Host, ClientConfig, append_32, line_tokens, add_user, read_users, Loaded, missing, loaded,
  init_server_config, add_host, set_server, setting, apply_setting, read_settings,
  init_client_config,
}

-- A text in an array of 16 bytes, with its NUL.
abbrev pub Fits : Bytes → Type 0
Fits s = length s < 16

abbrev pub UserFits : User → Type 0
UserFits u = Fits u.username × Fits u.password

abbrev pub UsersFit : List User → Type 0
UsersFit users = (length users ≤ 32) × All UserFits users

All-concat {ℓ κ} :
    {A : Type ℓ} (P : A → Type κ) (xs : List A) (x : A) → All P xs → P x → All P (xs ++ (x ∷ []))
All-concat P [] x a p = (p, tt)
All-concat P (y ∷ xs) x a p = (a.0, All-concat P xs x a.1 p)

append_32-All {ℓ κ} :
    {A : Type ℓ} (P : A → Type κ) (xs : List A) (x : A)
    → All P xs
    → P x
    → Ensures (λ ys. (length ys ≤ 32) × All P ys) (append_32 xs x)
append_32-All P xs x a p =
    Ensures-if (λ ys. (length ys ≤ 32) × All P ys) (ltb (length xs) 32) _ _
      (λ room. (omega (arith, ltb→lt _ _ room, length-append xs (x ∷ [])), All-concat P xs x a p))
      (λ full. tt)

copied : (s : Bytes) {t : Bytes} → copy 16 s ≡ some t → Fits t
copied s {t} e = let c = copy-eq-some 16 s e in omega (arith, c.1, ap length c.0)

add_user-Fits :
    (users : List User) (ts : List Bytes) → UsersFit users → Ensures UsersFit (add_user users ts)
unfolding add_user
add_user-Fits users [] f = f
add_user-Fits users (name ∷ []) f = f
add_user-Fits users (name ∷ password ∷ rest) f = Ensures-bind UsersFit (copy 16 name) _ λ n en.
    Ensures-bind UsersFit (copy 16 password) _ λ p ep.
      append_32-All UserFits users (record { username = n; password = p }) f.1
        (copied name en, copied password ep)

read_users-Fits :
    (users : List User) (ls : List Bytes) → UsersFit users → Ensures UsersFit (read_users users ls)
unfolding read_users
read_users-Fits users [] f = f
read_users-Fits users (l ∷ ls) f = Ensures-bind UsersFit (line_tokens l) _ λ ts _.
    Ensures-bind UsersFit (add_user users ts) _
      λ users' e. read_users-Fits users' ls (Ensures-some UsersFit _ (add_user-Fits users ts f) e)

-- If `init_server_config` reads a file without a write past an array, it leaves at most 32 users,
-- each with a name and a password of less than 16 bytes.
pub init_server_config_bounds :
    (content : Bytes) (users : List User)
    → init_server_config (some content) ≡ some (loaded users)
    → UsersFit users
unfolding init_server_config
init_server_config_bounds content users e =
    Ensures-some Fine _
      (Ensures-bind Fine (read_users [] (fgets_all 128 content)) _ λ us got.
        Ensures-some UsersFit _ (read_users-Fits [] (fgets_all 128 content) (omega arith, tt)) got)
      e
  where
    Fine : Loaded (List User) → Type 0
    Fine missing = Unit
    Fine (loaded us) = UsersFit us

abbrev pub HostFits : Host → Type 0
HostFits host = Fits host.ip × (host.port < 2 ^ 16)

pub record ClientFits (conf : ClientConfig) : Type 0 where
  pub hosts_fit : (length conf.hosts ≤ 32) × All HostFits conf.hosts
  pub username_fits : Fits conf.username
  pub password_fits : Fits conf.password

add_host-Fits :
    (conf : ClientConfig) (address : Bytes)
    → ClientFits conf
    → Ensures ClientFits (add_host conf address)
unfolding add_host
add_host-Fits conf address f =
    Ensures-bind ClientFits (copy 16 (split_first address b':').0) _ λ ip ei.
      Ensures-bind ClientFits (copy 8 (split_first address b':').1) _ λ port _.
        let host : Host = record { ip = ip; port = atoi_unsigned 16 port } in
        Ensures-bind ClientFits (append_32 conf.hosts host) _ λ hosts eh. record {
          hosts_fit =
              Ensures-some (λ ys. (length ys ≤ 32) × All HostFits ys) _
                (append_32-All HostFits conf.hosts host f.hosts_fit.1
                  (copied (split_first address b':').0 ei, atoi_unsigned-lt16 port))
                eh;
          username_fits = f.username_fits;
          password_fits = f.password_fits;
        }

setting-Fits :
    (conf : ClientConfig) (name value : Bytes) (rest : List Bytes)
    → ClientFits conf
    → Ensures ClientFits (setting conf name value rest)
unfolding setting
setting-Fits conf name value rest f =
    Ensures-if ClientFits (str_eq name (codes "username")) _ _
      (λ _. Ensures-bind ClientFits (copy 16 value) _ λ v e. record {
        hosts_fit = f.hosts_fit;
        username_fits = copied value e;
        password_fits = f.password_fits;
      })
      λ _.
        Ensures-if ClientFits (str_eq name (codes "password")) _ _
          (λ _. Ensures-bind ClientFits (copy 16 value) _ λ v e. record {
            hosts_fit = f.hosts_fit;
            username_fits = f.username_fits;
            password_fits = copied value e;
          })
          λ _. Ensures-if ClientFits (str_eq name (codes "server")) _ _ (λ _. served rest) (λ _. f)
  where
    served : (ts : List Bytes) → Ensures ClientFits (set_server conf ts)
    served [] = f
    served (address ∷ ts) = add_host-Fits conf address f

apply_setting-Fits :
    (conf : ClientConfig) (ts : List Bytes)
    → ClientFits conf
    → Ensures ClientFits (apply_setting conf ts)
unfolding apply_setting
apply_setting-Fits conf [] f = f
apply_setting-Fits conf (name ∷ []) f = f
apply_setting-Fits conf (name ∷ value ∷ rest) f =
    setting-Fits conf (lower (strip name b':')) value rest f

read_settings-Fits :
    (conf : ClientConfig) (ls : List Bytes)
    → ClientFits conf
    → Ensures ClientFits (read_settings conf ls)
unfolding read_settings
read_settings-Fits conf [] f = f
read_settings-Fits conf (l ∷ ls) f = Ensures-bind ClientFits (line_tokens l) _ λ ts _.
    Ensures-bind ClientFits (apply_setting conf ts) _ λ conf' e.
      read_settings-Fits conf' ls (Ensures-some ClientFits _ (apply_setting-Fits conf ts f) e)

-- If `init_client_config` reads a file without a write past an array, it leaves at most 32
-- servers, each with an address of less than 16 bytes and a port below 2 ^ 16, and a name and a
-- password of less than 16 bytes.
pub init_client_config_bounds :
    (content : Bytes) (conf : ClientConfig)
    → init_client_config (some content) ≡ some (loaded conf)
    → ClientFits conf
unfolding init_client_config
init_client_config_bounds content conf e =
    Ensures-some Fine _
      (Ensures-bind Fine (read_settings empty (fgets_all 128 content)) _ λ c got.
        Ensures-some ClientFits _ (read_settings-Fits empty (fgets_all 128 content) start) got)
      e
  where
    empty : ClientConfig
    empty = record { hosts = []; username = []; password = [] }

    start : ClientFits empty
    start = record {
      hosts_fit = (omega arith, tt);
      username_fits = omega arith;
      password_fits = omega arith;
    }

    Fine : Loaded ClientConfig → Type 0
    Fine missing = Unit
    Fine (loaded c) = ClientFits c
