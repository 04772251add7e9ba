-- ===== src/Dfc/Server/Steps.antt =====
-- What a run of the server's loop can change, for any requests and any packets.
use network_system_hw.Base.{
  ◌≡◌, ◌⊎◌, ◌==◌, ◌&&◌, ◌||◌, inl, inr, refl, sym, subst, Bool, true, false, Bool-cases, List, [],
  ◌∷◌, ◌++◌, Option, none, some, Ensures, Ensures-bind, Ensures-some, Bytes, codes, str_eq,
  str_eq_iff, copy-eq-some, some-injective,
}
use network_system_hw.Dfc.Client.{Answered}
use network_system_hw.Dfc.Config.{User}
use network_system_hw.Dfc.Packet.{username_of, password_of, msg_of, buffer_of}
use network_system_hw.Dfc.Partition.{Directory, put_file}
use network_system_hw.Dfc.Server.{
  set_path, Disk, Action, next_request, send_content, receive_to, connection_handler,
}
use network_system_hw.Dfc.Server.Access.{Permits, connection_handler-Permits}
use network_system_hw.Dfc.Server.Loop.{Serving, begin, keep, serve, store_file, stored}
use network_system_hw.Dfc.Server.Users.{FirstHas, check_user_iff}
use network_system_hw.Dfc.Transfer.{send_file, receive_file}

-- The path begins with "..", or with "../".
abbrev begins_parent : Bytes → Bool
begins_parent [] = false
begins_parent (c ∷ []) = false
begins_parent (c ∷ d ∷ []) = c == b'.' && d == b'.'
begins_parent (c ∷ d ∷ e ∷ s) = c == b'.' && (d == b'.' && e == b'/')

abbrev climbs_behind : Bytes → Bool
climbs_behind [] = false
climbs_behind (c ∷ s) = (c == b'/' && begins_parent s) || climbs_behind s

-- One of the components of the path is "..".
abbrev pub climbs : Bytes → Bool
climbs s = begins_parent s || climbs_behind s

-- The path that a packet's user and operand make has no component "..". The server does not look.
abbrev pub Descends : Bytes → Type 0
Descends q = climbs (username_of q ++ (b'/' ∷ msg_of q)) ≡ false

-- A path below the directory of a user that the server knows: without a component ".." it does not
-- lead out of it.
pub record IsOwned (users : List User) (path : Bytes) : Type 0 where
  pub name : Bytes
  pub password : Bytes
  pub operand : Bytes
  pub known : FirstHas name password users
  pub below : path ≡ codes "./" ++ (name ++ (b'/' ∷ operand))
  pub inside : climbs (name ++ (b'/' ∷ operand)) ≡ false

-- The states that packets of files, and requests whose paths do not climb, lead to.
pub data Steps (users : List User) (fs : Directory → Disk) (s : Serving) : Serving → Type 0 where
  start : Steps users fs s s
  asked :
      {t : Serving} {a : Answered Serving} (q : Bytes)
      → Steps users fs s t
      → Descends (buffer_of q)
      → serve users fs t q ≡ some a
      → Steps users fs s a.state
  sent :
      {t u : Serving} (ps : List Bytes)
      → Steps users fs s t
      → store_file t ps ≡ some u
      → Steps users fs s u

-- No file but those of the users has changed, and none is about to.
pub record IsConfined (users : List User) (s t : Serving) : Type 0 where
  pub files_kept : (path : Bytes) → IsOwned users path ⊎ (t.files path ≡ s.files path)
  pub receives_owned : (path : Bytes) → t.receives ≡ some path → IsOwned users path

Permits-IsOwned :
    (users : List User) (fs : Disk) (q path : Bytes)
    → Descends q
    → Permits users fs q (receive_to path)
    → IsOwned users path
unfolding set_path
Permits-IsOwned users fs q path descends (known, _, at, _) = record {
  name = username_of q;
  password = password_of q;
  operand = msg_of q;
  known = (check_user_iff users (username_of q) (password_of q)).0 known;
  below = (copy-eq-some 256 _ at).0;
  inside = descends;
}

put_file-kept :
    (users : List User) (s : Directory) (files : Directory) (name content : Bytes)
    → IsOwned users name
    → ((path : Bytes) → IsOwned users path ⊎ (files path ≡ s path))
    → (path : Bytes) → IsOwned users path ⊎ (put_file files name content path ≡ s path)
put_file-kept users s files name content owned kept path = elim (Bool-cases (str_eq path name)) [
  | inl same ↦ inl (subst (IsOwned users) (sym ((str_eq_iff path name).0 same)) owned)
  | inr apart ↦ rw apart (kept path)
]

begin-IsConfined :
    (users : List User) (disk : Disk) (s t : Serving) (q reply : Bytes) (act : Action)
    → IsConfined users s t
    → Descends q
    → Permits users disk q act
    → Ensures (λ a. IsConfined users s a.state) (begin t.files reply act)
begin-IsConfined users disk s t q reply next_request c d p = record {
  files_kept = c.files_kept;
  receives_owned = λ path e. cc;
}
begin-IsConfined users disk s t q reply (send_content path content) c d p =
    Ensures-bind (λ (a : Answered Serving). IsConfined users s a.state)
      (send_file (λ i. true) (some content) 0 none none) _
      λ ps _. record { files_kept = c.files_kept; receives_owned = λ path e. cc }
begin-IsConfined users disk s t q reply (receive_to path) c d p =
    let owned = Permits-IsOwned users disk q path d p in
    record {
      files_kept = put_file-kept users s.files t.files path [] owned c.files_kept;
      receives_owned = λ other e. subst (IsOwned users) (some-injective _ _ e) owned;
    }

pub serve-IsConfined :
    (users : List User) (fs : Directory → Disk) (s t : Serving) (q : Bytes)
    → IsConfined users s t
    → Descends (buffer_of q)
    → Ensures (λ a. IsConfined users s a.state) (serve users fs t q)
unfolding serve
serve-IsConfined users fs s t q c d =
    Ensures-bind (λ (a : Answered Serving). IsConfined users s a.state)
      (connection_handler users (fs t.files) true (buffer_of q)) _
      λ a e.
        begin-IsConfined users (fs t.files) s t (buffer_of q) a.reply a.action c d
          (connection_handler-Permits users (fs t.files) true (buffer_of q) a e)

pub store_file-IsConfined :
    (users : List User) (s t : Serving) (ps : List Bytes)
    → IsConfined users s t
    → Ensures (IsConfined users s) (store_file t ps)
unfolding store_file
store_file-IsConfined users s t ps c = stores t.receives c.receives_owned
  where
    stores :
        (o : Option Bytes)
        → ((path : Bytes) → o ≡ some path → IsOwned users path)
        → Ensures (IsConfined users s) (keep t ps o)
    stores none owned = tt
    stores (some path) owned = Ensures-bind (IsConfined users s) (receive_file none ps) _ λ r _.
        record {
          files_kept =
              put_file-kept users s.files t.files path (stored r) (owned path refl) c.files_kept;
          receives_owned = λ other e. cc;
        }

-- Whatever requests and packets reach the server, known users or not, as long as none makes it write
-- past an array and no request's user name and operand make a path with a component "..", it changes
-- no file but those below "./", the name of a user of its configuration, and "/", by paths without
-- such a component, which do not lead out of there. Links in the file system are left out.
pub Steps-IsConfined :
    (users : List User) (fs : Directory → Disk) (s t : Serving)
    → s.receives ≡ none
    → Steps users fs s t
    → IsConfined users s t
Steps-IsConfined users fs s t idle start = record {
  files_kept = λ path. inr refl;
  receives_owned = λ path e. cc;
}
Steps-IsConfined users fs s t idle (asked {t = u} {a} q steps d e) =
    Ensures-some (λ (b : Answered Serving). IsConfined users s b.state) (serve users fs u q)
      (serve-IsConfined users fs s u q (Steps-IsConfined users fs s u idle steps) d) e
Steps-IsConfined users fs s t idle (sent {t = u} ps steps e) =
    Ensures-some (IsConfined users s) (store_file u ps)
      (store_file-IsConfined users s u ps (Steps-IsConfined users fs s u idle steps)) e
