-- ===== src/Dfc/Session/Startup.antt =====
-- `main` of dfc/client.c: its start, with `open_clientfd` of dfc/util.c, and its loop over lines.
use network_system_hw.Base.{
  ◌≡◌, inl, inr, refl, sym, ap, ◌∙◌, Bool, true, false, List, [], ◌∷◌, Option, none, some,
  some-injective, if◌then◌else◌, ◌>>=◌, >>=-eq-some, Ensures, Ensures-bind, Ensures-some, All,
  length, str_eq, suc, map, Bytes, codes, ℕ,
}
use network_system_hw.Strutil.{lower}
use network_system_hw.Dfc.Client.{Peer}
use network_system_hw.Dfc.Config.{Host, ClientConfig, Loaded, missing, loaded, init_client_config}
use network_system_hw.Dfc.Config.Bounds.{ClientFits, init_client_config_bounds}
use network_system_hw.Dfc.Partition.{Directory}
use network_system_hw.Dfc.Partition.Names.{IsApart}
use network_system_hw.Dfc.Session.{Session, words, word, command_round}
use network_system_hw.Dfc.Session.Commands.{command_round-changes}

-- Whether `socket` succeeds, whether `gethostbyname` knows a name, and what `connect` leads to.
pub record Network {ℓ} (S : Type ℓ) : Type ℓ where
  pub socket : Bool
  pub gethostbyname : Bytes → Bool
  pub connect : Bytes → ℕ → Option S

-- `none` is -1 or -2.
unfoldable pub open_clientfd {ℓ} : {S : Type ℓ} → Network S → Bytes → ℕ → Option S
open_clientfd net hostname port =
    if net.socket
    then (if net.gethostbyname hostname then net.connect hostname port else none)
    else none

abbrev is_open {ℓ} : {S : Type ℓ} → Option S → Bool
is_open none = false
is_open (some s) = true

-- `unconnected` is what the threads find behind a socket of -1.
abbrev opened_or {ℓ} : {S : Type ℓ} → S → Option S → S
opened_or unconnected none = unconnected
opened_or unconnected (some s) = s

abbrev reach {ℓ} : {S : Type ℓ} → Network S → Host → Option S
reach net host = open_clientfd net host.ip host.port

-- The loop over `conf.hosts`, and a session in front of its first line.
unfoldable pub open_all {ℓ} : {S : Type ℓ} → Network S → S → Directory → List Host → Session S
open_all net unconnected files hosts = record {
  hosts = map (λ h. is_open (reach net h)) hosts;
  peers = map (λ h. opened_or unconnected (reach net h)) hosts;
  files = files;
  printed = [];
  pointed = false;
}

-- `exit` with its status, or the loop.
pub data Start {ℓ} (S : Type ℓ) : Type ℓ where
  exited : ℕ → Start S
  running : ClientConfig → Session S → Start S

abbrev configured {ℓ} : {S : Type ℓ} → Network S → S → Directory → Loaded ClientConfig → Start S
configured net unconnected files missing = exited 1
configured net unconnected files (loaded conf) =
    running conf (open_all net unconnected files conf.hosts)

-- The configuration file is absent, or its bytes.
unfoldable pub start_up {ℓ} :
    {S : Type ℓ} → Network S → S → Directory → Option Bytes → Option (Start S)
unfolding open_all
start_up net unconnected files content =
    init_client_config content >>= λ l. some (configured net unconnected files l)

module _ {S : Type 0} (conf : ClientConfig) (peer : Peer S) (creates : Bytes → Bool) (stale : Bytes)
    (digest : Bytes → Bytes) where
  -- `while (1)`, over the lines of the input.
  unfoldable pub main_loop : Session S → List Bytes → Option (Session S)
  main_loop st [] = some st
  main_loop st (l ∷ ls) =
      command_round conf peer creates stale digest st l >>= λ st'. main_loop st' ls

-- The line does not ask for a file whose rounds write `q`.
abbrev pub Spares : Bytes → Bytes → Type 0
Spares q line =
    (p : List Bytes)
    → words line ≡ some p
    → lower (word 0 p) ≡ codes "get"
    → IsApart (word 1 p) q × (str_eq q (word 1 p) ≡ false)

length-map {ℓ κ} :
    {A : Type ℓ} {B : Type κ} (f : A → B) (xs : List A) → length (map f xs) ≡ length xs
length-map f [] = refl
length-map f (x ∷ xs) = ap suc (length-map f xs)

-- What the loop is started with
record Begins {ℓ} {S : Type ℓ} (files : Directory) (conf : ClientConfig) (st : Session S)
    : Type ℓ where
  fits : ClientFits conf
  marked : length st.hosts ≡ length conf.hosts
  connected : length st.peers ≡ length conf.hosts
  same : st.files ≡ files

abbrev Starts : {S : Type 0} → Directory → Start S → Type 0
Starts files (exited status) = Unit
Starts files (running conf st) = Begins files conf st

module _ {S : Type 0} (net : Network S) (unconnected : S) (files : Directory) where
  configured-Starts :
      (content : Bytes) (l : Loaded ClientConfig)
      → init_client_config (some content) ≡ some l
      → Starts files (configured net unconnected files l)
  unfolding open_all
  configured-Starts content missing e = tt
  configured-Starts content (loaded conf) e = record {
    fits = init_client_config_bounds content conf e;
    marked = length-map _ conf.hosts;
    connected = length-map _ conf.hosts;
    same = refl;
  }

  init_client_config-fit :
      (content : Option Bytes) (l : Loaded ClientConfig)
      → init_client_config content ≡ some l
      → Starts files (configured net unconnected files l)
  unfolding init_client_config
  init_client_config-fit none missing e = tt
  init_client_config-fit none (loaded conf) e = absurd cc
  init_client_config-fit (some content) l e = configured-Starts content l e

  start_up-Starts :
      (content : Option Bytes) → Ensures (Starts files) (start_up net unconnected files content)
  unfolding start_up
  start_up-Starts content =
      Ensures-bind (Starts files) (init_client_config content) _
        λ l e. init_client_config-fit content l e

module _ {S : Type 0} (conf : ClientConfig) (peer : Peer S) (creates : Bytes → Bool) (stale : Bytes)
    (digest : Bytes → Bytes) where
  command_round-Spares :
      (q : Bytes) (st st' : Session S) (line : Bytes)
      → Spares q line
      → command_round conf peer creates stale digest st line ≡ some st'
      → st'.files q ≡ st.files q
  unfolding command_round
  command_round-Spares q st st' line spares e =
      let (p, read, rest) = >>=-eq-some (words line) _ e in
      elim (command_round-changes conf peer creates stale digest st st' line p read e) [
        | inl same ↦ ap (λ f. f q) same
        | inr (is_get, kept) ↦ let apart = spares p read is_get in kept q apart.0 apart.1
      ]

  main_loop-Spares :
      (q : Bytes) (st st' : Session S) (ls : List Bytes)
      → All (Spares q) ls
      → main_loop conf peer creates stale digest st ls ≡ some st'
      → st'.files q ≡ st.files q
  unfolding main_loop
  main_loop-Spares q st st' [] a e = ap (λ s. s.files q) (sym (some-injective _ _ e))
  main_loop-Spares q st st' (l ∷ ls) a e =
      let (mid, first, rest) =
        >>=-eq-some (command_round conf peer creates stale digest st l) _ e in
      main_loop-Spares q mid st' ls a.1 rest ∙ command_round-Spares q st mid l a.0 first

  -- If reading the configuration file writes past no array, which nothing in the code checks, a
  -- client that comes to its loop has a mark and a socket for each of its servers, which are at most
  -- 32, every address has less than 16 bytes and every port is below 2 ^ 16, and the name and the
  -- password have less than 16 bytes. Whatever lines follow and whatever the servers answer, as long
  -- as no line makes it write past an array, its file `q` stays as it was unless a line gets `q` or
  -- a file of which a part is named `q`.
  pub start_up-main_loop :
      (net : Network S) (unconnected : S) (files : Directory) (content : Option Bytes)
      (st st' : Session S) (ls : List Bytes) (q : Bytes)
      → start_up net unconnected files content ≡ some (running conf st)
      → All (Spares q) ls
      → main_loop conf peer creates stale digest st ls ≡ some st'
      → ClientFits conf
        × (length st.hosts ≡ length conf.hosts)
        × (length st.peers ≡ length conf.hosts)
        × (st'.files q ≡ files q)
  start_up-main_loop net unconnected files content st st' ls q starts spared runs =
      let b =
        Ensures-some (Starts files) (start_up net unconnected files content)
          (start_up-Starts net unconnected files content) starts in
      (
        b.fits,
        b.marked,
        b.connected,
        main_loop-Spares q st st' ls spared runs ∙ ap (λ f. f q) b.same,
      )
