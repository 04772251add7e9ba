-- ===== src/Tests/Sessions.antt =====
-- The command loop of dfc/client.c with three servers.
use network_system_hw.Base.{
  ℕ, zero, suc, ◌≡◌, ◌<◌, refl, Bool, true, false, List, [], ◌∷◌, Option, none, some, arith, inl,
  inr, Bytes, codes, str_eq, decimal, digits_from, length, if◌then◌else◌, ltb, ◌↔◌, split_last,
  atoi, digits_value,
}
use network_system_hw.Strutil.{strip, remove_endl, tokens, copy_all, lower}
use network_system_hw.Dfc.Client.Paths.{Fits, place}
use network_system_hw.Dfc.Config.{User, Host, ClientConfig, split}
use network_system_hw.Dfc.Client.{code, result}
use network_system_hw.Dfc.Listing.{Row, set_bit, count_parts, listing}
use network_system_hw.Dfc.Listing.Counts.{is_listed}
use network_system_hw.Dfc.Listing.Complete.{IsRow, count_parts_complete}
use network_system_hw.Dfc.Packet.{cmd_put}
use network_system_hw.Dfc.Partition.{Directory, parse_partition_name}
use network_system_hw.Dfc.Partition.Names.{IsApart, part_name}
use network_system_hw.Dfc.Placement.{Parts, threads, Transfers, up}
use network_system_hw.Dfc.Server.{Stat, makes_dir, check_user, Disk}
use network_system_hw.Dfc.Server.Loop.{Serving, server}
use network_system_hw.Dfc.Server.Replies.{IsHonest}
use network_system_hw.Dfc.Session.{Session, words, command_round}
use network_system_hw.Dfc.Session.RoundTrip.{Asks, command_round-get_put}

abbrev users : List User
users = record { username = codes "bob"; password = codes "pw" } ∷ []

abbrev host : Host
host = record { ip = codes "1.2.3.4"; port = 80 }

abbrev conf : ClientConfig
conf = record { hosts = host ∷ host ∷ host ∷ []; username = codes "bob"; password = codes "pw" }

abbrev fs : Directory → Disk
fs files = record {
  stat = λ path. Stat.directory;
  made = λ path. true;
  entries = λ path. [];
  open_read = files;
  open_write = λ path. true;
}

abbrev empty : Serving
empty = record { files = λ q. none; receives = none }

abbrev all_up : Session Serving
all_up = record {
  hosts = true ∷ true ∷ true ∷ [];
  peers = empty ∷ empty ∷ empty ∷ [];
  files = λ q. if str_eq q (codes "h") then some (codes "hello") else none;
  printed = [];
  pointed = false;
}

abbrev later : List Bool
later = true ∷ false ∷ true ∷ []

abbrev pair : ℕ → ℕ → Option Parts
pair i j = some (record { first = some i; second = j })

abbrev stored : List (Option Parts)
stored = pair 1 2 ∷ pair 2 0 ∷ pair 0 1 ∷ []

sizes : (k : ℕ) → k < 3 → length (part_name (codes "h") k) < 128
unfolding decimal digits_from
sizes zero lt = omega arith
sizes (suc zero) lt = omega arith
sizes (suc (suc zero)) lt = omega arith
sizes (suc (suc (suc k))) lt = absurd (omega arith)

places : (k : ℕ) → k < 3 → length (place conf (codes "d") (codes "h") k) < 256
unfolding decimal digits_from
places zero lt = omega arith
places (suc zero) lt = omega arith
places (suc (suc zero)) lt = omega arith
places (suc (suc (suc k))) lt = absurd (omega arith)

fits : Fits conf (codes "d") (codes "h")
fits = record {
  username_fits = (refl, omega arith);
  password_fits = (refl, omega arith);
  password_given = omega arith;
  path_clean = refl;
  filename_clean = refl;
  names_fit = sizes;
  places_fit = places;
}

kept : (i : ℕ) → up later i ≡ true → up all_up.hosts i ≡ true
kept zero e = refl
kept (suc zero) e = refl
kept (suc (suc zero)) e = refl
kept (suc (suc (suc i))) e = cc

alive : (k : ℕ) → k < 3 → (s : ℕ) × Transfers stored s k × (up later s ≡ true)
alive zero lt = (2, (_, refl, inl refl), refl)
alive (suc zero) lt = (0, (_, refl, inl refl), refl)
alive (suc (suc zero)) lt = (0, (_, refl, inr refl), refl)
alive (suc (suc (suc k))) lt = absurd (omega arith)

put-Asks : Asks (codes "PUT h d\n") (codes "put") (codes "h") (codes "d")
unfolding words split strip remove_endl tokens copy_all lower
put-Asks = (_, _, refl, refl, refl)

get-Asks : Asks (codes "  get h d") (codes "get") (codes "h") (codes "d")
unfolding words split strip remove_endl tokens copy_all lower
get-Asks = (_, _, refl, refl, refl)

started_put : threads 2 cmd_put all_up.hosts ≡ some stored
unfolding threads
started_put = refl

known : check_user users (codes "bob") (codes "pw") ≡ true
unfolding check_user str_eq
known = refl

honest : IsHonest fs
unfolding makes_dir
honest = record { makes = λ s path. refl; reads = λ s path. refl; writes = λ s path. refl }

has_hello : all_up.files (codes "h") ≡ some (codes "hello")
unfolding str_eq
has_hello = refl

command_round-get_put_example :
    (st1 : Session Serving) × (command_round conf
        (server users fs)
        (λ name. true)
        []
        (λ s. s)
        all_up
        (codes "PUT h d\n")
      ≡ some st1)
    × ((st2 : Session Serving)
        → st2.peers ≡ st1.peers
        → st2.hosts ≡ later
        → (st3 : Session Serving) × (command_round conf
              (server users fs)
              (λ name. true)
              []
              (λ s. s)
              st2
              (codes "  get h d")
            ≡ some st3)
          × (st3.hosts ≡ later)
          × (st3.files (codes "h") ≡ some (codes "hello"))
          × ((q : Bytes)
              → IsApart (codes "h") q
              → str_eq q (codes "h") ≡ false
              → st3.files q ≡ st2.files q))
command_round-get_put_example =
    command_round-get_put conf users fs honest known (λ name. true) (λ name. refl) [] (λ s. s)
      (codes "d") (codes "h") (codes "hello") fits (omega arith) (omega arith)
      (omega arith, (omega arith, (omega arith, (omega arith, (omega arith, tt))))) all_up
      (codes "PUT h d\n") (codes "  get h d") later stored put-Asks get-Asks refl refl refl
      has_hello started_put kept alive

abbrev listed : List Bytes
listed =
    codes ".h.2" ∷ codes ".g.0" ∷ codes ".h.0" ∷ codes ".h.3" ∷ codes ".h.1" ∷ codes ".h.0" ∷ []

abbrev table : List Row
table = record { name = codes "h"; count = 15 } ∷ record { name = codes "g"; count = 1 } ∷ []

table_run : count_parts [] listed ≡ some table
unfolding count_parts parse_partition_name split_last atoi digits_value set_bit str_eq
table_run = refl

count_parts_complete_example :
    ((r : Row) → IsRow r table → (r.count ≡ 15) ↔ ((k : ℕ) → is_listed listed r.name k ≡ ltb k 4))
    × ((name : Bytes) (k : ℕ)
        → is_listed listed name k ≡ true
        → (r : Row) × IsRow r table × (r.name ≡ name))
count_parts_complete_example = count_parts_complete listed table table_run

listing_run :
    listing
      (result (codes ".h.0\n.h.1\n") ∷ code 1 ∷ result (codes ".h.1\n.h.2\n.h.3\n.g.1\n") ∷ [])
    ≡ some (codes "h" ∷ codes "g [imcomplete]" ∷ [])
unfolding listing split tokens copy_all parse_partition_name split_last atoi digits_value str_eq
    set_bit
listing_run = refl
