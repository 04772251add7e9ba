-- ===== src/Tests/Listings.antt =====
-- A "list" of dfc/client.c with two servers.
use network_system_hw.Base.{
  ℕ, ◌≡◌, ◌↔◌, refl, true, false, List, [], ◌∷◌, ◌++◌, map, Option, none, some, arith, ltb, Bytes,
  codes, str_eq, split_last, atoi, digits_value,
}
use network_system_hw.Strutil.{strip, remove_endl, tokens, copy_all, lower}
use network_system_hw.Dfc.Config.{User, Host, ClientConfig, split}
use network_system_hw.Dfc.Listing.{Row, set_bit, count_parts, show_row}
use network_system_hw.Dfc.Listing.Complete.{IsRow}
use network_system_hw.Dfc.Listing.Counts.{is_listed}
use network_system_hw.Dfc.Packet.{cmd_ls}
use network_system_hw.Dfc.Partition.{Directory, parse_partition_name}
use network_system_hw.Dfc.Placement.{Parts, threads}
use network_system_hw.Dfc.Server.{Stat, makes_dir, check_user, set_path, Entry, Disk}
use network_system_hw.Dfc.Server.Loop.{Serving, server}
use network_system_hw.Dfc.Session.{Session, words, command_round}
use network_system_hw.Dfc.Session.Lists.{AllListable}
use network_system_hw.Dfc.Session.Shows.{command_round-list}

abbrev users : List User
users = record { username = codes "bob"; password = codes "pw" } ∷ []

abbrev host : Host
host = record { ip = codes "1.2.3.4"; port = 80 }

abbrev conf : ClientConfig
conf = record { hosts = host ∷ host ∷ []; username = codes "bob"; password = codes "pw" }

abbrev file : Bytes → Entry
file name = record { d_name = name; is_dir = false }

abbrev directory : Bytes → Entry
directory name = record { d_name = name; is_dir = true }

-- What the directory holds with the first server, which has no files, and with the second.
abbrev held : Option Bytes → List Entry
held none = directory (codes ".") ∷ file (codes ".h.0") ∷ file (codes ".h.1") ∷ []
held (some content) = file (codes ".h.2") ∷ file (codes ".g.1") ∷ file (codes ".h.3") ∷ []

abbrev fs : Directory → Disk
fs files = record {
  stat = λ path. Stat.directory;
  made = λ path. true;
  entries = λ path. held (files path);
  open_read = files;
  open_write = λ path. true;
}

abbrev session : Session Serving
session = record {
  hosts = true ∷ true ∷ [];
  peers =
      record { files = λ q. none; receives = none }
      ∷ record { files = λ q. some []; receives = none }
      ∷ [];
  files = λ q. none;
  printed = [];
  pointed = false;
}

abbrev assigned : List (Option Parts)
assigned =
    some (record { first = none; second = 1 }) ∷ some (record { first = none; second = 0 }) ∷ []

abbrev names : List Bytes
names = codes ".h.0" ∷ codes ".h.1" ∷ codes ".h.2" ∷ codes ".g.1" ∷ codes ".h.3" ∷ []

abbrev rows : List Row
rows = record { name = codes "h"; count = 15 } ∷ record { name = codes "g"; count = 2 } ∷ []

known : check_user users (codes "bob") (codes "pw") ≡ true
unfolding check_user str_eq
known = refl

list_words : words (codes "LIST d\n") ≡ some (codes "LIST" ∷ codes "d" ∷ [])
unfolding words split strip remove_endl tokens copy_all
list_words = refl

is_list : lower (codes "LIST") ≡ codes "list"
unfolding lower
is_list = refl

at : set_path (codes "bob") (codes "d") ≡ some (codes "./bob/d")
unfolding set_path
at = refl

list_threads : threads 0 cmd_ls session.hosts ≡ some assigned
unfolding threads
list_threads = refl

counted : count_parts [] names ≡ some rows
unfolding count_parts parse_partition_name split_last atoi digits_value set_bit str_eq
counted = refl

makes : (s : Directory) (path : Bytes) → makes_dir (fs s) path ≡ true
unfolding makes_dir
makes s path = refl

listable :
    AllListable conf users fs known makes (codes "d") (codes "./bob/d") at assigned session.peers
unfolding str_eq
listable = (
  record {
    names = (
      record { one_line = refl; clean = refl; given = omega arith; short = omega arith },
      (record { one_line = refl; clean = refl; given = omega arith; short = omega arith }, tt),
    );
    fits_reply = omega arith;
  },
  (
    record {
      names = (
        record { one_line = refl; clean = refl; given = omega arith; short = omega arith },
        (
          record { one_line = refl; clean = refl; given = omega arith; short = omega arith },
          (record { one_line = refl; clean = refl; given = omega arith; short = omega arith }, tt),
        ),
      );
      fits_reply = omega arith;
    },
    tt,
  ),
)

command_round-list_example :
    (st : Session Serving) × (command_round conf
        (server users fs)
        (λ name. true)
        []
        (λ s. s)
        session
        (codes "LIST d\n")
      ≡ some st)
    × (st.printed ≡ session.printed ++ map show_row rows)
    × (st.files ≡ session.files)
    × (st.hosts ≡ session.hosts)
    × ((r : Row)
        → IsRow r rows
        → (show_row r ≡ r.name) ↔ ((k : ℕ) → is_listed names r.name k ≡ ltb k 4))
    × ((name : Bytes) (k : ℕ)
        → is_listed names name k ≡ true
        → (r : Row) × IsRow r rows × (r.name ≡ name))
unfolding str_eq
command_round-list_example =
    command_round-list conf users fs known makes (codes "d") (codes "./bob/d") at (λ name. true) []
      (λ s. s) (refl, omega arith) (refl, omega arith) session (codes "LIST d\n") (codes "LIST") []
      assigned rows list_words is_list refl (omega arith) list_threads refl listable (omega arith)
      counted
