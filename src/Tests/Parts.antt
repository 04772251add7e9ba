-- ===== src/Tests/Parts.antt =====
-- Runs of the parts of dfc/ at concrete inputs.
use network_system_hw.Base.{
  ℕ, zero, suc, ◌≡◌, ◌<◌, refl, Bool, true, false, List, [], ◌∷◌, ◌++◌, Option, none, some, arith,
  if◌then◌else◌, ◌==◌, ◌&&◌, Bytes, codes, str_eq, decimal, digits_from, take, drop, inl, ◌-◌,
}
use network_system_hw.Base.Memory.{zeros, le16, write_at}
use network_system_hw.Dfc.Mask.{mask}
use network_system_hw.Dfc.Packet.Fields.{end_packet}
use network_system_hw.Dfc.Packet.{packet_size, cmd_put, cmd_get}
use network_system_hw.Dfc.Transfer.{send_file, receive_file, finished}
use network_system_hw.Dfc.Transfer.Rounds.{part}
use network_system_hw.Dfc.Transfer.RoundTrip.{receive_file-send_part, fetch-store}
use network_system_hw.Dfc.Partition.{
  set_partition_name, parse_partition_name, merge_partitions, partition,
}
use network_system_hw.Dfc.Partition.Names.{parse_partition_name-set_partition_name}
use network_system_hw.Dfc.Partition.Merge.{merge_partitions-partition}
use network_system_hw.Dfc.Placement.{Parts, threads, Transfers, up}
use network_system_hw.Dfc.Placement.Availability.{threads-Transfers}
use network_system_hw.Dfc.Placement.Retry.{Returns, ended, fetch_rounds, fetch_rounds-ended}

abbrev secret : Option Bytes
secret = some (codes "k1")

part_example :
    (ps : List Bytes) × (send_file (λ i. true) (some (codes "hello")) 1 (some 3) secret
      ≡ some (ps, true))
    × ((ds : List Bytes)
        → receive_file secret (ps ++ ds) ≡ some (finished (part (some 3) (drop 1 (codes "hello")))))
part_example =
    receive_file-send_part secret (omega arith) (λ i. true) (λ i. refl) (codes "hello") 1 (some 3)
      (omega arith) (omega arith, (omega arith, (omega arith, (omega arith, (omega arith, tt)))))

-- One data packet with "hello", brought by two calls of `recv`
abbrev hello : Bytes
hello = 0 ∷ 2 ∷ (zeros 34 ++ (le16 5 ++ (zeros 6 ++ (codes "hello" ++ zeros (packet_size - 49)))))

short_read :
    receive_file none (take 46 hello ∷ drop 46 hello ∷ end_packet ∷ [])
    ≡ some (finished (codes "he" ++ zeros 3))
unfolding receive_file zeros mask write_at
short_read = refl

fetch_example :
    (ps : List Bytes) × (send_file (λ i. true) (some (codes "hello")) 1 (some 3) secret
      ≡ some (ps, true))
    × (stored : Bytes) × ((ds : List Bytes) → receive_file none (ps ++ ds) ≡ some (finished stored))
    × (qs : List Bytes) × (send_file (λ i. true) (some stored) 0 none none ≡ some (qs, true))
    × ((ds : List Bytes)
        → receive_file secret (qs ++ ds) ≡ some (finished (part (some 3) (drop 1 (codes "hello")))))
fetch_example =
    fetch-store secret (omega arith) (λ i. true) (λ i. refl) (codes "hello") 1 (some 3)
      (omega arith) (omega arith, (omega arith, (omega arith, (omega arith, (omega arith, tt)))))

name_run : set_partition_name 128 (codes "a.txt") 12 ≡ some (codes ".a.txt.12")
unfolding set_partition_name decimal digits_from
name_run = refl

name_example : parse_partition_name (codes ".a.txt.12") ≡ some (codes "a.txt", (false, 12))
name_example =
    parse_partition_name-set_partition_name 128 (codes "a.txt") (codes ".a.txt.12") 12 name_run

-- The two parts of "hello" for two servers.
abbrev parts_of_hello : Bytes → Option Bytes
parts_of_hello pname =
    if str_eq pname (codes ".h.0")
    then some (codes "hel")
    else if str_eq pname (codes ".h.1")
    then some (codes "lo")
    else none

parts_kept :
    (k : ℕ)
    → k < 2
    → (pname : Bytes) × (set_partition_name 128 (codes "h") k ≡ some pname)
      × (parts_of_hello pname ≡ some (partition 2 (codes "hello") k))
unfolding set_partition_name decimal digits_from str_eq
parts_kept zero h = (codes ".h.0", refl, refl)
parts_kept (suc zero) h = (codes ".h.1", refl, refl)
parts_kept (suc (suc k)) h = absurd (omega arith)

merge_example : merge_partitions parts_of_hello (codes "h") 2 ≡ some (codes "hello")
merge_example =
    merge_partitions-partition parts_of_hello (codes "h") (codes "hello") 2 parts_kept (omega arith)

abbrev four : List Bool
four = true ∷ true ∷ true ∷ true ∷ []

abbrev three : List Bool
three = true ∷ false ∷ true ∷ true ∷ []

abbrev pair : ℕ → ℕ → Option Parts
pair a b = some (record { first = some a; second = b })

abbrev single : ℕ → Option Parts
single b = some (record { first = none; second = b })

abbrev stored : List (Option Parts)
stored = pair 2 3 ∷ pair 3 0 ∷ pair 0 1 ∷ pair 1 2 ∷ []

abbrev asked : List (Option Parts)
asked = single 3 ∷ none ∷ pair 0 1 ∷ single 2 ∷ []

put_run : threads 2 cmd_put four ≡ some stored
unfolding threads
put_run = refl

get_run : threads 2 cmd_get three ≡ some asked
unfolding threads
get_run = refl

kept : (i : ℕ) → up three i ≡ true → up four i ≡ true
kept zero h = refl
kept (suc zero) h = refl
kept (suc (suc zero)) h = refl
kept (suc (suc (suc zero))) h = refl
kept (suc (suc (suc (suc i)))) h = cc

threads-Transfers_example :
    (i : ℕ) × (up three i ≡ true)
    × Transfers asked i 0
    × Transfers stored i 0
    × ((j : ℕ) → Transfers asked j 0 → j ≡ i)
threads-Transfers_example =
    threads-Transfers four three 2 0 2 stored asked refl (omega arith) kept put_run get_run
      (record { first = some 0; second = 1 }, refl, inl refl) refl

-- Server 1 breaks in the first round.
abbrev returns : Returns
returns r ts i = if r == 0 && i == 1 then 1 else 0

fetch_run : fetch_rounds 5 0 returns 2 four ≡ ended three true
unfolding fetch_rounds
fetch_run = refl

fetch_rounds_example :
    (left : List Bool) × (merges : Bool) × (fetch_rounds 5 0 returns 2 four ≡ ended left merges)
    × ((j : ℕ) → up left j ≡ true → up four j ≡ true)
fetch_rounds_example = fetch_rounds-ended 5 0 returns 2 four (omega arith)
