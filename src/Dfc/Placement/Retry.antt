-- ===== src/Dfc/Placement/Retry.antt =====
-- The loop `while (retry)` of a "get" in `main` of dfc/client.c: a server whose thread reports a
-- broken connection is given up, and the file is asked for again.
use network_system_hw.Base.{
  ℕ, zero, suc, ◌≤◌, ◌<◌, ◌≡◌, refl, ap, ◌∙◌, Bool, true, false, Bool-cases, inl, inr, not, ◌||◌,
  List, [], ◌∷◌, Option, if◌then◌else◌, ◌==◌, arith,
}
use network_system_hw.Dfc.Packet.{cmd_get}
use network_system_hw.Dfc.Placement.{Parts, threads, up}

-- The servers, `retry` and `flag` behind the loop over `retval`.
pub record Marked : Type 0 where
  pub hosts : List Bool
  pub retry : Bool
  pub flag : Bool

abbrev mark_up : ℕ → Marked → Marked
mark_up retval m = record {
  hosts = not (retval == 1) ∷ m.hosts;
  retry = retval == 1 || m.retry;
  flag = retval == 2 || m.flag;
}

-- `returned i` is what the thread of server `i` returns. A server that is not up has no thread, and
-- its `retval` stays 0.
unfoldable pub mark : (ℕ → ℕ) → ℕ → List Bool → Marked
mark returned i [] = record { hosts = []; retry = false; flag = false }
mark returned i (true ∷ hosts) = mark_up (returned i) (mark returned (suc i) hosts)
mark returned i (false ∷ hosts) =
    let m = mark returned (suc i) hosts in record m { hosts = false ∷ m.hosts }

-- The end of the loop: the servers that are up, and whether the parts are merged; or the fuel is
-- used up.
pub data Fetched : Type 0 where
  unfinished : Fetched
  ended : List Bool → Bool → Fetched

-- What the threads of round `r` return, when they have been started as they are.
abbrev pub Returns : Type 0
Returns = ℕ → Option (List (Option Parts)) → ℕ → ℕ

-- One unit of fuel for each round; one more than servers that are up is enough.
unfoldable pub fetch_rounds : ℕ → ℕ → Returns → ℕ → List Bool → Fetched
unfolding mark
fetch_rounds zero r returns h hosts = unfinished
fetch_rounds (suc fuel) r returns h hosts =
    let m = mark (returns r (threads h cmd_get hosts)) 0 hosts in
    let rest = fetch_rounds fuel (suc r) returns h m.hosts in
    if m.retry then rest else ended m.hosts (not m.flag)

abbrev pub count_up : List Bool → ℕ
count_up [] = 0
count_up (true ∷ hosts) = suc (count_up hosts)
count_up (false ∷ hosts) = count_up hosts

-- Marking gives up servers only, and one at least where it asks for another round.
pub record Falls (hosts : List Bool) (m : Marked) : Type 0 where
  pub fewer : count_up m.hosts ≤ count_up hosts
  pub strictly : m.retry ≡ true → count_up m.hosts < count_up hosts
  pub kept : (j : ℕ) → up m.hosts j ≡ true → up hosts j ≡ true

count_up-fewer :
    (gone : Bool) (rest : List Bool) (n : ℕ)
    → count_up rest ≤ n
    → count_up (not gone ∷ rest) ≤ suc n
count_up-fewer true rest n h = omega arith
count_up-fewer false rest n h = omega arith

count_up-strictly :
    (gone retry : Bool) (rest : List Bool) (n : ℕ)
    → count_up rest ≤ n
    → (retry ≡ true → count_up rest < n)
    → (gone || retry) ≡ true
    → count_up (not gone ∷ rest) < suc n
count_up-strictly true retry rest n h s e = omega arith
count_up-strictly false retry rest n h s e = omega (arith, s e)

pub mark-Falls :
    (returned : ℕ → ℕ) (i : ℕ) (hosts : List Bool) → Falls hosts (mark returned i hosts)
unfolding mark
mark-Falls returned i [] = record { fewer = omega arith; strictly = λ e. cc; kept = λ j e. cc }
mark-Falls returned i (false ∷ hosts) =
    let f = mark-Falls returned (suc i) hosts in
    record { fewer = f.fewer; strictly = f.strictly; kept = kept_false f }
  where
    kept_false :
        Falls hosts (mark returned (suc i) hosts)
        → (j : ℕ) → up (false ∷ (mark returned (suc i) hosts).hosts) j ≡ true
        → up (false ∷ hosts) j ≡ true
    kept_false f zero e = e
    kept_false f (suc j) e = f.kept j e
mark-Falls returned i (true ∷ hosts) =
    let f = mark-Falls returned (suc i) hosts in
    let gone = returned i == 1 in
    let later = mark returned (suc i) hosts in
    record {
      fewer = count_up-fewer gone later.hosts (count_up hosts) f.fewer;
      strictly = count_up-strictly gone later.retry later.hosts (count_up hosts) f.fewer f.strictly;
      kept = kept_true f;
    }
  where
    kept_true :
        Falls hosts (mark returned (suc i) hosts)
        → (j : ℕ) → up (not (returned i == 1) ∷ (mark returned (suc i) hosts).hosts) j ≡ true
        → up (true ∷ hosts) j ≡ true
    kept_true f zero e = refl
    kept_true f (suc j) e = f.kept j e

-- Threads that all return 0 leave the servers as they are, and the parts are merged.
pub mark-zero :
    (returned : ℕ → ℕ) (i : ℕ) (hosts : List Bool)
    → ((j : ℕ) → returned j ≡ 0)
    → mark returned i hosts ≡ record { hosts = hosts; retry = false; flag = false }
unfolding mark
mark-zero returned i [] h = refl
mark-zero returned i (true ∷ hosts) h =
    ap (mark_up (returned i)) (mark-zero returned (suc i) hosts h) ∙ rw (h i) refl
mark-zero returned i (false ∷ hosts) h =
    ap (λ (m : Marked). record m { hosts = false ∷ m.hosts }) (mark-zero returned (suc i) hosts h)

-- Whatever the threads return, the loop of a "get" ends after at most one round more than servers
-- are up, and the servers that are up at its end were up at its start.
pub fetch_rounds-ended :
    (fuel r : ℕ) (returns : Returns) (h : ℕ) (hosts : List Bool)
    → count_up hosts < fuel
    → (left : List Bool) × (merges : Bool) × (fetch_rounds fuel r returns h hosts
        ≡ ended left merges)
      × ((j : ℕ) → up left j ≡ true → up hosts j ≡ true)
unfolding fetch_rounds
fetch_rounds-ended zero r returns h hosts enough = absurd (omega arith)
fetch_rounds-ended (suc fuel) r returns h hosts enough =
    let m = mark (returns r (threads h cmd_get hosts)) 0 hosts in
    let f = mark-Falls (returns r (threads h cmd_get hosts)) 0 hosts in
    elim (Bool-cases m.retry) [
      | inl again ↦
          let (left, merges, ends, kept) =
            fetch_rounds-ended fuel (suc r) returns h m.hosts (omega (arith, f.strictly again)) in
          (left, merges, rw again ends, λ j e. f.kept j (kept j e))
      | inr stop ↦ (m.hosts, not m.flag, rw stop refl, f.kept)
    ]
