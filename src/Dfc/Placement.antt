-- ===== src/Dfc/Placement.antt =====
-- Which parts of a file a command's threads transfer with which server: the loop over the servers
-- in `main` of dfc/client.c. A server is its `available` flag.
pub mod Rotation
pub mod Threads
pub mod Availability
pub mod Retry
use network_system_hw.Base.{
  ℕ, zero, suc, ◌+◌, ◌-◌, ◌%◌, ◌≡◌, ◌⊎◌, Bool, true, false, not, ◌&&◌, ◌||◌, List, [], ◌∷◌, Option,
  none, some, if◌then◌else◌, ◌==◌, length, get_or,
}
use network_system_hw.Dfc.Packet.{cmd_put, cmd_get}

-- `(i - hashvalue + conf.nh) % conf.nh`, for a hash value below `conf.nh`
abbrev pub first_part : ℕ → ℕ → ℕ → ℕ
first_part nh h i = (i + nh - h) % nh

-- `(i - hashvalue + 1 + conf.nh) % conf.nh`
abbrev pub second_part : ℕ → ℕ → ℕ → ℕ
second_part nh h i = (i + 1 + nh - h) % nh

-- `tp->parts`, where `none` is -1.
pub record Parts : Type 0 where
  pub first : Option ℕ
  pub second : ℕ

abbrev pub parts_of : ℕ → ℕ → ℕ → Bool → ℕ → Parts
parts_of nh h cmd flag i = record {
  first = if cmd == cmd_put || (cmd == cmd_get && flag) then some (first_part nh h i) else none;
  second = second_part nh h i;
}

-- One thread for each server that is available; `flag` says that the server before is not.
unfoldable pub assign : ℕ → ℕ → ℕ → Bool → ℕ → List Bool → List (Option Parts)
assign nh h cmd flag i [] = []
assign nh h cmd flag i (true ∷ hosts) =
    some (parts_of nh h cmd flag i) ∷ assign nh h cmd false (suc i) hosts
assign nh h cmd flag i (false ∷ hosts) = none ∷ assign nh h cmd true (suc i) hosts

-- Without servers the loop's first `flag` is read in front of the array.
unfoldable pub threads : ℕ → ℕ → List Bool → Option (List (Option Parts))
unfolding assign
threads h cmd [] = none
threads h cmd (b ∷ hosts) =
    let nh = length (b ∷ hosts) in
    some (assign nh h cmd (not (get_or (b ∷ hosts) (nh - 1) false)) 0 (b ∷ hosts))

-- The thread for server `i` transfers part `k`.
abbrev pub Transfers : List (Option Parts) → ℕ → ℕ → Type 0
Transfers ts i k = (p : Parts) × (get_or ts i none ≡ some p) × ((p.first ≡ some k) ⊎ (p.second ≡ k))

abbrev pub up : List Bool → ℕ → Bool
up hosts i = get_or hosts i false
