-- ===== src/Dfc/Placement/Threads.antt =====
-- Which threads the loop starts, and that a "get" asks for each part once and where it is.
use network_system_hw.Base.{
  ℕ, zero, suc, ◌+◌, ◌-◌, ◌<◌, ◌≡◌, refl, sym, ap, subst, ◌∙◌, ◌⊎◌, inl, inr, Bool, true, false,
  not, Bool-cases, List, [], ◌∷◌, Option, none, some, some-injective, if◌then◌else◌, ◌==◌, arith,
  length, get_or,
}
use network_system_hw.Dfc.Placement.{second_part, Parts, parts_of, assign, threads, Transfers, up}
use network_system_hw.Dfc.Placement.Rotation.{prev}

-- `flag` when the loop comes to the server at place `j` of `hosts`.
abbrev flag_at : Bool → List Bool → ℕ → Bool
flag_at flag hosts j = if j == 0 then flag else not (up hosts (j - 1))

flag_next :
    (flag b : Bool) (hosts : List Bool) (j : ℕ)
    → flag_at (not b) hosts j ≡ flag_at flag (b ∷ hosts) (suc j)
flag_next flag b hosts zero = ground arith
flag_next flag b hosts (suc j) = ground arith

-- The rest of the loop, seen from the server before.
shifted :
    (nh h cmd : ℕ) (flag b : Bool) (i : ℕ) (hosts : List Bool) (j : ℕ)
    → (if up hosts j then some (parts_of nh h cmd (flag_at (not b) hosts j) (suc i + j)) else none)
      ≡ (if up hosts j
          then some (parts_of nh h cmd (flag_at flag (b ∷ hosts) (suc j)) (i + suc j))
          else none)
shifted nh h cmd flag b i hosts j =
    let e : suc i + j ≡ i + suc j = omega arith in
    λ t. if up hosts j then some (parts_of nh h cmd (flag_next flag b hosts j t) (e t)) else none

assign-get :
    (nh h cmd : ℕ) (flag : Bool) (i : ℕ) (hosts : List Bool) (j : ℕ)
    → get_or (assign nh h cmd flag i hosts) j none
      ≡ (if up hosts j then some (parts_of nh h cmd (flag_at flag hosts j) (i + j)) else none)
unfolding assign
assign-get nh h cmd flag i [] j = refl
assign-get nh h cmd flag i (true ∷ hosts) zero =
    let e : i ≡ i + 0 = omega arith in ap (λ m. some (parts_of nh h cmd flag m)) e
assign-get nh h cmd flag i (false ∷ hosts) zero = refl
assign-get nh h cmd flag i (true ∷ hosts) (suc j) =
    assign-get nh h cmd false (suc i) hosts j ∙ shifted nh h cmd flag true i hosts j
assign-get nh h cmd flag i (false ∷ hosts) (suc j) =
    assign-get nh h cmd true (suc i) hosts j ∙ shifted nh h cmd flag false i hosts j

threads-get :
    (h cmd : ℕ) (hosts : List Bool) (j : ℕ) {ts : List (Option Parts)}
    → threads h cmd hosts ≡ some ts
    → get_or ts j none ≡ (
        if up hosts j
        then some (parts_of (length hosts) h cmd (not (up hosts (prev (length hosts) j))) j)
        else none)
unfolding threads
threads-get h cmd [] j e = cc
threads-get h cmd (b ∷ hosts) j e =
    let nh = length (b ∷ hosts) in
    let flag = not (up (b ∷ hosts) (nh - 1)) in
    let same : flag_at flag (b ∷ hosts) j ≡ not (up (b ∷ hosts) (prev nh j)) = ground arith in
    let start : 0 + j ≡ j = omega arith in
    ap (λ l. get_or l j none) (sym (some-injective _ _ e))
    ∙ assign-get nh h cmd flag 0 (b ∷ hosts) j
    ∙ (λ t. if up (b ∷ hosts) j then some (parts_of nh h cmd (same t) (start t)) else none)

pub up-lt : (hosts : List Bool) (i : ℕ) → up hosts i ≡ true → i < length hosts
up-lt [] i u = cc
up-lt (b ∷ hosts) zero u = omega arith
up-lt (b ∷ hosts) (suc i) u = omega (arith, up-lt hosts i u)

-- A thread is that of an available server, and transfers the parts of the assignment.
pub record Started (h cmd : ℕ) (hosts : List Bool) (i k : ℕ) : Type 0 where
  pub alive : up hosts i ≡ true
  pub one_of :
      ((parts_of (length hosts) h cmd (not (up hosts (prev (length hosts) i))) i).first ≡ some k)
      ⊎ (second_part (length hosts) h i ≡ k)

pub Transfers-Started :
    (h cmd : ℕ) (hosts : List Bool) (i k : ℕ) {ts : List (Option Parts)}
    → threads h cmd hosts ≡ some ts
    → Transfers ts i k
    → Started h cmd hosts i k
Transfers-Started h cmd hosts i k e (p, got, asks) =
    let here = sym (threads-get h cmd hosts i e) ∙ got in
    elim (Bool-cases (up hosts i)) [
      | inl alive ↦
          let same = some-injective _ _ (
            ap
              (λ b.
                if b
                then some (parts_of (length hosts) h cmd (not (up hosts (prev (length hosts) i))) i)
                else none)
              (sym alive)
            ∙ here) in
          record {
            alive = alive;
            one_of = subst (λ q. (q.first ≡ some k) ⊎ (q.second ≡ k)) (sym same) asks;
          }
      | inr dead ↦ cc
    ]

pub Started-Transfers :
    (h cmd : ℕ) (hosts : List Bool) (i k : ℕ) {ts : List (Option Parts)}
    → threads h cmd hosts ≡ some ts
    → Started h cmd hosts i k
    → Transfers ts i k
Started-Transfers h cmd hosts i k e s =
    let p = parts_of (length hosts) h cmd (not (up hosts (prev (length hosts) i))) i in
    (p, threads-get h cmd hosts i e ∙ ap (λ b. if b then some p else none) s.alive, s.one_of)
