-- ===== src/Dfc/Placement/Availability.antt =====
-- A "get" after servers have failed asks for each part once, and where a "put" has left it.
use network_system_hw.Base.{
  ℕ, ◌<◌, ◌≡◌, refl, sym, ap, subst, ◌∙◌, ◌⊎◌, inl, inr, Bool, true, false, true≢false, not,
  Bool-cases, List, Option, none, some, some-injective, none-ne-some, if◌then◌else◌, arith, length,
}
use network_system_hw.Dfc.Packet.{cmd_put, cmd_get}
use network_system_hw.Dfc.Placement.{first_part, second_part, Parts, threads, Transfers, up}
use network_system_hw.Dfc.Placement.Rotation.{
  prev, first_part-prev, second_part-injective, prev-lt, prev-injective,
}
use network_system_hw.Dfc.Placement.Threads.{up-lt, Started, Transfers-Started, Started-Transfers}

-- Server `i` has part number `m` of the circle as its own second part, or that of the server
-- before it.
abbrev Near : ℕ → ℕ → ℕ → Type 0
Near nh i m = (i ≡ m) ⊎ (prev nh i ≡ m)

module _ (hosts : List Bool) (h : ℕ) (small : h < length hosts) where
  put-Near :
      (i m : ℕ)
      → i < length hosts
      → m < length hosts
      → Started h cmd_put hosts i (second_part (length hosts) h m)
      → Near (length hosts) i m
  put-Near i m li lm s = elim s.one_of [
    | inl e ↦ inr (
        second_part-injective (length hosts) h small _ m (prev-lt _ i li) lm
          (sym (first_part-prev (length hosts) h small i li) ∙ some-injective _ _ e))
    | inr e ↦ inl (second_part-injective (length hosts) h small i m li lm e)
  ]

  Near-put :
      (i m : ℕ)
      → i < length hosts
      → up hosts i ≡ true
      → Near (length hosts) i m
      → Started h cmd_put hosts i (second_part (length hosts) h m)
  Near-put i m li alive near = record {
    alive = alive;
    one_of = elim near [
      | inl e ↦ inr (ap (second_part (length hosts) h) e)
      | inr e ↦ inl (
          ap some
            (first_part-prev (length hosts) h small i li ∙ ap (second_part (length hosts) h) e))
    ];
  }

  -- A "get" asks the server before a part's own only if that own server is down.
  get-Near :
      (i m : ℕ)
      → i < length hosts
      → m < length hosts
      → Started h cmd_get hosts i (second_part (length hosts) h m)
      → (i ≡ m) ⊎ ((prev (length hosts) i ≡ m) × (up hosts m ≡ false))
  get-Near i m li lm s = elim s.one_of [
    | inl e ↦ elim (Bool-cases (up hosts (prev (length hosts) i))) [
      | inl alive ↦ absurd (
          none-ne-some _ (
            sym (ap (λ b. if not b then some (first_part (length hosts) h i) else none) alive) ∙ e))
      | inr dead ↦
          let first = some-injective _ _ (
            sym (ap (λ b. if not b then some (first_part (length hosts) h i) else none) dead)
            ∙ e) in
          let same =
            second_part-injective (length hosts) h small _ m (prev-lt _ i li) lm
              (sym (first_part-prev (length hosts) h small i li) ∙ first) in
          inr (same, sym (ap (up hosts) same) ∙ dead)
    ]
    | inr e ↦ inl (second_part-injective (length hosts) h small i m li lm e)
  ]

  Near-get :
      (i m : ℕ)
      → i < length hosts
      → up hosts i ≡ true
      → (i ≡ m) ⊎ ((prev (length hosts) i ≡ m) × (up hosts m ≡ false))
      → Started h cmd_get hosts i (second_part (length hosts) h m)
  Near-get i m li alive near = record {
    alive = alive;
    one_of = elim near [
      | inl e ↦ inr (ap (second_part (length hosts) h) e)
      | inr (e, dead) ↦ inl (
          ap (λ b. if not b then some (first_part (length hosts) h i) else none)
            (ap (up hosts) e ∙ dead)
          ∙ ap some
              (first_part-prev (length hosts) h small i li ∙ ap (second_part (length hosts) h) e))
    ];
  }

  -- The server whose second part is `k`.
  Started-second :
      (i k : ℕ)
      → i < length hosts
      → Started h cmd_put hosts i k
      → (m : ℕ) × (m < length hosts) × (second_part (length hosts) h m ≡ k)
  Started-second i k li s = elim s.one_of [
    | inl e ↦ (
      prev (length hosts) i,
      prev-lt _ i li,
      sym (first_part-prev (length hosts) h small i li) ∙ some-injective _ _ e,
    )
    | inr e ↦ (i, li, e)
  ]

  -- Of a part stored with a server that is up, a "get" asks one server, which is near.
  asked_once :
      (s m : ℕ)
      → m < length hosts
      → up hosts s ≡ true
      → Near (length hosts) s m
      → (i : ℕ) × (up hosts i ≡ true)
        × Near (length hosts) i m
        × Started h cmd_get hosts i (second_part (length hosts) h m)
        × ((j : ℕ) → Started h cmd_get hosts j (second_part (length hosts) h m) → j ≡ i)
  asked_once s m lm alive near = elim (Bool-cases (up hosts m)) [
    | inl own ↦ (
      m,
      own,
      inl refl,
      Near-get m m lm own (inl refl),
      λ j sj. elim (get-Near j m (up-lt hosts j sj.alive) lm sj) [ inl e ↦ e | inr (e, dead) ↦ cc ],
    )
    | inr dead ↦
        let behind : prev (length hosts) s ≡ m = elim near [
          | inl e ↦ absurd (true≢false (sym alive ∙ ap (up hosts) e ∙ dead))
          | inr e ↦ e
        ] in
        let ls = up-lt hosts s alive in
        (
          s,
          alive,
          near,
          Near-get s m ls alive (inr (behind, dead)),
          λ j sj. elim (get-Near j m (up-lt hosts j sj.alive) lm sj) [
            | inl e ↦ absurd (true≢false (sym sj.alive ∙ ap (up hosts) e ∙ dead))
            | inr (e, _) ↦
                prev-injective (length hosts) j s (up-lt hosts j sj.alive) ls (e ∙ sym behind)
          ],
        )
  ]

-- Servers may have failed between a "put" and a "get" with the same servers and hash value. If a
-- server that took part `k` of the file in the "put" is still up, exactly one thread of the "get"
-- asks for part `k`, and it asks a server that is up and has taken part `k`.
pub threads-Transfers :
    (before hosts : List Bool) (h k s : ℕ) (stored asked : List (Option Parts))
    → length before ≡ length hosts
    → h < length hosts
    → ((i : ℕ) → up hosts i ≡ true → up before i ≡ true)
    → threads h cmd_put before ≡ some stored
    → threads h cmd_get hosts ≡ some asked
    → Transfers stored s k
    → up hosts s ≡ true
    → (i : ℕ) × (up hosts i ≡ true)
      × Transfers asked i k
      × Transfers stored i k
      × ((j : ℕ) → Transfers asked j k → j ≡ i)
threads-Transfers before hosts h k s stored asked len small kept put get had alive =
    let small_b : h < length before = omega arith in
    let begun = Transfers-Started h cmd_put before s k put had in
    let ls = up-lt before s begun.alive in
    let (m, lm, own) = Started-second before h small_b s k ls begun in
    let near_b =
      put-Near before h small_b s m ls lm (subst (Started h cmd_put before s) (sym own) begun) in
    let own_now : second_part (length hosts) h m ≡ k = subst (λ n. second_part n h m ≡ k) len own in
    let (i, up_i, near_i, asks, once) =
      asked_once hosts h small s m (omega arith) alive (subst (λ n. Near n s m) len near_b) in
    let took =
      Near-put before h small_b i m (up-lt before i (kept i up_i)) (kept i up_i)
        (subst (λ n. Near n i m) (sym len) near_i) in
    (
      i,
      up_i,
      Started-Transfers h cmd_get hosts i k get (subst (Started h cmd_get hosts i) own_now asks),
      Started-Transfers h cmd_put before i k put (subst (Started h cmd_put before i) own took),
      λ j t. once j (
          subst (Started h cmd_get hosts j) (sym own_now)
            (Transfers-Started h cmd_get hosts j k get t)),
    )
