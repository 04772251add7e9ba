-- ===== src/Dfc/Server/Users.antt =====
-- Whom `check_user` of dfc/server.c accepts.
use network_system_hw.Base.{
  ◌≡◌, ◌↔◌, sym, ap, ◌∙◌, true, true≢false, Bool-cases, inl, inr, List, [], ◌∷◌, if◌then◌else◌,
  Bytes, str_eq, str_eq_iff,
}
use network_system_hw.Dfc.Config.{User}
use network_system_hw.Dfc.Server.{check_user}

-- The first user of the name has the password.
pub data FirstHas (name password : Bytes) : List User → Type 0 where
  here :
      {u : User} {us : List User}
      → name ≡ u.username
      → password ≡ u.password
      → FirstHas name password (u ∷ us)
  later :
      {u : User} {us : List User}
      → ¬ (name ≡ u.username)
      → FirstHas name password us
      → FirstHas name password (u ∷ us)

check_user-FirstHas :
    (us : List User) (name password : Bytes)
    → check_user us name password ≡ true
    → FirstHas name password us
unfolding check_user
check_user-FirstHas [] name password e = cc
check_user-FirstHas (u ∷ us) name password e = elim (Bool-cases (str_eq name u.username)) [
  | inl same ↦ here ((str_eq_iff name u.username).0 same) (
      (str_eq_iff password u.password).0 (
        sym (ap (λ b. if b then str_eq password u.password else check_user us name password) same)
        ∙ e))
  | inr other ↦
      later (λ s. true≢false (sym ((str_eq_iff name u.username).1 s) ∙ other))
        (check_user-FirstHas us name password (
          sym
            (ap (λ b. if b then str_eq password u.password else check_user us name password) other)
          ∙ e))
]

FirstHas-check_user :
    (us : List User) (name password : Bytes)
    → FirstHas name password us
    → check_user us name password ≡ true
unfolding check_user
FirstHas-check_user [] name password f = elim f [ ]
FirstHas-check_user (u ∷ us) name password (here n p) =
    rw ((str_eq_iff name u.username).1 n) ((str_eq_iff password u.password).1 p)
FirstHas-check_user (u ∷ us) name password (later other f) =
    elim (Bool-cases (str_eq name u.username)) [
      | inl same ↦ absurd (other ((str_eq_iff name u.username).0 same))
      | inr apart ↦ rw apart (FirstHas-check_user us name password f)
    ]

-- `check_user` accepts a name with a password just if the first user of that name has that
-- password.
pub check_user_iff :
    (us : List User) (name password : Bytes)
    → (check_user us name password ≡ true) ↔ FirstHas name password us
check_user_iff us name password =
    (check_user-FirstHas us name password, FirstHas-check_user us name password)
