-- ===== src/Dfc/Session/Commands.antt =====
-- What a line of input leaves of the client's files in `main` of dfc/client.c, whatever the
-- servers answer.
use network_system_hw.Dfc.Client.Ends.{LeftAtEnd, connection_handler-files}
use network_system_hw.Dfc.Partition.Names.{IsApart}
use network_system_hw.Base.{
  suc, ℕ, ◌%◌, ◌≡◌, ◌⊎◌, inl, inr, refl, sym, ap, subst, ◌∙◌, Bool, true, false, true≢false,
  Bool-cases, ◌||◌, List, [], ◌∷◌, Option, none, some, ◌>>=◌, if◌then◌else◌, ◌==◌, arith, Ensures,
  Ensures-bind, Ensures-if, Ensures-mono, Ensures-some, length, Bytes, codes, str_eq, str_eq_iff,
}
use network_system_hw.Strutil.{lower}
use network_system_hw.Dfc.Client.{Peer, ThreadParam, connection_handler}
use network_system_hw.Dfc.Config.{ClientConfig}
use network_system_hw.Dfc.Listing.{listing}
use network_system_hw.Dfc.Packet.{
  cmd_ls, cmd_put, cmd_get, cmd_mkdir, build_msg_packet, msg_type_of,
}
use network_system_hw.Dfc.Packet.Fields.{build_msg_packet-msg_type}
use network_system_hw.Dfc.Partition.{Directory}
use network_system_hw.Dfc.Placement.{Parts, threads}
use network_system_hw.Dfc.Session.{
  Session, Ran, run_threads, start, fetch, session_of, run_command, obey, Asked, next_line, ask,
  command_of, words, word, param_of, md5_mod, command_round, with_operand,
}
use network_system_hw.Dfc.Session.Frame.{Tidy, fetch-Tidy}

-- What the words ask for: a "get", or another command.
abbrev Meant : List Bytes → Asked → Type 0
Meant p (next_line text) = Unit
Meant p (ask cmd sets) =
    ((cmd ≡ cmd_get) × (lower (word 0 p) ≡ codes "get")) ⊎ ((cmd % 256 == cmd_get) ≡ false)

with_operand-Meant :
    (p operands : List Bytes) (cmd : ℕ) (sets : Bool) (missing : Bytes)
    → Meant p (ask cmd sets)
    → Meant p (with_operand operands cmd sets missing)
with_operand-Meant p [] cmd sets missing h = tt
with_operand-Meant p (operand ∷ rest) cmd sets missing h = h

command_of-Meant : (p : List Bytes) → Meant p (command_of p)
unfolding command_of
command_of-Meant [] = tt
command_of-Meant (w ∷ ops) =
    let p = w ∷ ops in
    elim (Bool-cases (str_eq (lower w) (codes "mkdir"))) [
      | inl e ↦ rw e (with_operand-Meant p ops cmd_mkdir true _ (inr refl))
      | inr e1 ↦ elim (Bool-cases (str_eq (lower w) (codes "list"))) [
        | inl e ↦ rw (e1, e) (inr refl)
        | inr e2 ↦ elim (Bool-cases (str_eq (lower w) (codes "get"))) [
          | inl e ↦
              rw (e1, e2, e)
                (with_operand-Meant p ops cmd_get false _
                  (inl (refl, (str_eq_iff (lower w) (codes "get")).0 e)))
          | inr e3 ↦ elim (Bool-cases (str_eq (lower w) (codes "put"))) [
            | inl e ↦ rw (e1, e2, e3, e) (with_operand-Meant p ops cmd_put false _ (inr refl))
            | inr e4 ↦ rw (e1, e2, e3, e4) tt
          ]
        ]
      ]
    ]

module _ {S : Type 0} (conf : ClientConfig) (peer : Peer S) (creates : Bytes → Bool)
    (stale : Bytes) where
  run_threads-files :
      (param : Parts → ThreadParam)
      → ((parts : Parts) → (msg_type_of (param parts).pkt == cmd_get) ≡ false)
      → (ts : List (Option Parts)) (peers : List S) (files : Directory)
      → Ensures (λ r. r.files ≡ files) (run_threads conf peer creates stale param ts peers files)
  unfolding run_threads
  run_threads-files param other [] peers files = refl
  run_threads-files param other (p ∷ ts) [] files = tt
  run_threads-files param other (none ∷ ts) (s ∷ ss) files =
      Ensures-bind (λ (r : Ran S). r.files ≡ files)
        (run_threads conf peer creates stale param ts ss files) _
        λ r e.
          Ensures-some (λ (r : Ran S). r.files ≡ files) _
            (run_threads-files param other ts ss files) e
  run_threads-files param other (some parts ∷ ts) (s ∷ ss) files =
      let P = λ (r : Ran S). r.files ≡ files in
      Ensures-bind P (connection_handler conf peer creates (param parts) (start stale files s)) _
        λ e handled.
          Ensures-bind P (run_threads conf peer creates stale param ts ss e.0.files) _ λ r ran.
            Ensures-some (λ (r : Ran S). r.files ≡ e.0.files) _
              (run_threads-files param other ts ss e.0.files) ran
            ∙ Ensures-some (LeftAtEnd conf peer (start stale files s)) _
                (connection_handler-files conf peer creates (param parts) (start stale files s)
                  (other parts))
                handled

  -- Sessions with the same files
  abbrev Still : Session S → Session S → Type 0
  Still st st' = st'.files ≡ st.files

  run_command-Still :
      (cmd : ℕ) (param : Parts → ThreadParam) (h : ℕ) (filename : Bytes) (st : Session S)
      → (cmd == cmd_get) ≡ false
      → ((parts : Parts) → (msg_type_of (param parts).pkt == cmd_get) ≡ false)
      → Ensures (Still st) (run_command conf peer creates stale cmd param h filename st)
  unfolding run_command
  run_command-Still cmd param h filename st no_get other =
      let P = Still st in
      Ensures-if P (cmd == cmd_get) _ _ (λ e. absurd (true≢false (sym e ∙ no_get)))
        λ _. Ensures-bind P (threads h cmd st.hosts) _ λ ts _.
          Ensures-bind P (run_threads conf peer creates stale param ts st.peers st.files) _ λ r ran.
            let same =
              Ensures-some (λ (r : Ran S). r.files ≡ st.files) _
                (run_threads-files param other ts st.peers st.files) ran in
            Ensures-if P (cmd == cmd_ls) _ _
              (λ _. Ensures-bind P (listing r.retvals) _ λ lines _. same) λ _. same

  -- What a line may do to the files
  abbrev Changes : List Bytes → Session S → Session S → Type 0
  Changes p st st' =
      Still st st'
      ⊎ ((lower (word 0 p) ≡ codes "get") × Tidy conf peer creates stale (word 1 p) st st')

  obey-get :
      (digest : Bytes → Bytes) (p : List Bytes) (st : Session S) (sets : Bool)
      → lower (word 0 p) ≡ codes "get"
      → Ensures (Changes p st) (obey conf peer creates stale digest p st (ask cmd_get sets))
  unfolding run_command
  obey-get digest p st sets is_get =
      Ensures-bind (Changes p st)
        (build_msg_packet cmd_get 0 (if sets || st.pointed then some (word 1 p) else none)
          (some (conf.username, conf.password)))
        _
        λ pkt _.
          let param = param_of cmd_get p pkt in
          Ensures-mono
            (fetch conf peer creates stale (suc (length st.hosts)) param
                (md5_mod digest (word 1 p) (length conf.hosts)) (word 1 p)
                (record st { pointed = sets || st.pointed })
              >>= session_of conf peer creates stale)
            (λ st' tidy. inr (is_get, tidy))
            (fetch-Tidy conf peer creates stale param (word 1 p) (λ parts. refl)
              (suc (length st.hosts)) _ _)

  obey-Changes :
      (digest : Bytes → Bytes) (p : List Bytes) (st : Session S) (asked : Asked)
      → Meant p asked
      → Ensures (Changes p st) (obey conf peer creates stale digest p st asked)
  obey-Changes digest p st (next_line text) meant = inl refl
  obey-Changes digest p st (ask cmd sets) (inl (is_get, name)) =
      subst (λ c. Ensures (Changes p st) (obey conf peer creates stale digest p st (ask c sets)))
        (sym is_get) (obey-get digest p st sets name)
  obey-Changes digest p st (ask cmd sets) (inr other) =
      let no_get : (cmd == cmd_get) ≡ false = ground arith in
      Ensures-bind (Changes p st)
        (build_msg_packet cmd 0 (if sets || st.pointed then some (word 1 p) else none)
          (some (conf.username, conf.password)))
        _
        λ pkt built.
          let kind = build_msg_packet-msg_type cmd 0 _ _ built in
          Ensures-mono
            (run_command conf peer creates stale cmd (param_of cmd p pkt) _ (word 1 p)
              (record st { pointed = sets || st.pointed }))
            (λ st' same. inl same)
            (run_command-Still cmd (param_of cmd p pkt) _ (word 1 p) _ no_get
              (λ parts. ap (λ t. t == cmd_get) kind ∙ other))

  -- Whatever the servers answer, and whatever fails, a line of input changes no file of the client,
  -- unless its first word is "get", in any letters: then the file that the second word names and the
  -- files with the names of its parts are the only ones that can change, in all rounds of the get
  -- together.
  pub command_round-changes :
      (digest : Bytes → Bytes) (st st' : Session S) (line : Bytes) (p : List Bytes)
      → words line ≡ some p
      → command_round conf peer creates stale digest st line ≡ some st'
      → (st'.files ≡ st.files)
        ⊎ ((lower (word 0 p) ≡ codes "get")
            × ((q : Bytes)
                → IsApart (word 1 p) q
                → str_eq q (word 1 p) ≡ false
                → st'.files q ≡ st.files q))
  unfolding command_round
  command_round-changes digest st st' line p read e =
      Ensures-some (Changes p st) _ (obey-Changes digest p st (command_of p) (command_of-Meant p)) (
        sym (ap (λ m. m >>= λ q. obey conf peer creates stale digest q st (command_of q)) read) ∙ e)
