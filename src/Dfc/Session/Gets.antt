-- ===== src/Dfc/Session/Gets.antt =====
-- The threads of a "get" of dfc/client.c with the servers.
use network_system_hw.Base.{
  ℕ, suc, ◌≡◌, refl, sym, ap, subst, ◌∙◌, ◌⊎◌, inl, inr, Bool, true, Bool-cases, by_cases, List, [],
  ◌∷◌, ◌++◌, Option, none, some, some-injective, arith, length, All, Bytes, str_eq, str_eq_iff,
}
use network_system_hw.Dfc.Client.{Peer, Thread, code, handle_get, connection_handler}
use network_system_hw.Dfc.Client.Fetches.{with_part, with_first, handle_get-fetches}
use network_system_hw.Dfc.Client.Paths.{Fits}
use network_system_hw.Dfc.Client.Requests.{IsRequest}
use network_system_hw.Dfc.Client.Stores.{Holds, started, put_file-same, put_file-other}
use network_system_hw.Dfc.Config.{ClientConfig, User}
use network_system_hw.Dfc.Packet.{cmd_get, msg_type_of}
use network_system_hw.Dfc.Packet.Messages.{packet_of-Reads}
use network_system_hw.Dfc.Partition.{Directory, partition}
use network_system_hw.Dfc.Partition.Names.{IsApart, part_name, part_name-injective}
use network_system_hw.Dfc.Placement.{Parts, Transfers}
use network_system_hw.Dfc.Server.{check_user, Disk}
use network_system_hw.Dfc.Server.Loop.{Serving, server}
use network_system_hw.Dfc.Server.Replies.{IsHonest}
use network_system_hw.Dfc.Session.{Ran, start, run_threads, code_of, retval_of}
use network_system_hw.Dfc.Session.Parameters.{GetParts}
use network_system_hw.Dfc.Session.Puts.{files_of}

connection_handler-get :
    {S : Type 0} (conf : ClientConfig) (peer : Peer S) (creates : Bytes → Bool)
    (path filename pkt : Bytes) (parts : Parts) (t : Thread S) {t' : Thread S}
    → msg_type_of pkt ≡ cmd_get
    → handle_get conf peer creates (started path filename pkt parts) t ≡ some t'
    → connection_handler conf peer creates (started path filename pkt parts) t
      ≡ some (t', code t'.retval)
unfolding connection_handler
connection_handler-get conf peer creates path filename pkt parts t is_get done =
    rw (is_get, done) refl

-- The client's directory has part `k` of the file.
abbrev pub HasPart : ClientConfig → Bytes → Bytes → Directory → ℕ → Type 0
HasPart conf filename file files k =
    files (part_name filename k) ≡ some (partition (length conf.hosts) file k)

module _ (conf : ClientConfig) (users : List User) (fs : Directory → Disk) (honest : IsHonest fs)
    (known : check_user users conf.username conf.password ≡ true) (path filename file : Bytes)
    (fits : Fits conf path filename) (creates : Bytes → Bool)
    (can : (name : Bytes) → creates name ≡ true) where
  abbrev Part : Directory → ℕ → Type 0
  Part = HasPart conf filename file

  abbrev add : Directory → ℕ → Directory
  add = with_part conf users fs honest known path filename file fits creates can

  abbrev add_first : Directory → Option ℕ → Directory
  add_first = with_first conf users fs honest known path filename file fits creates can

  add-keeps : (files : Directory) (i k : ℕ) → Part files k → Part (add files i) k
  add-keeps files i k h = elim (Bool-cases (str_eq (part_name filename k) (part_name filename i))) [
    | inl same ↦
        let e = part_name-injective filename k i ((str_eq_iff _ _).0 same) in
        subst (Part (add files i)) (sym e) (put_file-same files (part_name filename i) _)
    | inr apart ↦ put_file-other files (part_name filename i) _ (part_name filename k) apart ∙ h
  ]

  add_first-keeps :
      (files : Directory) (first : Option ℕ) (k : ℕ) → Part files k → Part (add_first files first) k
  add_first-keeps files none k h = h
  add_first-keeps files (some i) k h = add-keeps files i k h

  add_first-has :
      (files : Directory) (first : Option ℕ) (k : ℕ)
      → first ≡ some k
      → Part (add_first files first) k
  add_first-has files none k e = cc
  add_first-has files (some i) k e =
      subst (Part (add files i)) (some-injective _ _ e)
        (put_file-same files (part_name filename i) _)

  add_first-other :
      (files : Directory) (first : Option ℕ) (q : Bytes)
      → IsApart filename q
      → add_first files first q ≡ files q
  add_first-other files none q h = refl
  add_first-other files (some i) q h = put_file-other files (part_name filename i) _ q (h i)

  -- What the threads of a "get" leave: the parts asked for are in the client's directory, and every
  -- thread returns 0.
  pub record Gathered (ts : List (Option Parts)) (peers : List Serving) (files : Directory)
      (r : Ran Serving) : Type 0 where
    pub same_peers : (i : ℕ) → files_of r.peers i ≡ files_of peers i
    pub same_length : length r.peers ≡ length peers
    pub returned : (i : ℕ) → retval_of r.retvals i ≡ 0
    pub has : (i k : ℕ) → Transfers ts i k → Part r.files k
    pub keeps : (k : ℕ) → Part files k → Part r.files k
    pub others : (q : Bytes) → IsApart filename q → r.files q ≡ files q

  Gathered-none :
      (ts : List (Option Parts)) (s : Serving) (ss : List Serving) (files : Directory)
      (r : Ran Serving)
      → Gathered ts ss files r
      → Gathered
          (none ∷ ts)
          (s ∷ ss)
          files
          (record r { peers = s ∷ r.peers; retvals = code 0 ∷ r.retvals })
  unfolding retval_of code_of
  Gathered-none ts s ss files r done = record {
    same_peers = by_cases _ refl done.same_peers;
    same_length = ap suc done.same_length;
    returned = by_cases _ refl done.returned;
    has = by_cases _ (λ k (q, got, asks). cc) done.has;
    keeps = done.keeps;
    others = done.others;
  }

  own :
      (files : Directory) (parts : Parts) (k : ℕ)
      → (parts.first ≡ some k) ⊎ (parts.second ≡ k)
      → Part (add (add_first files parts.first) parts.second) k
  own files parts k (inl e) =
      add-keeps (add_first files parts.first) parts.second k (add_first-has files parts.first k e)
  own files parts k (inr e) =
      let begun = add_first files parts.first in
      subst (Part (add begun parts.second)) e
        (put_file-same begun (part_name filename parts.second) _)

  Gathered-some :
      (parts : Parts) (ts : List (Option Parts)) (s : Serving) (ss : List Serving)
      (files : Directory) (t : Thread Serving) (r : Ran Serving)
      → t.files ≡ add (add_first files parts.first) parts.second
      → t.retval ≡ 0
      → t.peer.files ≡ s.files
      → Gathered ts ss t.files r
      → Gathered (some parts ∷ ts) (s ∷ ss) files (record {
        peers = t.peer ∷ r.peers;
        files = r.files;
        printed = t.printed ++ r.printed;
        retvals = code t.retval ∷ r.retvals;
      })
  unfolding retval_of code_of
  Gathered-some parts ts s ss files t r files_are ret same done = record {
    same_peers = by_cases _ same done.same_peers;
    same_length = ap suc done.same_length;
    returned = by_cases _ ret done.returned;
    has =
        by_cases _
          (λ k (q, is_q, asks). done.keeps k (
            subst (λ f. Part f k) (sym files_are)
              (own files parts k (
                subst (λ p. (p.first ≡ some k) ⊎ (p.second ≡ k)) (sym (some-injective parts q is_q))
                  asks))))
          done.has;
    keeps = λ k h. done.keeps k (
        subst (λ f. Part f k) (sym files_are)
          (add-keeps (add_first files parts.first) parts.second k
            (add_first-keeps files parts.first k h)));
    others = λ q h.
        done.others q h
        ∙ ap (λ f. f q) files_are
        ∙ put_file-other (add_first files parts.first) (part_name filename parts.second) _ q
            (h parts.second)
        ∙ add_first-other files parts.first q h;
  }

  module _ (stale pkt : Bytes)
      (req : IsRequest conf.username conf.password fits.username_fits fits.password_fits cmd_get
        pkt) where
    is_get : msg_type_of pkt ≡ cmd_get
    is_get =
        let (body, size, shape) = req in
        ap msg_type_of shape
        ∙ (packet_of-Reads conf.username conf.password fits.username_fits fits.password_fits cmd_get
            0 body size).msg_type_is

    pub run_threads-Gathered :
        (ts : List (Option Parts)) (peers : List Serving) (files : Directory)
        → length ts ≡ length peers
        → All (GetParts (length conf.hosts)) ts
        → ((i k : ℕ) → Transfers ts i k → Holds conf path filename file (files_of peers i) k)
        → (r : Ran Serving) × (run_threads conf
              (server users fs)
              creates
              stale
              (started path filename pkt)
              ts
              peers
              files
            ≡ some r)
          × Gathered ts peers files r
    unfolding run_threads retval_of code_of
    run_threads-Gathered [] peers files len all held = (
      record { peers = peers; files = files; printed = []; retvals = [] },
      refl,
      record {
        same_peers = λ i. refl;
        same_length = refl;
        returned = λ i. refl;
        has = λ i k (p, got, asks). cc;
        keeps = λ k h. h;
        others = λ q h. refl;
      },
    )
    run_threads-Gathered (p ∷ ts) [] files len all held = absurd (omega arith)
    run_threads-Gathered (none ∷ ts) (s ∷ ss) files len all held =
        let (r, ran, done) =
          run_threads-Gathered ts ss files (omega arith) all.1 (λ i k t. held (suc i) k t) in
        (
          record r { peers = s ∷ r.peers; retvals = code 0 ∷ r.retvals },
          rw ran refl,
          Gathered-none ts s ss files r done,
        )
    run_threads-Gathered (some parts ∷ ts) (s ∷ ss) files len ((lt_a, lt_b), all) held =
        let begun = start stale files s in
        let (t, got, files_are, ret, same) =
          handle_get-fetches conf users fs honest known path filename file fits creates can
            parts.first parts.second pkt begun lt_a lt_b req (λ i e. held 0 i (parts, refl, inl e))
            (held 0 parts.second (parts, refl, inr refl)) in
        let handled =
          connection_handler-get conf (server users fs) creates path filename pkt parts begun is_get
            got in
        let (r, ran, done) =
          run_threads-Gathered ts ss t.files (omega arith) all (λ i k h. held (suc i) k h) in
        (
          record {
            peers = t.peer ∷ r.peers;
            files = r.files;
            printed = t.printed ++ r.printed;
            retvals = code t.retval ∷ r.retvals;
          },
          rw (handled, ran) refl,
          Gathered-some parts ts s ss files t r files_are ret same done,
        )
