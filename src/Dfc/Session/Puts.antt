-- ===== src/Dfc/Session/Puts.antt =====
-- The threads of a "put" of dfc/client.c with the servers.
use network_system_hw.Base.{
  ℕ, zero, suc, ◌^◌, ◌<◌, ◌≡◌, refl, sym, ap, subst, ◌∙◌, inl, inr, Bool, true, List, [], ◌∷◌, ◌++◌,
  Option, none, some, some-injective, arith, length, get_or, All, Bytes,
}
use network_system_hw.Dfc.Client.{Peer, Thread, code, handle_put, connection_handler}
use network_system_hw.Dfc.Client.Paths.{Fits}
use network_system_hw.Dfc.Client.Requests.{IsRequest}
use network_system_hw.Dfc.Client.Stores.{Holds, started, handle_put-stores}
use network_system_hw.Dfc.Config.{ClientConfig, User}
use network_system_hw.Dfc.Mask.{IsByte}
use network_system_hw.Dfc.Packet.{cmd_put, msg_type_of}
use network_system_hw.Dfc.Packet.Messages.{packet_of-Reads}
use network_system_hw.Dfc.Partition.{Directory}
use network_system_hw.Dfc.Placement.{Parts, Transfers}
use network_system_hw.Dfc.Server.{check_user, Disk}
use network_system_hw.Dfc.Server.Loop.{Serving, server}
use network_system_hw.Dfc.Server.Replies.{IsHonest}
use network_system_hw.Dfc.Session.{Ran, start, run_threads}
use network_system_hw.Dfc.Session.Parameters.{PutParts}

-- The files of server `i`
abbrev pub files_of : List Serving → ℕ → Directory
files_of peers i = (get_or peers i (record { files = λ q. none; receives = none })).files

connection_handler-put :
    {S : Type 0} (conf : ClientConfig) (peer : Peer S) (creates : Bytes → Bool)
    (path filename pkt : Bytes) (parts : Parts) (t : Thread S) {t' : Thread S}
    → msg_type_of pkt ≡ cmd_put
    → handle_put conf peer (started path filename pkt parts) t ≡ some t'
    → connection_handler conf peer creates (started path filename pkt parts) t
      ≡ some (t', code t'.retval)
unfolding connection_handler
connection_handler-put conf peer creates path filename pkt parts t is_put done =
    rw (is_put, done) refl

module _ (conf : ClientConfig) (users : List User) (fs : Directory → Disk) (honest : IsHonest fs)
    (known : check_user users conf.username conf.password ≡ true) (path filename file : Bytes)
    (fits : Fits conf path filename) (small : length file < 2 ^ 32) (bytes : All IsByte file)
    (creates : Bytes → Bool) (stale pkt : Bytes)
    (req : IsRequest conf.username conf.password fits.username_fits fits.password_fits cmd_put
      pkt) where
  is_put : msg_type_of pkt ≡ cmd_put
  is_put =
      let (body, size, shape) = req in
      ap msg_type_of shape
      ∙ (packet_of-Reads conf.username conf.password fits.username_fits fits.password_fits cmd_put 0
          body size).msg_type_is

  -- What the threads of a "put" leave: each server has the parts that it was given.
  pub record Stored (ts : List (Option Parts)) (peers : List Serving) (files : Directory)
      (r : Ran Serving) : Type 0 where
    pub same_files : r.files ≡ files
    pub same_length : length r.peers ≡ length peers
    pub holds : (i k : ℕ) → Transfers ts i k → Holds conf path filename file (files_of r.peers i) k

  pub run_threads-Stored :
      (ts : List (Option Parts)) (peers : List Serving) (files : Directory)
      → length ts ≡ length peers
      → All (PutParts (length conf.hosts)) ts
      → files filename ≡ some file
      → (r : Ran Serving) × (run_threads conf
            (server users fs)
            creates
            stale
            (started path filename pkt)
            ts
            peers
            files
          ≡ some r)
        × Stored ts peers files r
  unfolding run_threads
  run_threads-Stored [] peers files len all there = (
    record { peers = peers; files = files; printed = []; retvals = [] },
    refl,
    record { same_files = refl; same_length = refl; holds = λ i k (p, got, asks). cc },
  )
  run_threads-Stored (p ∷ ts) [] files len all there = absurd (omega arith)
  run_threads-Stored (none ∷ ts) (s ∷ ss) files len all there =
      let (r, ran, done) = run_threads-Stored ts ss files (omega arith) all.1 there in
      (
        record r { peers = s ∷ r.peers; retvals = code 0 ∷ r.retvals },
        rw ran refl,
        record {
          same_files = done.same_files;
          same_length = ap suc done.same_length;
          holds = later_none r done;
        },
      )
    where
      later_none :
          (r : Ran Serving)
          → Stored ts ss files r
          → (i k : ℕ) → Transfers (none ∷ ts) i k
          → Holds conf path filename file (files_of (s ∷ r.peers) i) k
      later_none r done zero k (q, got, asks) = cc
      later_none r done (suc i) k t = done.holds i k t
  run_threads-Stored (some parts ∷ ts) (s ∷ ss) files len ((a, is_first, lt_a, lt_b), all) there =
      let begun = start stale files s in
      let of : Option ℕ → Parts = λ f. record { first = f; second = parts.second } in
      let shape : of (some a) ≡ parts = ap of (sym is_first) in
      let (t, put, same, _, holds_a, holds_b, _) =
        handle_put-stores conf users fs honest known path filename file fits small bytes a
          parts.second pkt begun lt_a lt_b req there in
      let handled =
        connection_handler-put conf (server users fs) creates path filename pkt parts begun is_put (
          ap (λ q. handle_put conf (server users fs) (started path filename pkt q) begun)
            (sym shape)
          ∙ put) in
      let (r, ran, done) =
        run_threads-Stored ts ss t.files (omega arith) all (ap (λ f. f filename) same ∙ there) in
      (
        record {
          peers = t.peer ∷ r.peers;
          files = r.files;
          printed = t.printed ++ r.printed;
          retvals = code t.retval ∷ r.retvals;
        },
        rw (handled, ran) refl,
        record {
          same_files = done.same_files ∙ same;
          same_length = ap suc done.same_length;
          holds = held t r done is_first holds_a holds_b;
        },
      )
    where
      held :
          (t : Thread Serving) (r : Ran Serving)
          → Stored ts ss t.files r
          → {a : ℕ} → parts.first ≡ some a
          → Holds conf path filename file t.peer.files a
          → Holds conf path filename file t.peer.files parts.second
          → (i k : ℕ) → Transfers (some parts ∷ ts) i k
          → Holds conf path filename file (files_of (t.peer ∷ r.peers) i) k
      held t r done is_first holds_a holds_b zero k (q, got, asks) =
          let same = some-injective _ _ got in
          elim asks [
            | inl e ↦
                subst (Holds conf path filename file t.peer.files)
                  (some-injective _ _ (sym is_first ∙ ap (λ p. p.first) same ∙ e)) holds_a
            | inr e ↦
                subst (Holds conf path filename file t.peer.files) (ap (λ p. p.second) same ∙ e)
                  holds_b
          ]
      held t r done is_first holds_a holds_b (suc i) k asks = done.holds i k asks
