-- ===== src/Dfc/Session/Merged.antt =====
-- The loop of a "get" in `main` of dfc/client.c, where the servers that are up have the parts.
use network_system_hw.Base.{
  ℕ, zero, suc, ◌<◌, ◌≡◌, refl, sym, ◌∙◌, ◌⊎◌, inl, inr, some-injective, Bool, true, false, List,
  [], ◌∷◌, ◌++◌, Option, none, some, arith, length, All, Bytes, str_eq, subst,
}
use network_system_hw.Dfc.Client.{Peer}
use network_system_hw.Dfc.Client.Paths.{Fits}
use network_system_hw.Dfc.Client.Requests.{IsRequest}
use network_system_hw.Dfc.Client.Stores.{Holds, started, put_file-same, put_file-other}
use network_system_hw.Dfc.Config.{ClientConfig, User}
use network_system_hw.Dfc.Packet.{cmd_get}
use network_system_hw.Dfc.Partition.{Directory, put_file, delete_partitions}
use network_system_hw.Dfc.Partition.Merge.{
  merge_partitions-partition, delete_from-other, part_name-other, part_name-longer,
}
use network_system_hw.Dfc.Partition.Names.{IsApart, part_name, set_partition_name-fits}
use network_system_hw.Dfc.Placement.{Parts, Transfers, threads}
use network_system_hw.Dfc.Placement.Retry.{mark-zero}
use network_system_hw.Dfc.Server.{check_user, Disk}
use network_system_hw.Dfc.Server.Loop.{Serving, server}
use network_system_hw.Dfc.Server.Replies.{IsHonest}
use network_system_hw.Dfc.Session.{Session, retval_of, put_together, fetch, ended}
use network_system_hw.Dfc.Session.Gets.{HasPart, run_threads-Gathered}
use network_system_hw.Dfc.Session.Parameters.{GetParts, length-threads, threads-GetParts}
use network_system_hw.Dfc.Session.Puts.{files_of}

pub threads-some :
    (h cmd : ℕ) (hosts : List Bool)
    → 0 < length hosts
    → (ts : List (Option Parts)) × (threads h cmd hosts ≡ some ts)
unfolding threads
threads-some h cmd [] pos = absurd (omega arith)
threads-some h cmd (b ∷ hosts) pos = (_, refl)

pub All-Transfers-lt :
    (nh : ℕ) (ts : List (Option Parts)) (i k : ℕ) → All (GetParts nh) ts → Transfers ts i k → k < nh
All-Transfers-lt nh [] i k all (p, got, asks) = cc
All-Transfers-lt nh (none ∷ ts) zero k all (p, got, asks) = cc
All-Transfers-lt nh (some q ∷ ts) zero k ((first, second), all) (p, got, asks) =
    elim (subst (λ r. (r.first ≡ some k) ⊎ (r.second ≡ k)) (sym (some-injective q p got)) asks) [
      | inl e ↦ first k e
      | inr e ↦ subst (λ j. j < nh) e second
    ]
All-Transfers-lt nh (t ∷ ts) (suc i) k all asks = All-Transfers-lt nh ts i k all.1 asks

module _ (conf : ClientConfig) (creates : Bytes → Bool) (can : (name : Bytes) → creates name ≡ true)
    (path filename file : Bytes) (fits : Fits conf path filename)
    (pos : 0 < length conf.hosts) where
  -- All parts in the directory become the file, and are deleted.
  put_together-file :
      {S : Type 0} (peer : Peer S) (stale : Bytes) (st : Session S)
      → ((k : ℕ) → k < length conf.hosts → HasPart conf filename file st.files k)
      → (files' : Directory) × (put_together conf peer creates stale filename st
          ≡ some (record st { files = files' }))
        × (files' filename ≡ some file)
        × ((q : Bytes) → IsApart filename q → str_eq q filename ≡ false → files' q ≡ st.files q)
  unfolding delete_partitions
  put_together-file peer stale st has =
      let emptied = put_file st.files filename [] in
      let merged =
        merge_partitions-partition emptied filename file (length conf.hosts)
          (λ k lt. (
            part_name filename k,
            set_partition_name-fits 128 filename k (fits.names_fit k lt),
            put_file-other st.files filename [] (part_name filename k) (part_name-longer filename k)
                ∙ has k lt,
          ))
          pos in
      let (files', deleted, others) =
        delete_from-other filename (length conf.hosts) 0 (put_file st.files filename file)
          (λ k lt. fits.names_fit k (omega arith)) in
      (
        files',
        rw (can filename, merged, deleted) refl,
        others filename (part_name-other filename) ∙ put_file-same st.files filename file,
        λ q apart other. others q apart ∙ put_file-other st.files filename file q other,
      )

  module _ (users : List User) (fs : Directory → Disk) (honest : IsHonest fs)
      (known : check_user users conf.username conf.password ≡ true) (stale pkt : Bytes)
      (req : IsRequest conf.username conf.password fits.username_fits fits.password_fits cmd_get
        pkt) where
    -- If the threads ask for every part, and ask servers that have it, one round is enough.
    pub fetch-file :
        (fuel h : ℕ) (st : Session Serving) (ts : List (Option Parts))
        → threads h cmd_get st.hosts ≡ some ts
        → length st.hosts ≡ length conf.hosts
        → length st.peers ≡ length conf.hosts
        → ((i k : ℕ) → Transfers ts i k → Holds conf path filename file (files_of st.peers i) k)
        → ((k : ℕ) → k < length conf.hosts → (i : ℕ) × Transfers ts i k)
        → (st' : Session Serving) × (fetch conf
              (server users fs)
              creates
              stale
              (suc fuel)
              (started path filename pkt)
              h
              filename
              st
            ≡ some (ended st'))
          × (st'.hosts ≡ st.hosts)
          × (st'.files filename ≡ some file)
          × ((q : Bytes)
              → IsApart filename q
              → str_eq q filename ≡ false
              → st'.files q ≡ st.files q)
    unfolding fetch
    fetch-file fuel h st ts begun same_hosts same_peers held asked =
        let (r, ran, done) =
          run_threads-Gathered conf users fs honest known path filename file fits creates can stale
            pkt req ts st.peers st.files
            (length-threads h cmd_get st.hosts begun ∙ same_hosts ∙ sym same_peers)
            (subst (λ n. All (GetParts n) ts) same_hosts (threads-GetParts h st.hosts begun))
            held in
        let marked = mark-zero (retval_of r.retvals) 0 st.hosts done.returned in
        let st1 : Session Serving = record st {
          peers = r.peers;
          files = r.files;
          printed = st.printed ++ r.printed;
        } in
        let (files', together, there, others) =
          put_together-file (server users fs) stale st1
            (λ k lt. let (i, t) = asked k lt in done.has i k t) in
        (
          record st1 { files = files' },
          rw (begun, ran, marked) (rw together refl),
          refl,
          there,
          λ q apart other. others q apart other ∙ done.others q apart,
        )
