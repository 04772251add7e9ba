-- ===== src/Dfc/Session/Frame.antt =====
-- Which of the client's files a line of input can change in `main` of dfc/client.c, whatever the
-- servers answer.
use network_system_hw.Dfc.Client.Ends.{KeptAtEnd, connection_handler-Kept}
use network_system_hw.Dfc.Client.Frame.{Same, set_partition_name-is}
use network_system_hw.Base.{
  ℕ, zero, suc, ◌≡◌, refl, ap, ◌∙◌, Bool, true, false, List, [], ◌∷◌, Option, none, some, ◌>>=◌,
  Ensures, Ensures-bind, Ensures-if, Ensures-mono, Ensures-some, length, Bytes, str_eq,
}
use network_system_hw.Dfc.Client.{Peer, ThreadParam, connection_handler}
use network_system_hw.Dfc.Client.Stores.{put_file-other}
use network_system_hw.Dfc.Config.{ClientConfig}
use network_system_hw.Dfc.Packet.{cmd_get}
use network_system_hw.Dfc.Partition.{
  Directory, put_file, unlink, set_partition_name, merge_partitions, delete_partitions, delete_from,
}
use network_system_hw.Dfc.Partition.Names.{part_name, IsApart}
use network_system_hw.Dfc.Placement.{Parts, threads}
use network_system_hw.Dfc.Session.{
  Session, Ran, run_threads, start, put_together, merge_file, after_get, fetch, Got, unfinished,
  ended, session_of,
}

delete_from-Same :
    (filename : Bytes) (n i : ℕ) (files : Directory)
    → Ensures (Same filename files) (delete_from files filename i n)
unfolding delete_from
delete_from-Same filename zero i files = λ q apart. refl
delete_from-Same filename (suc n) i files =
    Ensures-bind (Same filename files) (set_partition_name 128 filename i) _ λ pname named.
      Ensures-mono (delete_from (unlink files pname) filename (suc i) n)
        (λ files' same q apart.
          same q apart
          ∙ rw (ap (str_eq q) (set_partition_name-is 128 filename pname i named) ∙ apart i) refl)
        (delete_from-Same filename n (suc i) (unlink files pname))

module _ {S : Type 0} (conf : ClientConfig) (peer : Peer S) (creates : Bytes → Bool)
    (stale : Bytes) where
  -- The threads of a round change the parts of their file at most.
  run_threads-Same :
      (param : Parts → ThreadParam) (filename : Bytes)
      → ((parts : Parts) → (param parts).filename ≡ filename)
      → (ts : List (Option Parts)) (peers : List S) (files : Directory)
      → Ensures
          (λ r. Same filename files r.files)
          (run_threads conf peer creates stale param ts peers files)
  unfolding run_threads
  run_threads-Same param filename named [] peers files = λ q apart. refl
  run_threads-Same param filename named (p ∷ ts) [] files = tt
  run_threads-Same param filename named (none ∷ ts) (s ∷ ss) files =
      Ensures-bind (λ (r : Ran S). Same filename files r.files)
        (run_threads conf peer creates stale param ts ss files) _
        λ r e.
          Ensures-some (λ (r : Ran S). Same filename files r.files) _
            (run_threads-Same param filename named ts ss files) e
  run_threads-Same param filename named (some parts ∷ ts) (s ∷ ss) files =
      let P = λ (r : Ran S). Same filename files r.files in
      Ensures-bind P (connection_handler conf peer creates (param parts) (start stale files s)) _
        λ e handled.
          Ensures-bind P (run_threads conf peer creates stale param ts ss e.0.files) _
            λ r ran q apart.
              Ensures-some (λ (r : Ran S). Same filename e.0.files r.files) _
                (run_threads-Same param filename named ts ss e.0.files) ran q apart
              ∙ Ensures-some (KeptAtEnd conf peer (param parts).filename (start stale files s)) _
                  (connection_handler-Kept conf peer creates (param parts) (start stale files s))
                  handled q (λ k. ap (λ f. str_eq q (part_name f k)) (named parts) ∙ apart k)

  -- Sessions whose files differ in the file and its parts at most.
  abbrev pub Tidy : Bytes → Session S → Session S → Type 0
  Tidy filename st st' =
      (q : Bytes) → IsApart filename q → str_eq q filename ≡ false → st'.files q ≡ st.files q

  merge_file-tidy :
      (files : Directory) (filename : Bytes)
      → Ensures
          (λ (files' : Directory). (q : Bytes) → str_eq q filename ≡ false → files' q ≡ files q)
          (merge_file conf peer creates stale files filename)
  merge_file-tidy files filename =
      let P =
        λ (files' : Directory). (q : Bytes) → str_eq q filename ≡ false → files' q ≡ files q in
      Ensures-if P (creates filename) _ _
        (λ _.
          Ensures-bind P
            (merge_partitions (put_file files filename []) filename (length conf.hosts)) _
            λ content _ q other. put_file-other files filename content q other)
        λ _ q other. refl

  put_together-Tidy :
      (filename : Bytes) (st : Session S)
      → Ensures (Tidy filename st) (put_together conf peer creates stale filename st)
  unfolding delete_partitions
  put_together-Tidy filename st =
      let P = Tidy filename st in
      Ensures-bind P (merge_file conf peer creates stale st.files filename) _ λ files merged.
        Ensures-bind P (delete_from files filename 0 (length conf.hosts)) _
          λ files' deleted q apart other.
            Ensures-some (Same filename files) _
              (delete_from-Same filename (length conf.hosts) 0 files) deleted q apart
            ∙ Ensures-some
                (λ (fs : Directory). (q : Bytes) → str_eq q filename ≡ false → fs q ≡ st.files q) _
                (merge_file-tidy st.files filename) merged q other

  -- The same of the end of a "get"
  abbrev TidyEnd : Bytes → Session S → Got S → Type 0
  TidyEnd filename st unfinished = Unit
  TidyEnd filename st (ended st') = Tidy filename st st'

  TidyEnd-from :
      (filename : Bytes) (st0 st : Session S) (g : Got S)
      → ((q : Bytes) → IsApart filename q → st.files q ≡ st0.files q)
      → TidyEnd filename st g
      → TidyEnd filename st0 g
  TidyEnd-from filename st0 st unfinished same tidy = tt
  TidyEnd-from filename st0 st (ended u) same tidy =
      λ q apart other. tidy q apart other ∙ same q apart

  session_of-Tidy :
      (filename : Bytes) (st : Session S) (g : Got S)
      → TidyEnd filename st g
      → Ensures (Tidy filename st) (session_of conf peer creates stale g)
  session_of-Tidy filename st unfinished tidy = tt
  session_of-Tidy filename st (ended u) tidy = tidy

  after_get-Tidy :
      (again : Session S → Option (Got S)) (filename : Bytes) (retry flag : Bool)
      (st0 st : Session S)
      → ((q : Bytes) → IsApart filename q → st.files q ≡ st0.files q)
      → ((u : Session S) → Ensures (TidyEnd filename u) (again u))
      → Ensures
          (TidyEnd filename st0)
          (after_get conf peer creates stale again filename retry flag st)
  after_get-Tidy again filename true flag st0 st same later =
      Ensures-mono (again st) (λ g. TidyEnd-from filename st0 st g same) (later st)
  after_get-Tidy again filename false true st0 st same later = λ q apart other. same q apart
  after_get-Tidy again filename false false st0 st same later =
      Ensures-bind (TidyEnd filename st0) (put_together conf peer creates stale filename st) _
        λ u done q apart other.
          Ensures-some (Tidy filename st) _ (put_together-Tidy filename st) done q apart other
          ∙ same q apart

  module _ (param : Parts → ThreadParam) (filename : Bytes)
      (named : (parts : Parts) → (param parts).filename ≡ filename) where
    fetch-TidyEnd :
        (fuel h : ℕ) (st : Session S)
        → Ensures (TidyEnd filename st) (fetch conf peer creates stale fuel param h filename st)
    unfolding fetch
    fetch-TidyEnd zero h st = tt
    fetch-TidyEnd (suc fuel) h st =
        let P = TidyEnd filename st in
        Ensures-bind P (threads h cmd_get st.hosts) _ λ ts _.
          Ensures-bind P (run_threads conf peer creates stale param ts st.peers st.files) _ λ r ran.
            after_get-Tidy (fetch conf peer creates stale fuel param h filename) filename _ _ st _
              (Ensures-some (λ (r : Ran S). Same filename st.files r.files) _
                (run_threads-Same param filename named ts st.peers st.files) ran)
              (fetch-TidyEnd fuel h)

    pub fetch-Tidy :
        (fuel h : ℕ) (st : Session S)
        → Ensures (Tidy filename st) (
            fetch conf peer creates stale fuel param h filename st
            >>= session_of conf peer creates stale)
    fetch-Tidy fuel h st =
        Ensures-bind (Tidy filename st) (fetch conf peer creates stale fuel param h filename st) _
          λ g done.
            session_of-Tidy filename st g
              (Ensures-some (TidyEnd filename st) _ (fetch-TidyEnd fuel h st) done)
