-- ===== src/Dfc/Session/RoundTrip.antt =====
-- A file that is put and got by the command loop of dfc/client.c, with the servers in between.
use native.Mathlib.Nat.{mod-lt}
use network_system_hw.Dfc.Partition.Names.{IsApart}
use network_system_hw.Base.{
  ◌>>=◌, if◌then◌else◌, ℕ, ◌+◌, ◌^◌, ◌<◌, ◌≡◌, refl, sym, ap, ◌∙◌, true, false, Bool, List, [], ◌∷◌,
  ◌++◌, decimal, Option, none, some, arith, length, length-append, get_or, All, Bytes, codes,
  str_eq, subst,
}
use network_system_hw.Strutil.{lower}
use network_system_hw.Dfc.Client.Paths.{Fits}
use network_system_hw.Dfc.Client.Stores.{Holds, started}
use network_system_hw.Dfc.Config.{ClientConfig, User}
use network_system_hw.Dfc.Mask.{IsByte}
use network_system_hw.Dfc.Packet.{packet_size, cmd_put, cmd_get, build_msg_packet}
use network_system_hw.Dfc.Partition.{Directory}
use network_system_hw.Dfc.Placement.{Parts, Transfers, threads, up}
use network_system_hw.Dfc.Placement.Availability.{threads-Transfers}
use network_system_hw.Dfc.Server.{check_user, Disk}
use network_system_hw.Dfc.Server.Loop.{Serving, server}
use network_system_hw.Dfc.Server.Replies.{IsHonest}
use network_system_hw.Dfc.Session.{
  Session, md5_mod, words, command_of, run_command, command_round, session_of,
}
use network_system_hw.Dfc.Session.Merged.{fetch-file, threads-some, All-Transfers-lt}
use network_system_hw.Dfc.Session.Parameters.{
  GetParts, PutParts, length-threads, threads-PutParts, threads-GetParts,
  build_msg_packet-IsRequest,
}
use network_system_hw.Dfc.Session.Puts.{files_of, run_threads-Stored}

-- The line has the command, in small letters, the file's name and the directory, or nothing, as
-- its words.
abbrev pub Asks : Bytes → Bytes → Bytes → Bytes → Type 0
Asks line command filename path =
    (w : Bytes) × (rest : List Bytes) × (words line ≡ some (w ∷ filename ∷ rest))
    × (lower w ≡ command)
    × (get_or rest 0 [] ≡ path)

module _ (conf : ClientConfig) (users : List User) (fs : Directory → Disk) (honest : IsHonest fs)
    (known : check_user users conf.username conf.password ≡ true) (creates : Bytes → Bool)
    (can : (name : Bytes) → creates name ≡ true) (stale : Bytes) (digest : Bytes → Bytes)
    (path filename file : Bytes) (fits : Fits conf path filename) (pos : 0 < length conf.hosts)
    (small : length file < 2 ^ 32) (bytes : All IsByte file) where
  abbrev h : ℕ
  h = md5_mod digest filename (length conf.hosts)

  short : 36 + length filename < packet_size
  short =
      let name = fits.names_fit 0 pos in
      omega (arith, name, length-append filename (b'.' ∷ decimal 0))

  runs_put :
      (st : Session Serving) (line pkt : Bytes)
      → Asks line (codes "put") filename path
      → build_msg_packet cmd_put 0
          (if st.pointed then some filename else none)
          (some (conf.username, conf.password))
        ≡ some pkt
      → command_round conf (server users fs) creates stale digest st line
        ≡ run_command conf
            (server users fs)
            creates
            stale
            cmd_put
            (started path filename pkt)
            h
            filename
            st
  unfolding command_round command_of str_eq
  runs_put st line pkt (w, rest, read, is_put, at) built =
      rw (read, is_put, built)
        (ap
          (λ d.
            run_command conf (server users fs) creates stale cmd_put (started d filename pkt) h
              filename st)
          at)

  runs_get :
      (st : Session Serving) (line pkt : Bytes)
      → Asks line (codes "get") filename path
      → build_msg_packet cmd_get 0
          (if st.pointed then some filename else none)
          (some (conf.username, conf.password))
        ≡ some pkt
      → command_round conf (server users fs) creates stale digest st line
        ≡ run_command conf
            (server users fs)
            creates
            stale
            cmd_get
            (started path filename pkt)
            h
            filename
            st
  unfolding command_round command_of str_eq
  runs_get st line pkt (w, rest, read, is_get, at) built =
      rw (read, is_get, built)
        (ap
          (λ d.
            run_command conf (server users fs) creates stale cmd_get (started d filename pkt) h
              filename st)
          at)

  command_round-put :
      (st : Session Serving) (line : Bytes) (ts : List (Option Parts))
      → Asks line (codes "put") filename path
      → threads h cmd_put st.hosts ≡ some ts
      → length st.hosts ≡ length conf.hosts
      → length st.peers ≡ length conf.hosts
      → st.files filename ≡ some file
      → (st' : Session Serving) × (command_round conf (server users fs) creates stale digest st line
          ≡ some st')
        × (st'.files ≡ st.files)
        × (st'.hosts ≡ st.hosts)
        × (length st'.peers ≡ length conf.hosts)
        × ((i k : ℕ) → Transfers ts i k → Holds conf path filename file (files_of st'.peers i) k)
  unfolding run_command
  command_round-put st line ts asks begun same_hosts same_peers there =
      let (pkt, built, req) =
        build_msg_packet-IsRequest conf.username conf.password fits.username_fits fits.password_fits
          cmd_put st.pointed filename (omega arith) short in
      let (r, ran, done) =
        run_threads-Stored conf users fs honest known path filename file fits small bytes creates
          stale pkt req ts st.peers st.files
          (length-threads h cmd_put st.hosts begun ∙ same_hosts ∙ sym same_peers)
          (subst (λ n. All (PutParts n) ts) same_hosts (threads-PutParts h st.hosts begun)) there in
      (
        record st { peers = r.peers; files = r.files; printed = st.printed ++ r.printed },
        runs_put st line pkt asks built ∙ rw (begun, ran) refl,
        done.same_files,
        refl,
        done.same_length ∙ same_peers,
        done.holds,
      )

  -- A file that is put is got back as it was, from any client's directory, as long as of each part
  -- one server that took it is up: `put` starts with the servers of `st` that are up, and `get`
  -- with those of them that are still up. Both lines name the same file and directory. The user is
  -- known to the servers with this name and password, which fit their fields of 16 bytes, the
  -- password is not empty, the parts' names and paths fit the arrays, the file has less than 2 ^ 32
  -- bytes, neither the file systems nor the connections fail, and each `recv` at either end brings
  -- one whole packet of 560 bytes, which a stream does not promise and the code does not see to. The
  -- servers that are up stay marked as up, and no file but this one and its parts is changed.
  pub command_round-get_put :
      (st : Session Serving) (put_line get_line : Bytes) (later : List Bool)
      (stored : List (Option Parts))
      → Asks put_line (codes "put") filename path
      → Asks get_line (codes "get") filename path
      → length st.hosts ≡ length conf.hosts
      → length st.peers ≡ length conf.hosts
      → length later ≡ length conf.hosts
      → st.files filename ≡ some file
      → threads h cmd_put st.hosts ≡ some stored
      → ((i : ℕ) → up later i ≡ true → up st.hosts i ≡ true)
      → ((k : ℕ) → k < length conf.hosts → (s : ℕ) × Transfers stored s k × (up later s ≡ true))
      → (st1 : Session Serving) × (command_round conf
            (server users fs)
            creates
            stale
            digest
            st
            put_line
          ≡ some st1)
        × ((st2 : Session Serving)
            → st2.peers ≡ st1.peers
            → st2.hosts ≡ later
            → (st3 : Session Serving) × (command_round conf
                  (server users fs)
                  creates
                  stale
                  digest
                  st2
                  get_line
                ≡ some st3)
              × (st3.hosts ≡ later)
              × (st3.files filename ≡ some file)
              × ((q : Bytes)
                  → IsApart filename q
                  → str_eq q filename ≡ false
                  → st3.files q ≡ st2.files q))
  unfolding run_command
  command_round-get_put st put_line get_line later stored puts gets same_hosts same_peers same_later
        there begun kept alive =
      let (st1, put, _, _, same_after, holds) =
        command_round-put st put_line stored puts begun same_hosts same_peers there in
      let small_h : h < length later = subst (λ n. h < n) (sym same_later) (mod-lt _ pos) in
      let (asked, got) = threads-some h cmd_get later (omega (arith, same_later, pos)) in
      let one = λ (k : ℕ) (lt : k < length conf.hosts).
        let (s, took, is_up) = alive k lt in
        threads-Transfers st.hosts later h k s stored asked (same_hosts ∙ sym same_later) small_h
          kept begun got took is_up in
      let bounded = subst (λ n. All (GetParts n) asked) same_later (threads-GetParts h later got) in
      (
        st1,
        put,
        λ st2 same_p same_h.
            let (pkt, built, req) =
              build_msg_packet-IsRequest conf.username conf.password fits.username_fits
                fits.password_fits cmd_get st2.pointed filename (omega arith) short in
            let (st3, fetched, hosts3, there3, others) =
              fetch-file conf creates can path filename file fits pos users fs honest known stale
                pkt req (length st2.hosts) h st2 asked (ap (threads h cmd_get) same_h ∙ got)
                (ap length same_h ∙ same_later) (ap length same_p ∙ same_after)
                (λ i k t.
                  let (j, _, _, took, once) =
                    one k (All-Transfers-lt (length conf.hosts) asked i k bounded t) in
                  subst (λ ps. Holds conf path filename file (files_of ps i) k) (sym same_p)
                    (holds i k (subst (λ n. Transfers stored n k) (sym (once i t)) took)))
                (λ k lt. let (j, _, t, _, _) = one k lt in (j, t)) in
            (
              st3,
              runs_get st2 get_line pkt gets built
                  ∙ ap (λ m. m >>= session_of conf (server users fs) creates stale) fetched,
              hosts3 ∙ same_h,
              there3,
              others,
            ),
      )
