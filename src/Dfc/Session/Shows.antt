-- ===== src/Dfc/Session/Shows.antt =====
-- What a "list" of dfc/client.c prints.
use network_system_hw.Dfc.Client.{Returned}
use network_system_hw.Base.{
  true≢false, append-nil, All, ℕ, ◌+◌, ◌<◌, ◌≤◌, ◌≡◌, ◌↔◌, refl, sym, ap, ◌∙◌, Bool, true,
  Bool-cases, inl, inr, List, [], ◌∷◌, ◌++◌, map, Option, some, ltb, lt→ltb, ◌==◌, ==_iff, arith,
  length, length-append, Bytes, Lacks, codes, str_eq,
}
use network_system_hw.Strutil.{lower}
use network_system_hw.Dfc.Config.{ClientConfig, User}
use network_system_hw.Dfc.Listing.{Row, count_parts, show_row, texts, listing}
use network_system_hw.Dfc.Listing.Complete.{IsRow, count_parts_complete}
use network_system_hw.Dfc.Listing.Counts.{is_listed}
use network_system_hw.Dfc.Listing.Lines.{IsName, lines, split-lines, length-lines}
use network_system_hw.Dfc.Packet.{packet_size, cmd_ls, build_msg_packet}
use network_system_hw.Dfc.Packet.Messages.{FitsField, build_msg_packet-Reads}
use network_system_hw.Dfc.Partition.{Directory}
use network_system_hw.Dfc.Placement.{Parts, threads}
use network_system_hw.Dfc.Placement.Retry.{mark-zero}
use network_system_hw.Dfc.Server.{makes_dir, check_user, set_path, Disk}
use network_system_hw.Dfc.Server.Loop.{Serving, server}
use network_system_hw.Dfc.Session.{
  param_of, Session, retval_of, words, command_of, run_command, command_round,
}
use network_system_hw.Dfc.Session.Lists.{
  all_names, AllListable, all_names-IsName, run_threads-Listed,
}
use network_system_hw.Dfc.Session.Parameters.{length-threads}

-- A row is shown as the plain name just if its count is 15.
show_row_iff : (r : Row) → (show_row r ≡ r.name) ↔ (r.count ≡ 15)
unfolding show_row
show_row_iff r = elim (Bool-cases (r.count == 15)) [
  | inl full ↦ rw full (λ _. (==_iff r.count 15).0 full, λ _. refl)
  | inr part ↦ rw part (
    λ e. absurd (omega (arith, ap length e, length-append r.name (codes " [imcomplete]"))),
    λ e. absurd (true≢false (sym ((==_iff r.count 15).1 e) ∙ part)),
  )
]

listing-lines :
    (rs : List Returned) (names : List Bytes) (rows : List Row)
    → texts rs ≡ lines names
    → All IsName names
    → length (lines names) < 4096
    → count_parts [] names ≡ some rows
    → listing rs ≡ some (map show_row rows)
unfolding listing
listing-lines rs names rows text good short counted =
    let slots : length names ≤ 4096 = omega (arith, length-lines names, short) in
    rw (text, lt→ltb (length (lines names)) 4096 short, split-lines 4096 names good slots, counted)
      refl

module _ (conf : ClientConfig) (users : List User) (fs : Directory → Disk)
    (known : check_user users conf.username conf.password ≡ true)
    (makes : (s : Directory) (path : Bytes) → makes_dir (fs s) path ≡ true) (operand dir : Bytes)
    (at : set_path conf.username operand ≡ some dir) (creates : Bytes → Bool) (stale : Bytes)
    (digest : Bytes → Bytes) (fu : FitsField conf.username) (fw : FitsField conf.password) where
  abbrev names : List (Option Parts) → List Serving → List Bytes
  names = all_names conf users fs known makes operand dir at

  runs_list :
      (st : Session Serving) (line w pkt : Bytes) (rest : List Bytes)
      → words line ≡ some (w ∷ operand ∷ rest)
      → lower w ≡ codes "list"
      → build_msg_packet cmd_ls 0 (some operand) (some (conf.username, conf.password)) ≡ some pkt
      → command_round conf (server users fs) creates stale digest st line
        ≡ run_command conf
            (server users fs)
            creates
            stale
            cmd_ls
            (param_of cmd_ls (w ∷ operand ∷ rest) pkt)
            0
            operand
            (record st { pointed = true })
  unfolding command_round command_of str_eq
  runs_list st line w pkt rest read is_list built = rw (read, is_list, built) refl

  -- A "list" of a directory prints a line for each file of which a server that is up lists a part,
  -- and changes neither the client's files nor the servers that are up. The line is the plain name,
  -- which stands for a complete file, just if the parts 0 to 3 of the file and no others are listed
  -- by the servers that are up together. The user is known to the servers, the operand and each
  -- server's names fit a packet, all names together the client's 4096 bytes, every name is one that
  -- the counting is defined for, and neither the file systems nor the connections fail.
  pub command_round-list :
      (st : Session Serving) (line w : Bytes) (rest : List Bytes) (ts : List (Option Parts))
      (rows : List Row)
      → words line ≡ some (w ∷ operand ∷ rest)
      → lower w ≡ codes "list"
      → Lacks 0 operand
      → 36 + length operand < packet_size
      → threads 0 cmd_ls st.hosts ≡ some ts
      → length st.hosts ≡ length st.peers
      → AllListable conf users fs known makes operand dir at ts st.peers
      → length (lines (names ts st.peers)) < 4096
      → count_parts [] (names ts st.peers) ≡ some rows
      → (st' : Session Serving) × (command_round conf (server users fs) creates stale digest st line
          ≡ some st')
        × (st'.printed ≡ st.printed ++ map show_row rows)
        × (st'.files ≡ st.files)
        × (st'.hosts ≡ st.hosts)
        × ((r : Row)
            → IsRow r rows
            → (show_row r ≡ r.name) ↔ ((k : ℕ) → is_listed (names ts st.peers) r.name k ≡ ltb k 4))
        × ((name : Bytes) (k : ℕ)
            → is_listed (names ts st.peers) name k ≡ true
            → (r : Row) × IsRow r rows × (r.name ≡ name))
  unfolding run_command
  command_round-list st line w rest ts rows read is_list clean short begun same_length ok fits
        counted =
      let (pkt, built, reads) =
        build_msg_packet-Reads conf.username conf.password fu fw cmd_ls 0 operand (omega arith)
          (omega arith) clean short in
      let (r, ran, done) =
        run_threads-Listed conf users fs known makes operand dir at creates stale pkt
          (w ∷ operand ∷ rest) reads ts st.peers st.files
          (length-threads 0 cmd_ls st.hosts begun ∙ same_length) ok in
      let shown =
        listing-lines r.retvals (names ts st.peers) rows done.text
          (all_names-IsName conf users fs known makes operand dir at ts st.peers ok) fits counted in
      let marked = mark-zero (retval_of r.retvals) 0 st.hosts done.returned in
      let (complete, all) = count_parts_complete (names ts st.peers) rows counted in
      (
        record st {
          peers = r.peers;
          files = r.files;
          printed = (st.printed ++ r.printed) ++ map show_row rows;
          pointed = true;
        },
        runs_list st line w pkt rest read is_list built ∙ rw (begun, ran, marked, shown) refl,
        ap (λ l. (st.printed ++ l) ++ map show_row rows) done.silent
            ∙ ap (λ l. l ++ map show_row rows) (append-nil st.printed),
        done.same_files,
        refl,
        λ row i.
            let (to, from) = show_row_iff row in
            let (there, back) = complete row i in (λ e. there (to e), λ listed. from (back listed)),
        all,
      )
