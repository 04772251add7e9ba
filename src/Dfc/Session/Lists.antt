-- ===== src/Dfc/Session/Lists.antt =====
-- A "list" of dfc/client.c with the servers.
use network_system_hw.Base.{
  All-append, has, ℕ, ◌+◌, ◌<◌, ◌≡◌, refl, sym, ap, ◌∙◌, Bool, true, List, [], ◌∷◌, ◌++◌, Option,
  none, some, by_cases, arith, length, All, Bytes,
}
use network_system_hw.Dfc.Client.{Thread, ThreadParam, code, result, handle_ls, connection_handler}
use network_system_hw.Dfc.Client.Fetches.{refill-full}
use network_system_hw.Dfc.Config.{ClientConfig, User}
use network_system_hw.Dfc.Listing.{texts}
use network_system_hw.Dfc.Listing.Lines.{
  IsName, lines, lines-append, lines-Lacks, visible, list_dir-lines,
}
use network_system_hw.Dfc.Packet.{packet_size, cmd_ls}
use network_system_hw.Dfc.Packet.Messages.{Reads}
use network_system_hw.Dfc.Partition.{Directory}
use network_system_hw.Dfc.Placement.{Parts}
use network_system_hw.Dfc.Server.{makes_dir, check_user, set_path, Disk}
use network_system_hw.Dfc.Server.Loop.{Serving, server}
use network_system_hw.Dfc.Server.Replies.{serve-list}
use network_system_hw.Dfc.Session.{Ran, start, run_threads, code_of, retval_of, param_of}

module _ (conf : ClientConfig) (users : List User) (fs : Directory → Disk)
    (known : check_user users conf.username conf.password ≡ true)
    (makes : (s : Directory) (path : Bytes) → makes_dir (fs s) path ≡ true) (operand dir : Bytes)
    (at : set_path conf.username operand ≡ some dir) where
  -- The names in the directory at a server
  abbrev pub names_at : Directory → List Bytes
  names_at files = visible ((fs files).entries dir)

  -- They fit the server's reply.
  pub record IsListable (files : Directory) : Type 0 where
    pub names : All IsName (names_at files)
    pub fits_reply : 36 + length (lines (names_at files)) < packet_size

  -- The names at the servers that have a thread.
  abbrev pub all_names : List (Option Parts) → List Serving → List Bytes
  all_names [] ss = []
  all_names (t ∷ ts) [] = []
  all_names (none ∷ ts) (s ∷ ss) = all_names ts ss
  all_names (some parts ∷ ts) (s ∷ ss) = names_at s.files ++ all_names ts ss

  abbrev pub AllListable : List (Option Parts) → List Serving → Type 0
  AllListable [] ss = Unit
  AllListable (t ∷ ts) [] = Unit
  AllListable (none ∷ ts) (s ∷ ss) = AllListable ts ss
  AllListable (some parts ∷ ts) (s ∷ ss) = IsListable s.files × AllListable ts ss

  pub all_names-IsName :
      (ts : List (Option Parts)) (ss : List Serving)
      → AllListable ts ss
      → All IsName (all_names ts ss)
  all_names-IsName [] ss h = tt
  all_names-IsName (t ∷ ts) [] h = tt
  all_names-IsName (none ∷ ts) (s ∷ ss) h = all_names-IsName ts ss h
  all_names-IsName (some parts ∷ ts) (s ∷ ss) (here, h) =
      All-append IsName (names_at s.files) (all_names ts ss) here.names (all_names-IsName ts ss h)

  module _ (creates : Bytes → Bool) (stale pkt : Bytes) (p : List Bytes)
      (reads : Reads pkt conf.username conf.password 0 cmd_ls operand) where
    abbrev param : Parts → ThreadParam
    param = param_of cmd_ls p pkt

    connection_handler-list :
        (parts : Parts) (files : Directory) (s : Serving)
        → IsListable s.files
        → (t : Thread Serving) × (connection_handler conf
              (server users fs)
              creates
              (param parts)
              (start stale files s)
            ≡ some (t, result (lines (names_at s.files))))
          × (t.files ≡ files)
          × (t.printed ≡ [])
    unfolding connection_handler handle_ls server
    connection_handler-list parts files s ok =
        let text = list_dir-lines ((fs s.files).entries dir) in
        let (reply, served, answer) =
          serve-list users fs conf.username conf.password operand dir s pkt known (makes s.files) at
            (ap (λ t. has t 0) text ∙ lines-Lacks (names_at s.files) ok.names)
            (omega (arith, ap length text, ok.fits_reply)) reads in
        (
          record (start stale files s) {
            peer = record { files = s.files; receives = none };
            buffer = reply;
          },
          rw
              (
                reads.msg_type_is,
                served,
                refill-full stale reply answer.size,
                answer.errno_is,
                answer.msg_is,
                text,
              )
              refl,
          refl,
          refl,
        )

    -- What the threads of a "list" leave: the names at the servers, as one text.
    pub record Listed (ts : List (Option Parts)) (peers : List Serving) (files : Directory)
        (r : Ran Serving) : Type 0 where
      pub same_files : r.files ≡ files
      pub silent : r.printed ≡ []
      pub text : texts r.retvals ≡ lines (all_names ts peers)
      pub returned : (i : ℕ) → retval_of r.retvals i ≡ 0

    pub run_threads-Listed :
        (ts : List (Option Parts)) (peers : List Serving) (files : Directory)
        → length ts ≡ length peers
        → AllListable ts peers
        → (r : Ran Serving) × (run_threads conf (server users fs) creates stale param ts peers files
            ≡ some r)
          × Listed ts peers files r
    unfolding run_threads retval_of code_of
    run_threads-Listed [] peers files len ok = (
      record { peers = peers; files = files; printed = []; retvals = [] },
      refl,
      record { same_files = refl; silent = refl; text = refl; returned = λ i. refl },
    )
    run_threads-Listed (t ∷ ts) [] files len ok = absurd (omega arith)
    run_threads-Listed (none ∷ ts) (s ∷ ss) files len ok =
        let (r, ran, done) = run_threads-Listed ts ss files (omega arith) ok in
        (
          record r { peers = s ∷ r.peers; retvals = code 0 ∷ r.retvals },
          rw ran refl,
          record {
            same_files = done.same_files;
            silent = done.silent;
            text = done.text;
            returned = by_cases _ refl done.returned;
          },
        )
    run_threads-Listed (some parts ∷ ts) (s ∷ ss) files len (here, ok) =
        let (t, handled, same, quiet) = connection_handler-list parts files s here in
        let (r, ran, done) = run_threads-Listed ts ss t.files (omega arith) ok in
        let names = lines (names_at s.files) in
        (
          record {
            peers = t.peer ∷ r.peers;
            files = r.files;
            printed = t.printed ++ r.printed;
            retvals = result names ∷ r.retvals;
          },
          rw (handled, ran) refl,
          record {
            same_files = done.same_files ∙ same;
            silent = ap (λ l. l ++ r.printed) quiet ∙ done.silent;
            text =
                ap (◌++◌ names) done.text ∙ sym (lines-append (names_at s.files) (all_names ts ss));
            returned = by_cases _ refl done.returned;
          },
        )
