-- ===== src/Dfc/Client/Fetches.antt =====
-- `handle_get` of dfc/client.c against the loop of the server.
use network_system_hw.Base.{
  ℕ, ◌<◌, ◌≡◌, refl, sym, ap, subst, ◌∙◌, Bool, true, List, [], ◌++◌, append-nil, Option, none,
  some, arith, length, take, drop, Bytes,
}
use network_system_hw.Base.Memory.{take-append}
use network_system_hw.Dfc.Client.{
  Thread, ThreadParam, print_msg, with_msg, refill, get_part, handle_get,
}
use network_system_hw.Dfc.Client.Paths.{
  Fits, operand, place, name_is, operand_is, operand_short, operand_clean, place_is,
}
use network_system_hw.Dfc.Client.Requests.{IsRequest, with_msg-Reads}
use network_system_hw.Dfc.Client.Stores.{Holds, started}
use network_system_hw.Dfc.Config.{ClientConfig, User}
use network_system_hw.Dfc.Packet.{packet_size, cmd_get, msg_of}
use network_system_hw.Dfc.Partition.{Directory, put_file, partition}
use network_system_hw.Dfc.Partition.Names.{part_name}
use network_system_hw.Dfc.Server.{check_user, Disk}
use network_system_hw.Dfc.Server.Loop.{Serving, server}
use network_system_hw.Dfc.Server.Replies.{IsHonest, serve-get}
use network_system_hw.Dfc.Transfer.{receive_file}

pub refill-full : (buffer d : Bytes) → length d ≡ packet_size → refill buffer d ≡ d
refill-full buffer d size =
    let rest = drop (length d) buffer in
    ap (λ n. take n (d ++ rest)) (sym size) ∙ take-append d rest

module _ (conf : ClientConfig) (users : List User) (fs : Directory → Disk) (honest : IsHonest fs)
    (known : check_user users conf.username conf.password ≡ true) (path filename file : Bytes)
    (fits : Fits conf path filename) (creates : Bytes → Bool)
    (can : (name : Bytes) → creates name ≡ true) where
  -- The client's files with part `k`
  abbrev pub with_part : Directory → ℕ → Directory
  with_part files k = put_file files (part_name filename k) (partition (length conf.hosts) file k)

  abbrev pub with_first : Directory → Option ℕ → Directory
  with_first files none = files
  with_first files (some k) = with_part files k

  -- A thread before and behind the round of `handle_get` for part `k`.
  pub record GetDone (k : ℕ) (t t' : Thread Serving) : Type 0 where
    pub files_are : t'.files ≡ with_part t.files k
    pub same_retval : t'.retval ≡ t.retval
    pub same_peer : t'.peer.files ≡ t.peer.files
    pub request :
        IsRequest conf.username conf.password fits.username_fits fits.password_fits cmd_get
          t'.outpkt

  get_part-GetDone :
      (tp : ThreadParam) (k : ℕ) (t : Thread Serving)
      → tp.path ≡ path
      → tp.filename ≡ filename
      → k < length conf.hosts
      → IsRequest conf.username conf.password fits.username_fits fits.password_fits cmd_get t.outpkt
      → Holds conf path filename file t.peer.files k
      → (t' : Thread Serving) × (get_part conf (server users fs) creates tp k t ≡ some (t', true))
        × GetDone k t t'
  unfolding get_part server
  get_part-GetDone tp k t same_path same_name lt req held =
      let op = operand path filename k in
      let (req', reads) =
        with_msg-Reads conf.username conf.password fits.username_fits fits.password_fits cmd_get
          t.outpkt op req (operand_clean conf path filename fits k lt)
          (omega (arith, operand_short conf path filename fits k lt)) in
      let (reply, served, answer) =
        serve-get users fs honest conf.username conf.password op known (omega arith)
          (place conf path filename k) (place_is conf path filename fits k lt) t.peer
          (with_msg t.outpkt op) held.stored reads held.there held.sends in
      let got =
        ap (receive_file (some conf.password)) (sym (append-nil held.packets)) ∙ held.gets [] in
      (
        record t {
          files = with_part t.files k;
          peer = record { files = t.peer.files; receives = none };
          printed = print_msg t.printed (msg_of reply);
          outpkt = with_msg t.outpkt op;
          buffer = reply;
        },
        rw
            (
              same_path,
              same_name,
              name_is conf path filename fits k lt 256 (omega arith),
              operand_is conf path filename fits k lt,
              served,
              refill-full t.buffer reply answer.size,
              answer.errno_is,
              can (part_name filename k),
              got,
            )
            refl,
        record { files_are = refl; same_retval = refl; same_peer = refl; request = req' },
      )

  -- The parts asked for are in the client's directory, and the server's files are left.
  pub handle_get-fetches :
      (first : Option ℕ) (j : ℕ) (pkt : Bytes) (t : Thread Serving)
      → ((i : ℕ) → first ≡ some i → i < length conf.hosts)
      → j < length conf.hosts
      → IsRequest conf.username conf.password fits.username_fits fits.password_fits cmd_get pkt
      → ((i : ℕ) → first ≡ some i → Holds conf path filename file t.peer.files i)
      → Holds conf path filename file t.peer.files j
      → (t' : Thread Serving) × (handle_get conf
            (server users fs)
            creates
            (started path filename pkt (record { first = first; second = j }))
            t
          ≡ some t')
        × (t'.files ≡ with_part (with_first t.files first) j)
        × (t'.retval ≡ t.retval)
        × (t'.peer.files ≡ t.peer.files)
  unfolding handle_get
  handle_get-fetches none j pkt t lt_i lt_j req has_i has_j =
      let tp = started path filename pkt (record { first = none; second = j }) in
      let (t1, got1, d1) =
        get_part-GetDone tp j (record t { outpkt = pkt }) refl refl lt_j req has_j in
      (t1, rw got1 refl, d1.files_are, d1.same_retval, d1.same_peer)
  handle_get-fetches (some i) j pkt t lt_i lt_j req has_i has_j =
      let tp = started path filename pkt (record { first = some i; second = j }) in
      let (t1, got1, d1) =
        get_part-GetDone tp i (record t { outpkt = pkt }) refl refl (lt_i i refl) req
          (has_i i refl) in
      let (t2, got2, d2) =
        get_part-GetDone tp j t1 refl refl lt_j d1.request
          (subst (λ files. Holds conf path filename file files j) (sym d1.same_peer) has_j) in
      (
        t2,
        rw (got1, got2) refl,
        d2.files_are ∙ ap (λ files. with_part files j) d1.files_are,
        d2.same_retval ∙ d1.same_retval,
        d2.same_peer ∙ d1.same_peer,
      )
