-- ===== src/Dfc/Client/Stores.antt =====
-- `handle_put` of dfc/client.c against the loop of the server.
use network_system_hw.Dfc.Packet.Fields.{buffer_of-full}
use network_system_hw.Base.{
  ℕ, ◌*◌, ◌^◌, ◌<◌, ◌≡◌, refl, sym, ap, subst, ◌∙◌, Bool-cases, inl, inr, true, false, List, [],
  ◌++◌, append-nil, none, some, arith, length, All, Bytes, str_eq, str_eq_iff,
}
use network_system_hw.Dfc.Client.{Thread, ThreadParam, print_msg, with_msg, put_part, handle_put}
use network_system_hw.Dfc.Client.Paths.{
  Fits, operand, place, name_is, operand_is, operand_short, operand_clean, place_is,
  place-injective,
}
use network_system_hw.Dfc.Client.Requests.{IsRequest, with_msg-Reads}
use network_system_hw.Dfc.Config.{ClientConfig, User}
use network_system_hw.Dfc.Mask.{IsByte}
use network_system_hw.Dfc.Packet.{packet_size, cmd_put, msg_of}
use network_system_hw.Dfc.Partition.{Directory, put_file, psize, partition}
use network_system_hw.Dfc.Placement.{Parts}
use network_system_hw.Dfc.Server.{check_user, Disk}
use network_system_hw.Dfc.Server.Loop.{Serving, server, store_file}
use network_system_hw.Dfc.Server.Replies.{IsHonest, serve-put}
use network_system_hw.Dfc.Transfer.{send_file, receive_file, finished}
use network_system_hw.Dfc.Transfer.RoundTrip.{fetch-store}

-- A file at the path that a client with the key gets as `wanted`.
pub record Keeps (key : Bytes) (files : Directory) (path wanted : Bytes) : Type 0 where
  pub stored : Bytes
  pub there : files path ≡ some stored
  pub packets : List Bytes
  pub sends : send_file (λ i. true) (some stored) 0 none none ≡ some (packets, true)
  pub gets : (ds : List Bytes) → receive_file (some key) (packets ++ ds) ≡ some (finished wanted)

-- Writing a file.
pub put_file-same :
    (files : Directory) (name content : Bytes) → put_file files name content name ≡ some content
put_file-same files name content = rw ((str_eq_iff name name).1 refl) refl

pub put_file-other :
    (files : Directory) (name content other : Bytes)
    → str_eq other name ≡ false
    → put_file files name content other ≡ files other
put_file-other files name content other h = rw h refl

pub Keeps-put_file-other :
    {key : Bytes} (files : Directory) (name content : Bytes) {path wanted : Bytes}
    → str_eq path name ≡ false
    → Keeps key files path wanted
    → Keeps key (put_file files name content) path wanted
Keeps-put_file-other files name content {path} apart k = record {
  stored = k.stored;
  there = put_file-other files name content path apart ∙ k.there;
  packets = k.packets;
  sends = k.sends;
  gets = k.gets;
}

-- The parameter of a thread
abbrev pub started : Bytes → Bytes → Bytes → Parts → ThreadParam
started path filename pkt parts = record {
  parts = parts;
  path = path;
  filename = filename;
  pkt = pkt;
}

-- The server has the part of the file that belongs at its place.
abbrev pub Holds : ClientConfig → Bytes → Bytes → Bytes → Directory → ℕ → Type 0
Holds conf path filename file files k =
    Keeps conf.password files (place conf path filename k) (partition (length conf.hosts) file k)

module _ (conf : ClientConfig) (users : List User) (fs : Directory → Disk) (honest : IsHonest fs)
    (known : check_user users conf.username conf.password ≡ true) (path filename file : Bytes)
    (fits : Fits conf path filename) (small : length file < 2 ^ 32) (bytes : All IsByte file) where
  -- A thread before and behind the round of `handle_put` for part `k`.
  pub record PutDone (k : ℕ) (t t' : Thread Serving) : Type 0 where
    pub same_files : t'.files ≡ t.files
    pub same_retval : t'.retval ≡ t.retval
    pub request :
        IsRequest conf.username conf.password fits.username_fits fits.password_fits cmd_put
          t'.outpkt
    pub holds : Holds conf path filename file t'.peer.files k
    pub others :
        (j : ℕ)
        → Holds conf path filename file t.peer.files j
        → Holds conf path filename file t'.peer.files j

  store-others :
      (files : Directory) (k : ℕ) (first stored : Bytes)
      → Holds conf path filename file
          (put_file
            (put_file files (place conf path filename k) first)
            (place conf path filename k)
            stored)
          k
      → (j : ℕ) → Holds conf path filename file files j
      → Holds conf path filename file
          (put_file
            (put_file files (place conf path filename k) first)
            (place conf path filename k)
            stored)
          j
  store-others files k first stored new j old =
      elim (Bool-cases (str_eq (place conf path filename j) (place conf path filename k))) [
        | inl same ↦
            subst (Holds conf path filename file _)
              (sym (place-injective conf path filename j k ((str_eq_iff _ _).0 same))) new
        | inr apart ↦
            Keeps-put_file-other _ _ stored apart (Keeps-put_file-other files _ first apart old)
      ]

  put_part-PutDone :
      (tp : ThreadParam) (k : ℕ) (t : Thread Serving)
      → tp.path ≡ path
      → tp.filename ≡ filename
      → k < length conf.hosts
      → IsRequest conf.username conf.password fits.username_fits fits.password_fits cmd_put t.outpkt
      → (t' : Thread Serving) × (put_part conf (server users fs) tp file k t ≡ some t')
        × PutDone k t t'
  unfolding put_part server store_file
  put_part-PutDone tp k t same_path same_name lt req =
      let op = operand path filename k in
      let at = place conf path filename k in
      let (req', reads) =
        with_msg-Reads conf.username conf.password fits.username_fits fits.password_fits cmd_put
          t.outpkt op req (operand_clean conf path filename fits k lt)
          (omega (arith, operand_short conf path filename fits k lt)) in
      let (reply, served, answer) =
        serve-put users fs honest conf.username conf.password op known (omega arith) at
          (place_is conf path filename fits k lt) t.peer (with_msg t.outpkt op) reads in
      let size = psize (length conf.hosts) (length file) in
      let (ps, sent, stored, stores, qs, back, got) =
        fetch-store (some conf.password) fits.password_given (λ i. true) (λ i. refl) file (size * k)
          (some size) small bytes in
      let stores' = ap (receive_file none) (sym (append-nil ps)) ∙ stores [] in
      let files' = put_file (put_file t.peer.files at []) at stored in
      let new : Holds conf path filename file files' k = record {
        stored = stored;
        there = put_file-same (put_file t.peer.files at []) at stored;
        packets = qs;
        sends = back;
        gets = got;
      } in
      (
        record t {
          peer = record { files = files'; receives = none };
          printed = print_msg t.printed (msg_of reply);
          outpkt = with_msg t.outpkt op;
          buffer = reply;
        },
        rw
            (
              same_path,
              same_name,
              name_is conf path filename fits k lt packet_size (omega arith),
              operand_is conf path filename fits k lt,
              served,
              buffer_of-full reply answer.size,
              answer.errno_is,
              sent,
              stores',
            )
            refl,
        record {
          same_files = refl;
          same_retval = refl;
          request = req';
          holds = new;
          others = store-others t.peer.files k [] stored new;
        },
      )

  -- Both parts are with the server, and its other parts of the file are left.
  pub handle_put-stores :
      (i j : ℕ) (pkt : Bytes) (t : Thread Serving)
      → i < length conf.hosts
      → j < length conf.hosts
      → IsRequest conf.username conf.password fits.username_fits fits.password_fits cmd_put pkt
      → t.files filename ≡ some file
      → (t' : Thread Serving) × (handle_put conf
            (server users fs)
            (started path filename pkt (record { first = some i; second = j }))
            t
          ≡ some t')
        × (t'.files ≡ t.files)
        × (t'.retval ≡ t.retval)
        × Holds conf path filename file t'.peer.files i
        × Holds conf path filename file t'.peer.files j
        × ((k : ℕ)
            → Holds conf path filename file t.peer.files k
            → Holds conf path filename file t'.peer.files k)
  unfolding handle_put
  handle_put-stores i j pkt t lt_i lt_j req there =
      let tp = started path filename pkt (record { first = some i; second = j }) in
      let (t1, put1, d1) = put_part-PutDone tp i (record t { outpkt = pkt }) refl refl lt_i req in
      let (t2, put2, d2) = put_part-PutDone tp j t1 refl refl lt_j d1.request in
      (
        t2,
        rw (there, put1, put2) refl,
        d2.same_files ∙ d1.same_files,
        d2.same_retval ∙ d1.same_retval,
        d2.others i d1.holds,
        d2.holds,
        λ k h. d2.others k (d1.others k h),
      )
