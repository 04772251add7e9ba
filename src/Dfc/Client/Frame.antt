-- ===== src/Dfc/Client/Frame.antt =====
-- Which of the client's files a thread of dfc/client.c can change, whatever the servers answer.
use network_system_hw.Base.{
  ℕ, ◌*◌, ◌≡◌, refl, ap, ◌∙◌, Bool, true, false, Option, none, some, ◌>>=◌, ◌==◌, Ensures,
  Ensures-bind, Ensures-if, Ensures-mono, Ensures-some, length, Bytes, str_eq, copy-eq-some,
}
use network_system_hw.Dfc.Client.{
  go_on, get_first, send_part, zeroed, put_answered, with_msg, refill, Answered, Peer, ThreadParam,
  Thread, put_part, put_opened, put_parts, handle_put, get_part, handle_get, get_received,
  file_received,
}
use network_system_hw.Dfc.Client.Stores.{put_file-other}
use network_system_hw.Dfc.Config.{ClientConfig}
use network_system_hw.Dfc.Packet.{packet_size, errno_of}
use network_system_hw.Dfc.Partition.{Directory, put_file, psize, set_partition_name}
use network_system_hw.Dfc.Partition.Names.{IsApart, part_name}
use network_system_hw.Dfc.Server.{set_path}
use network_system_hw.Dfc.Transfer.{Received, finished, broken, send_file, receive_file}

-- Two directories that differ in the parts of the file at most.
abbrev pub Same : Bytes → Directory → Directory → Type 0
Same filename files files' = (q : Bytes) → IsApart filename q → files' q ≡ files q

pub set_partition_name-is :
    (room : ℕ) (filename pname : Bytes) (k : ℕ)
    → set_partition_name room filename k ≡ some pname
    → pname ≡ part_name filename k
unfolding set_partition_name
set_partition_name-is room filename pname k e = (copy-eq-some room (part_name filename k) e).0

put_file-Same :
    (filename pname : Bytes) (k : ℕ) (files : Directory) (content : Bytes)
    → pname ≡ part_name filename k
    → Same filename files (put_file files pname content)
put_file-Same filename pname k files content e q apart =
    put_file-other files pname content q (ap (str_eq q) e ∙ apart k)

module _ {S : Type 0} (conf : ClientConfig) (peer : Peer S) where
  abbrev pub Left : Thread S → Thread S → Type 0
  Left t t' = t'.files ≡ t.files

  send_part-files :
      (file : Bytes) (k : ℕ) (t : Thread S) (accepts : ℕ → Bool)
      → Ensures (Left t) (send_part conf peer file k t accepts)
  send_part-files file k t accepts =
      let size = psize (length conf.hosts) (length file) in
      Ensures-bind (Left t)
        (send_file accepts (some file) (size * k) (some size) (some conf.password)) _
        λ sent _. Ensures-bind (Left t) (peer.deliver t.peer sent.0) _ λ s _. refl

  put_answered-files :
      (file : Bytes) (k : ℕ) (t : Thread S) (a : Answered S)
      → Ensures (Left t) (put_answered conf peer file k t a)
  put_answered-files file k t a =
      Ensures-if (Left t) (errno_of (zeroed a.received) == 0) _ _
        (λ _. send_part-files file k _ a.accepts) λ _. refl

  put_part-files :
      (tp : ThreadParam) (file : Bytes) (k : ℕ) (t : Thread S)
      → Ensures (Left t) (put_part conf peer tp file k t)
  unfolding put_part
  put_part-files tp file k t =
      let P = Left t in
      Ensures-bind P (set_partition_name packet_size tp.filename k) _ λ pname _.
        Ensures-bind P (set_path tp.path pname) _ λ path _.
          Ensures-bind P (peer.request t.peer (with_msg t.outpkt path)) _
            λ a _. put_answered-files file k (record t { outpkt = with_msg t.outpkt path }) a

  pub handle_put-files :
      (tp : ThreadParam) (t : Thread S) → Ensures (Left t) (handle_put conf peer tp t)
  unfolding handle_put
  handle_put-files tp t = opened (t.files tp.filename)
    where
      parts :
          (file : Bytes) (first : Option ℕ) (j : ℕ) (u : Thread S)
          → u.files ≡ t.files
          → Ensures (Left t) (put_parts conf peer tp file first j u)
      parts file none j u same = tt
      parts file (some i) j u same = Ensures-bind (Left t) (put_part conf peer tp file i u) _ λ v e.
          Ensures-mono (put_part conf peer tp file j v)
            (λ w done.
              done
              ∙ Ensures-some (Left u) (put_part conf peer tp file i u) (put_part-files tp file i u)
                  e
              ∙ same)
            (put_part-files tp file j v)

      opened : (o : Option Bytes) → Ensures (Left t) (put_opened conf peer tp o t)
      opened none = refl
      opened (some file) =
          parts file tp.parts.first tp.parts.second (record t { outpkt = tp.pkt }) refl

  -- What a round of `handle_get` leaves
  abbrev Wrote : Bytes → Thread S → Thread S × Bool → Type 0
  Wrote filename t l = Same filename t.files l.0.files

  file_received-Wrote :
      (filename pname : Bytes) (k : ℕ) (t : Thread S) (r : Received)
      → pname ≡ part_name filename k
      → Ensures (Wrote filename t) (file_received conf peer pname t r)
  file_received-Wrote filename pname k t (finished content) e =
      put_file-Same filename pname k t.files content e
  file_received-Wrote filename pname k t (broken content) e =
      put_file-Same filename pname k t.files content e

  get_received-Wrote :
      (creates : Bytes → Bool) (filename pname : Bytes) (k : ℕ) (t : Thread S) (a : Answered S)
      (o : Option Bytes)
      → pname ≡ part_name filename k
      → Ensures (Wrote filename t) (get_received conf peer creates pname t a o)
  get_received-Wrote creates filename pname k t a none e = λ q apart. refl
  get_received-Wrote creates filename pname k t a (some d) e =
      let P = Wrote filename t in
      Ensures-if P (errno_of (refill t.buffer d) == 0) _ _
        (λ _.
          Ensures-if P (creates pname) _ _
            (λ _.
              Ensures-bind P (receive_file (some conf.password) a.arriving) _
                λ r _. file_received-Wrote filename pname k _ r e)
            λ _ q apart. refl)
        λ _ q apart. refl

  get_part-Wrote :
      (creates : Bytes → Bool) (tp : ThreadParam) (k : ℕ) (t : Thread S)
      → Ensures (Wrote tp.filename t) (get_part conf peer creates tp k t)
  unfolding get_part
  get_part-Wrote creates tp k t =
      let P = Wrote tp.filename t in
      Ensures-bind P (set_partition_name 256 tp.filename k) _ λ pname named.
        Ensures-bind P (set_path tp.path pname) _ λ path _.
          Ensures-bind P (peer.request t.peer (with_msg t.outpkt path)) _ λ a _.
            Ensures-if P a.sent _ _
              (λ _.
                get_received-Wrote creates tp.filename pname k _ a a.received
                  (set_partition_name-is 256 tp.filename pname k named))
              λ _ q apart. refl

  abbrev pub Kept : Bytes → Thread S → Thread S → Type 0
  Kept filename t t' = Same filename t.files t'.files

  go_on-Kept :
      (filename : Bytes) (t : Thread S) (next : Thread S → Option (Thread S))
      (m : Option (Thread S × Bool))
      → Ensures (Wrote filename t) m
      → ((u : Thread S) → Ensures (Kept filename u) (next u))
      → Ensures (Kept filename t) (m >>= go_on conf peer next)
  go_on-Kept filename t next none w later = tt
  go_on-Kept filename t next (some (u, false)) w later = w
  go_on-Kept filename t next (some (u, true)) w later =
      Ensures-mono (next u) (λ v kept q apart. kept q apart ∙ w q apart) (later u)

  get_first-Wrote :
      (creates : Bytes → Bool) (tp : ThreadParam) (first : Option ℕ) (t : Thread S)
      → Ensures (Wrote tp.filename t) (get_first conf peer creates tp first t)
  get_first-Wrote creates tp none t = λ q apart. refl
  get_first-Wrote creates tp (some k) t = get_part-Wrote creates tp k t

  pub handle_get-Kept :
      (creates : Bytes → Bool) (tp : ThreadParam) (t : Thread S)
      → Ensures (Kept tp.filename t) (handle_get conf peer creates tp t)
  unfolding handle_get
  handle_get-Kept creates tp t =
      go_on-Kept tp.filename t _ (get_first conf peer creates tp tp.parts.first _)
        (get_first-Wrote creates tp tp.parts.first (record t { outpkt = tp.pkt }))
        λ u.
          go_on-Kept tp.filename u _ (get_part conf peer creates tp tp.parts.second u)
            (get_part-Wrote creates tp tp.parts.second u) λ v q apart. refl
