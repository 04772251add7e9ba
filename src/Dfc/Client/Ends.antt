-- ===== src/Dfc/Client/Ends.antt =====
-- Which of the client's files each command changes in a thread of dfc/client.c.
use network_system_hw.Base.{
  true≢false, if_both, ◌≡◌, refl, sym, ap, ◌∙◌, Bool, false, [], ◌==◌, Ensures, Ensures-bind,
  Ensures-if, Ensures-mono, Ensures-some, Bytes,
}
use network_system_hw.Dfc.Client.{
  list_answered, mkdir_answered, result, failed, print_msg, ask, Peer, ThreadParam, Thread,
  Returned, handle_put, handle_get, handle_ls, handle_mkdir, connection_handler,
}
use network_system_hw.Dfc.Config.{ClientConfig}
use network_system_hw.Dfc.Packet.{
  msg_of, cmd_ls, cmd_put, cmd_get, cmd_mkdir, msg_type_of, errno_of,
}
use network_system_hw.Dfc.Partition.{Directory}
use network_system_hw.Dfc.Client.Frame.{Same, Left, Kept, handle_put-files, handle_get-Kept}

module _ {S : Type 0} (conf : ClientConfig) (peer : Peer S) where
  -- A thread's end, whatever it returns
  abbrev pub KeptAtEnd : Bytes → Thread S → Thread S × Returned → Type 0
  KeptAtEnd filename t e = Same filename t.files e.0.files

  abbrev pub LeftAtEnd : Thread S → Thread S × Returned → Type 0
  LeftAtEnd t e = e.0.files ≡ t.files

  ask-files :
      (tp : ThreadParam) (answered : Thread S → Thread S × Returned) (t : Thread S)
      → ((u : Thread S) → LeftAtEnd u (answered u))
      → Ensures (LeftAtEnd t) (ask conf peer tp answered t)
  ask-files tp answered t keeps =
      Ensures-bind (LeftAtEnd t) (peer.request t.peer tp.pkt) _
        λ a _. if_both (LeftAtEnd t) (failed a.sent a.received) _ _ refl (keeps _)

  handle_ls-files :
      (tp : ThreadParam) (t : Thread S) → Ensures (LeftAtEnd t) (handle_ls conf peer tp t)
  unfolding handle_ls
  handle_ls-files tp t = ask-files tp (list_answered conf peer) t λ u.
      if_both (LeftAtEnd u) (errno_of u.buffer == 1)
        (record u { printed = print_msg u.printed (msg_of u.buffer) }, result [])
        (u, result (msg_of u.buffer)) refl refl

  pub connection_handler-Kept :
      (creates : Bytes → Bool) (tp : ThreadParam) (t : Thread S)
      → Ensures (KeptAtEnd tp.filename t) (connection_handler conf peer creates tp t)
  unfolding connection_handler handle_mkdir
  connection_handler-Kept creates tp t =
      let P = KeptAtEnd tp.filename t in
      Ensures-if P (msg_type_of tp.pkt == cmd_ls) _ _
        (λ _.
          Ensures-mono (handle_ls conf peer tp t)
            (λ e same q apart. ap (λ (f : Directory). f q) same) (handle_ls-files tp t))
        λ _.
          Ensures-if P (msg_type_of tp.pkt == cmd_put) _ _
            (λ _. Ensures-bind P (handle_put conf peer tp t) _ λ u e q apart.
              ap (λ (f : Directory). f q)
                (Ensures-some (Left conf peer t) (handle_put conf peer tp t)
                  (handle_put-files conf peer tp t) e))
            λ _.
              Ensures-if P (msg_type_of tp.pkt == cmd_get) _ _
                (λ _. Ensures-bind P (handle_get conf peer creates tp t) _ λ u e.
                  Ensures-some (Kept conf peer tp.filename t) (handle_get conf peer creates tp t)
                    (handle_get-Kept conf peer creates tp t) e)
                λ _.
                  Ensures-if P (msg_type_of tp.pkt == cmd_mkdir) _ _
                    (λ _.
                      Ensures-mono (handle_mkdir conf peer tp t)
                        (λ e same q apart. ap (λ (f : Directory). f q) same)
                        (ask-files tp (mkdir_answered conf peer) t (λ u. refl)))
                    λ _ q apart. refl

  -- Only a "get" changes files at all.
  pub connection_handler-files :
      (creates : Bytes → Bool) (tp : ThreadParam) (t : Thread S)
      → (msg_type_of tp.pkt == cmd_get) ≡ false
      → Ensures (LeftAtEnd t) (connection_handler conf peer creates tp t)
  unfolding connection_handler handle_mkdir
  connection_handler-files creates tp t other =
      let P = LeftAtEnd t in
      Ensures-if P (msg_type_of tp.pkt == cmd_ls) _ _ (λ _. handle_ls-files tp t)
        λ _.
          Ensures-if P (msg_type_of tp.pkt == cmd_put) _ _
            (λ _. Ensures-bind P (handle_put conf peer tp t) _ λ u e.
              Ensures-some (Left conf peer t) (handle_put conf peer tp t)
                (handle_put-files conf peer tp t) e)
            λ _.
              Ensures-if P (msg_type_of tp.pkt == cmd_get) _ _
                (λ is_get. absurd (true≢false (sym is_get ∙ other)))
                λ _.
                  Ensures-if P (msg_type_of tp.pkt == cmd_mkdir) _ _
                    (λ _. ask-files tp (mkdir_answered conf peer) t (λ u. refl)) λ _. refl
