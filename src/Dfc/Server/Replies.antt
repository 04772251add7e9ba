-- ===== src/Dfc/Server/Replies.antt =====
-- What the server's loop does with a request of one of its users.
use network_system_hw.Dfc.Packet.Fields.{buffer_of-full}
use network_system_hw.Base.{
  Lacks, ◌+◌, ◌<◌, ◌≡◌, refl, true, [], none, some, arith, lt→ltb, length, Bytes, List,
}
use network_system_hw.Dfc.Config.{User}
use network_system_hw.Dfc.Packet.{packet_size, cmd_ls, cmd_put, cmd_get}
use network_system_hw.Dfc.Packet.Messages.{Reads, build_msg_packet-reply}
use network_system_hw.Dfc.Partition.{Directory, put_file}
use network_system_hw.Dfc.Server.{
  makes_dir, list_dir, check_user, set_path, Disk, command, outcome, reading, writing,
  connection_handler, with_operand, get_opened, put_opened, follow_up,
}
use network_system_hw.Dfc.Server.Loop.{Serving, answered, serve}
use network_system_hw.Dfc.Transfer.{send_file}

-- A file system that makes every directory, reads every file it has and writes every file.
pub record IsHonest (fs : Directory → Disk) : Type 0 where
  pub makes : (s : Directory) (path : Bytes) → makes_dir (fs s) path ≡ true
  pub reads : (s : Directory) (path : Bytes) → (fs s).open_read path ≡ s path
  pub writes : (s : Directory) (path : Bytes) → (fs s).open_write path ≡ true

module _ (users : List User) (fs : Directory → Disk) (honest : IsHonest fs) (u w operand : Bytes)
    (known : check_user users u w ≡ true) (given : 0 < length operand) (path : Bytes)
    (at : set_path u operand ≡ some path) where
  outcome-put :
      (s : Directory) (q : Bytes)
      → Reads q u w 0 cmd_put operand
      → outcome users (fs s) q ≡ some (record { errno = 0; msg = []; fp = writing path })
  unfolding outcome command with_operand put_opened
  outcome-put s q r =
      rw
        (
          r.username_is,
          r.password_is,
          r.msg_type_is,
          r.msg_is,
          known,
          honest.makes s u,
          lt→ltb 0 (length operand) given,
          at,
          honest.writes s path,
        )
        refl

  outcome-get :
      (s : Directory) (q content : Bytes)
      → Reads q u w 0 cmd_get operand
      → s path ≡ some content
      → outcome users (fs s) q ≡ some (record { errno = 0; msg = []; fp = reading path content })
  unfolding outcome command with_operand get_opened
  outcome-get s q content r there =
      rw
        (
          r.username_is,
          r.password_is,
          r.msg_type_is,
          r.msg_is,
          known,
          honest.makes s u,
          lt→ltb 0 (length operand) given,
          at,
          honest.reads s path,
          there,
        )
        refl

  -- The server agrees to receive the file.
  pub serve-put :
      (s : Serving) (q : Bytes)
      → Reads q u w 0 cmd_put operand
      → (reply : Bytes) × (serve users fs s q
          ≡ some (answered (put_file s.files path []) (some path) reply []))
        × Reads reply [] [] 0 cmd_put []
  unfolding serve connection_handler follow_up
  serve-put s q r =
      let (reply, built, reads) =
        build_msg_packet-reply cmd_put 0 [] (omega arith) (omega arith) refl (omega arith) in
      (
        reply,
        rw (buffer_of-full q r.size, outcome-put s.files q r, r.msg_type_is, built) refl,
        reads,
      )

  -- The server sends the file.
  pub serve-get :
      (s : Serving) (q content : Bytes) {ps : List Bytes}
      → Reads q u w 0 cmd_get operand
      → s.files path ≡ some content
      → send_file (λ i. true) (some content) 0 none none ≡ some (ps, true)
      → (reply : Bytes) × (serve users fs s q ≡ some (answered s.files none reply ps))
        × Reads reply [] [] 0 cmd_get []
  unfolding serve connection_handler follow_up
  serve-get s q content r there sent =
      let (reply, built, reads) =
        build_msg_packet-reply cmd_get 0 [] (omega arith) (omega arith) refl (omega arith) in
      (
        reply,
        rw
            (
              buffer_of-full q r.size,
              outcome-get s.files q content r there,
              r.msg_type_is,
              built,
              sent,
            )
            refl,
        reads,
      )

-- The server answers with the names in the directory.
pub serve-list :
    (users : List User) (fs : Directory → Disk) (u w operand dir : Bytes) (s : Serving) (q : Bytes)
    → check_user users u w ≡ true
    → ((path : Bytes) → makes_dir (fs s.files) path ≡ true)
    → set_path u operand ≡ some dir
    → Lacks 0 (list_dir b'\n' ((fs s.files).entries dir))
    → 36 + length (list_dir b'\n' ((fs s.files).entries dir)) < packet_size
    → Reads q u w 0 cmd_ls operand
    → (reply : Bytes) × (serve users fs s q ≡ some (answered s.files none reply []))
      × Reads reply [] [] 0 cmd_ls (list_dir b'\n' ((fs s.files).entries dir))
unfolding serve connection_handler follow_up outcome command
serve-list users fs u w operand dir s q known makes at clean short r =
    let text = list_dir b'\n' ((fs s.files).entries dir) in
    let (reply, built, reads) =
      build_msg_packet-reply cmd_ls 0 text (omega arith) (omega arith) clean short in
    (
      reply,
      rw
          (
            buffer_of-full q r.size,
            r.username_is,
            r.password_is,
            r.msg_type_is,
            r.msg_is,
            known,
            makes u,
            at,
            lt→ltb (length text) 1024 (omega arith),
            built,
          )
          refl,
      reads,
    )
