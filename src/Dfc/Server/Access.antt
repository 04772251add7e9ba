-- ===== src/Dfc/Server/Access.antt =====
-- What the server lets a client do, and what it answers to the others.
use network_system_hw.Base.{
  ℕ, ◌<◌, ◌≡◌, refl, ap, Bool, true, false, Bool-cases, inl, inr, List, [], Option, none, some,
  if◌then◌else◌, ltb, ◌==◌, ==_iff, arith, Ensures, Ensures-bind, Ensures-if, Ensures-mono,
  Ensures-some, length, Bytes, codes, copy,
}
use network_system_hw.Dfc.Config.{User}
use network_system_hw.Dfc.Packet.{
  cmd_ls, cmd_put, cmd_get, cmd_mkdir, build_msg_packet, username_of, password_of, msg_type_of,
  msg_of,
}
use network_system_hw.Dfc.Packet.Messages.{Reads, build_msg_packet-reply}
use network_system_hw.Dfc.Server.{
  makes_dir, check_user, set_path, list_dir, Disk, Opened, nothing, reading, writing, Outcome,
  refused, mkdir, get_opened, put_opened, with_operand, command, outcome, Action, next_request,
  send_content, receive_to, follow_up, Answer, connection_handler,
}

-- An open file is the operand's, in the user's directory, and was opened for its command.
abbrev Opens : Disk → ℕ → Bytes → Bytes → Opened → Type 0
Opens disk msg_type username operand nothing = Unit
Opens disk msg_type username operand (reading path content) =
    (msg_type ≡ cmd_get)
    × (set_path username operand ≡ some path)
    × (disk.open_read path ≡ some content)
Opens disk msg_type username operand (writing path) =
    (msg_type ≡ cmd_put) × (set_path username operand ≡ some path) × (disk.open_write path ≡ true)

get_opened-Opens :
    (disk : Disk) (t : ℕ) (u operand path : Bytes)
    → t ≡ cmd_get
    → set_path u operand ≡ some path
    → (o : Option Bytes) → disk.open_read path ≡ o
    → Opens disk t u operand (get_opened path o).fp
unfolding get_opened
get_opened-Opens disk t u operand path is_get at none e = tt
get_opened-Opens disk t u operand path is_get at (some content) e = (is_get, at, e)

put_opened-Opens :
    (disk : Disk) (t : ℕ) (u operand path : Bytes)
    → t ≡ cmd_put
    → set_path u operand ≡ some path
    → (b : Bool) → disk.open_write path ≡ b
    → Opens disk t u operand (put_opened path b).fp
unfolding put_opened
put_opened-Opens disk t u operand path is_put at false e = tt
put_opened-Opens disk t u operand path is_put at true e = (is_put, at, e)

mkdir-Opens :
    (disk : Disk) (t : ℕ) (u operand path : Bytes) → Opens disk t u operand (mkdir disk path).fp
unfolding mkdir
mkdir-Opens disk t u operand path = elim (Bool-cases (makes_dir disk path)) [
  | inl e ↦ rw e tt
  | inr e ↦ rw e tt
]

command-Opens :
    (disk : Disk) (t : ℕ) (u operand : Bytes)
    → Ensures (λ o. Opens disk t u operand o.fp) (command disk t u operand)
unfolding command with_operand
command-Opens disk t u operand =
    let P = λ (o : Outcome). Opens disk t u operand o.fp in
    Ensures-if P (t == cmd_mkdir) _ _
      (λ _. Ensures-bind P (set_path u operand) _ λ path _. mkdir-Opens disk t u operand path)
      λ _.
        Ensures-if P (t == cmd_ls) _ _
          (λ _. Ensures-bind P (set_path u operand) _ λ path _.
            Ensures-bind P (copy 1024 (list_dir b'\n' (disk.entries path))) _ λ text _. tt)
          λ _.
            Ensures-if P (t == cmd_get) _ _
              (λ g.
                Ensures-if P (ltb 0 (length operand)) _ _
                  (λ _. Ensures-bind P (set_path u operand) _ λ path at.
                    get_opened-Opens disk t u operand path ((==_iff t cmd_get).0 g) at
                      (disk.open_read path) refl)
                  λ _. tt)
              λ _.
                Ensures-if P (t == cmd_put) _ _
                  (λ g.
                    Ensures-if P (ltb 0 (length operand)) _ _
                      (λ _. Ensures-bind P (set_path u operand) _ λ path at.
                        put_opened-Opens disk t u operand path ((==_iff t cmd_put).0 g) at
                          (disk.open_write path) refl)
                      λ _. tt)
                  λ _. tt

-- What a request `p` may make the server do.
abbrev pub Permits : List User → Disk → Bytes → Action → Type 0
Permits users disk p next_request = Unit
Permits users disk p (send_content path content) =
    (check_user users (username_of p) (password_of p) ≡ true)
    × (msg_type_of p ≡ cmd_get)
    × (set_path (username_of p) (msg_of p) ≡ some path)
    × (disk.open_read path ≡ some content)
Permits users disk p (receive_to path) =
    (check_user users (username_of p) (password_of p) ≡ true)
    × (msg_type_of p ≡ cmd_put)
    × (set_path (username_of p) (msg_of p) ≡ some path)
    × (disk.open_write path ≡ true)

abbrev Granted : List User → Disk → Bytes → Opened → Type 0
Granted users disk p fp = Permits users disk p (follow_up (msg_type_of p) fp)

Opens-Granted :
    (users : List User) (disk : Disk) (p : Bytes) (fp : Opened)
    → check_user users (username_of p) (password_of p) ≡ true
    → Opens disk (msg_type_of p) (username_of p) (msg_of p) fp
    → Granted users disk p fp
unfolding follow_up
Opens-Granted users disk p nothing known o = tt
Opens-Granted users disk p (reading path content) known (is_get, at, e) =
    rw ((==_iff (msg_type_of p) cmd_get).1 is_get) (known, is_get, at, e)
Opens-Granted users disk p (writing path) known (is_put, at, e) =
    rw ((==_iff (msg_type_of p) cmd_put).1 is_put) (known, is_put, at, e)

outcome-Granted :
    (users : List User) (disk : Disk) (p : Bytes)
    → Ensures (λ o. Granted users disk p o.fp) (outcome users disk p)
unfolding outcome follow_up
outcome-Granted users disk p =
    let P = λ (o : Outcome). Granted users disk p o.fp in
    Ensures-if P (check_user users (username_of p) (password_of p)) _ _
      (λ known.
        Ensures-if P (makes_dir disk (username_of p)) _ _
          (λ _.
            Ensures-mono (command disk (msg_type_of p) (username_of p) (msg_of p))
              (λ o opens. Opens-Granted users disk p o.fp known opens)
              (command-Opens disk (msg_type_of p) (username_of p) (msg_of p)))
          λ _. tt)
      λ _. tt

-- The server sends a file, or receives one, only for a user whose name and password it has found,
-- for that command, and at the path of the operand under the user's name.
pub connection_handler-Permits :
    (users : List User) (disk : Disk) (sent : Bool) (p : Bytes) (a : Answer)
    → connection_handler users disk sent p ≡ some a
    → Permits users disk p a.action
unfolding connection_handler
connection_handler-Permits users disk sent p a e =
    Ensures-some (λ (b : Answer). Permits users disk p b.action) _
      (Ensures-bind (λ (b : Answer). Permits users disk p b.action) (outcome users disk p) _
        λ o got.
          Ensures-bind (λ (b : Answer). Permits users disk p b.action)
            (build_msg_packet (msg_type_of p) o.errno (some o.msg) none) _
            λ reply _. replied sent o (
              Ensures-some (λ (q : Outcome). Granted users disk p q.fp) _
                (outcome-Granted users disk p) got))
      e
  where
    replied :
        (b : Bool) (o : Outcome)
        → Granted users disk p o.fp
        → Permits users disk p (if b then follow_up (msg_type_of p) o.fp else next_request)
    replied true o g = g
    replied false o g = tt

abbrev pub stranger_text : Bytes
stranger_text = codes "Invalid Username/Password. Please try again."

outcome-stranger :
    (users : List User) (disk : Disk) (p : Bytes)
    → check_user users (username_of p) (password_of p) ≡ false
    → outcome users disk p ≡ some (refused stranger_text)
unfolding outcome
outcome-stranger users disk p unknown = rw unknown refl

nothing_to_do :
    (sent : Bool) (t : ℕ) → (if sent then follow_up t nothing else next_request) ≡ next_request
unfolding follow_up
nothing_to_do true t = refl
nothing_to_do false t = refl

-- A request with a name and a password that the server does not find together is answered, with
-- error number 1 and a text, and nothing else is done, whatever its command and its operand.
pub connection_handler-stranger :
    (users : List User) (disk : Disk) (sent : Bool) (p : Bytes)
    → check_user users (username_of p) (password_of p) ≡ false
    → msg_type_of p < 256
    → (reply : Bytes) × (connection_handler users disk sent p
        ≡ some (record { reply = reply; action = next_request }))
      × Reads reply [] [] 1 (msg_type_of p) stranger_text
unfolding connection_handler
connection_handler-stranger users disk sent p unknown byte =
    let (reply, built, reads) =
      build_msg_packet-reply (msg_type_of p) 1 stranger_text byte (omega arith) refl
        (omega arith) in
    (
      reply,
      rw (outcome-stranger users disk p unknown, built)
          (ap (λ a. some (record { reply = reply; action = a }))
            (nothing_to_do sent (msg_type_of p))),
      reads,
    )
