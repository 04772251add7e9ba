-- ===== src/Udp/Commands.antt =====
-- The command loops in `main` of udp/server.c and udp/client.c, with `parse_line`, `list_dir` and
-- `set_received_filename` of udp/util.c. What the file system answers stands in a `Files`.
pub mod Exchange
use network_system_hw.Base.{
  ℕ, ◌+◌, Bool, true, false, ◌&&◌, ◌||◌, List, [], ◌∷◌, ◌++◌, Option, none, some, if◌then◌else◌,
  ltb, ◌==◌, ◌>>=◌, length, Bytes, codes, str_eq, copy, split_last,
}
use network_system_hw.Strutil
use network_system_hw.Strutil.{chop, split}
use network_system_hw.Udp.Packet.{
  cmd_ls, cmd_put, cmd_get, cmd_exit, cmd_und, msg_resp, get_start, put_start, build_msg_packet,
  msg_type_of, msg_of,
}

abbrev pub remove_endl : Bytes → Bytes
remove_endl line = chop b'\n' line

-- As `strip` of http_server/strutil.c, for blanks
abbrev pub strip : Bytes → Bytes
strip line = Strutil.strip line b' '

-- The words of a command line, in 16 arrays of 256 bytes
unfoldable pub parse_line : Bytes → Option (List Bytes)
parse_line cmdline = do
  buffer ← copy 256 cmdline
  split 16 256 (strip (remove_endl buffer)) (b' ' ∷ [])

unfoldable pub list_dir : ℕ → List Bytes → Bytes
list_dir delimiter [] = []
list_dir delimiter (d_name ∷ names) =
    let rest = list_dir delimiter names in
    if str_eq d_name (codes ".") || str_eq d_name (codes "..")
    then rest
    else d_name ++ (delimiter ∷ rest)

-- What is behind the last `/` of a path
abbrev pub base_name : Bytes → Option (Bytes × Bytes) → Bytes
base_name path none = path
base_name path (some (dir, name)) = name

-- `filename` has `FILENAME_MAX` bytes, 4096.
unfoldable pub set_received_filename : Bytes → Option Bytes
set_received_filename path = copy 4096 (base_name path (split_last b'/' path) ++ codes ".received")

-- The names in a directory, the content of a file that `fopen` can read, and whether it can write
-- one.
pub record Files : Type 0 where
  pub names : List Bytes
  pub open_read : Bytes → Option Bytes
  pub open_write : Bytes → Bool

-- `fp`: a null pointer, the content of a file to read, or the name of a file to write.
pub data Opened : Type 0 where
  nothing : Opened
  reading : Bytes → Opened
  writing : Bytes → Opened

-- What the server's `switch` leaves: `cmd_type`, `msg`, `fp` and `exit_flag`.
pub record Response : Type 0 where
  pub cmd_type : ℕ
  pub msg : Bytes
  pub fp : Opened
  pub exit_flag : Bool

abbrev pub says : Bytes → Response
says text = record { cmd_type = msg_resp; msg = text; fp = nothing; exit_flag = false }

abbrev starts : ℕ → Opened → Response
starts cmd_type fp = record { cmd_type = cmd_type; msg = []; fp = fp; exit_flag = false }

abbrev pub serve_get : Option Bytes → Response
serve_get none = says (codes "server: get: Cannot open the file\n")
serve_get (some content) = starts get_start (reading content)

abbrev pub serve_put : Bytes → Bool → Response
serve_put filename false = says (codes "server: put: Cannot create the file\n")
serve_put filename true = starts put_start (writing filename)

-- `switch (mpkt->msg_type)`; `msg` has 256 bytes.
unfoldable pub respond : Files → Bytes → Option Response
unfolding list_dir set_received_filename
respond files q =
    if msg_type_of q == cmd_ls
    then (copy 256 (list_dir b'\n' files.names) >>= λ text. some (says text))
    else if msg_type_of q == cmd_exit
    then some (record (says (codes "Server will exit.\n")) { exit_flag = true })
    else if msg_type_of q == cmd_get
    then some (
        if ltb 0 (length (msg_of q))
        then serve_get (files.open_read (msg_of q))
        else says (codes "server: get: Missing file operand\n"))
    else if msg_type_of q == cmd_put
    then (if ltb 0 (length (msg_of q))
        then (set_received_filename (msg_of q) >>= λ filename.
            some (serve_put filename (files.open_write filename)))
        else some (says (codes "server: get: Missing file operand\n")))
    else (copy 256 (msg_of q) >>= λ text. some (says text))

-- What a side does behind the packets: nothing, `send_file`, or `receive_file`.
pub data Action : Type 0 where
  next_command : Action
  send_content : Bytes → Action
  receive_to : Bytes → Action

abbrev pub Served : Type 0
Served = Bytes × (Action × Bool)

-- One round of the server: its packet, what it does next, and whether it then exits.
abbrev pub server_action : ℕ → Opened → Action
server_action cmd_type nothing = next_command
server_action cmd_type (reading content) =
    if cmd_type == get_start then send_content content else next_command
server_action cmd_type (writing filename) =
    if cmd_type == put_start then receive_to filename else next_command

unfoldable pub server_round : Files → Bytes → Option Served
unfolding respond
server_round files q = do
  r ← respond files q
  p ← build_msg_packet r.cmd_type (some r.msg)
  some (p, (server_action r.cmd_type r.fp, r.exit_flag))

-- The client's `msg` points nowhere, to `_argv[1]`, or to `cmdline`; it stays from round to round,
-- and so does the text of `_argv[1]`.
pub data Pointer : Type 0 where
  null argument whole_line : Pointer

pub record Client : Type 0 where
  pub argv1 : Bytes
  pub msg : Pointer

abbrev pub pointed : Client → Bytes → Option Bytes
pointed c cmdline = elim c.msg [ null ↦ none | argument ↦ some c.argv1 | whole_line ↦ some cmdline ]

-- What the words ask for: the next line (`continue`), or a packet of the type with `fp` and `msg`
-- set.
pub data Asked : Type 0 where
  next_line : Asked
  ask : ℕ → Opened → Pointer → Asked

abbrev ask_get : Bytes → Bool → Asked
ask_get filename true = ask cmd_get (writing filename) argument
ask_get filename false = next_line

abbrev ask_put : Option Bytes → Asked
ask_put none = next_line
ask_put (some content) = ask cmd_put (reading content) argument

abbrev with_operand : (Bytes → Option Asked) → List Bytes → Option Asked
with_operand f [] = some next_line
with_operand f (operand ∷ rest) = f operand

-- The chain of `strcmp` on `_argv[0]`
unfoldable pub client_command : Files → Pointer → List Bytes → Option Asked
unfolding set_received_filename
client_command files msg [] = some next_line
client_command files msg (command ∷ operands) =
    if str_eq command (codes "exit")
    then some (ask cmd_exit nothing msg)
    else if str_eq command (codes "ls")
    then some (ask cmd_ls nothing msg)
    else if str_eq command (codes "get")
    then with_operand
        (λ operand. set_received_filename operand >>= λ filename.
          some (ask_get filename (files.open_write filename)))
        operands
    else if str_eq command (codes "put")
    then with_operand (λ operand. some (ask_put (files.open_read operand))) operands
    else some (ask cmd_und nothing whole_line)

-- `_argv[1]` keeps its text where the line has no second word.
abbrev argv1_of : Bytes → List Bytes → Bytes
argv1_of old [] = old
argv1_of old (command ∷ []) = old
argv1_of old (command ∷ operand ∷ rest) = operand

abbrev request_of : Client → Bytes → Asked → Option (Client × Option (Bytes × Opened))
request_of c cmdline next_line = some (c, none)
request_of c cmdline (ask cmd_type fp msg) = do
  p ← build_msg_packet cmd_type (pointed (record c { msg = msg }) cmdline)
  some (record c { msg = msg }, some (p, fp))

-- A line of input: the packet to send and the open file, or nothing to do.
unfoldable pub client_round : Files → Client → Bytes → Option (Client × Option (Bytes × Opened))
unfolding parse_line client_command
client_round files c cmdline = do
  argv ← parse_line cmdline
  asked ← client_command files c.msg argv
  request_of (record c { argv1 = argv1_of c.argv1 argv }) cmdline asked

-- What the client does when the server's answer is in its buffer. `none`: an answer that starts a
-- transfer in the direction for which the file is not open, which is not modelled.
unfoldable pub client_action : Bytes → Opened → Option Action
client_action q nothing = some next_command
client_action q (writing filename) =
    if msg_type_of q == get_start
    then some (receive_to filename)
    else if msg_type_of q == put_start
    then none
    else some next_command
client_action q (reading content) =
    if msg_type_of q == put_start
    then some (send_content content)
    else if msg_type_of q == get_start
    then none
    else some next_command
