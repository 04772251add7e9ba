-- ===== src/Udp/Commands/Exchange.antt =====
-- A command of the client and the server's answer to it.
use network_system_hw.Base.{
  ◌^◌, ◌<◌, ◌≡◌, refl, true, false, List, [], ◌∷◌, some, lt→ltb, arith, length, Bytes, codes,
  str_eq, Lacks,
}
use network_system_hw.Udp.Packet.{cmd_put, cmd_get, get_start, put_start, buffer_of}
use network_system_hw.Udp.Packet.Messages.{Reads, build_msg_packet-Reads}
use network_system_hw.Udp.Transfer.{finished, receive_file, send_file}
use network_system_hw.Udp.Transfer.RoundTrip.{send_file_lem, receive_file-send_file}
use network_system_hw.Udp.Commands.{
  parse_line, set_received_filename, Files, reading, writing, serve_get, serve_put, respond,
  send_content, receive_to, server_round, argument, Client, client_command, client_round,
  client_action,
}

-- An operand that a packet can carry.
abbrev pub IsOperand : Bytes → Type 0
IsOperand s = (0 < length s) × (length s < 256) × Lacks 0 s

-- The content of a file comes through whole.
abbrev pub ComesThrough : Bytes → Type 0
ComesThrough content =
    (ds : List Bytes) × (send_file content ≡ some ds) × (receive_file ds ≡ some (finished content))

comes_through : (content : Bytes) → length content < 2 ^ 32 → ComesThrough content
comes_through content small =
    let (ds, once, _, all) = send_file_lem content small in
    (_, all, receive_file-send_file content _ small all)

module _ (server : Files) (operand q : Bytes) (full : 0 < length operand) where
  respond_get :
      (content : Bytes)
      → Reads q cmd_get operand
      → server.open_read operand ≡ some content
      → respond server q ≡ some (serve_get (some content))
  unfolding respond
  respond_get content reads there =
      rw (reads.msg_type_is, reads.msg_is, lt→ltb 0 (length operand) full, there) refl

  respond_put :
      (filename : Bytes)
      → Reads q cmd_put operand
      → set_received_filename operand ≡ some filename
      → server.open_write filename ≡ true
      → respond server q ≡ some (serve_put filename true)
  unfolding respond
  respond_put filename reads named there =
      rw (reads.msg_type_is, reads.msg_is, lt→ltb 0 (length operand) full, named, there) refl

-- "get" with an operand that the server can read and a name that the client can write: the client
-- asks for the operand, the server starts to send the file's content, the client starts to
-- receive into the operand's name with ".received", and if every datagram arrives in order the
-- content comes through whole. The operand is not empty, shorter than 256 bytes, and the content
-- shorter than 2 ^ 32.
pub client_round-get :
    (client server : Files) (c : Client) (cmdline operand filename content : Bytes)
    (rest : List Bytes)
    → parse_line cmdline ≡ some (codes "get" ∷ operand ∷ rest)
    → IsOperand operand
    → set_received_filename operand ≡ some filename
    → client.open_write filename ≡ true
    → server.open_read operand ≡ some content
    → length content < 2 ^ 32
    → (request : Bytes) × (reply : Bytes) × (client_round client c cmdline
        ≡ some (record { argv1 = operand; msg = argument }, some (request, writing filename)))
      × (server_round server (buffer_of request) ≡ some (reply, (send_content content, false)))
      × (client_action (buffer_of reply) (writing filename) ≡ some (receive_to filename))
      × ComesThrough content
unfolding client_round client_command server_round client_action str_eq
client_round-get client server c cmdline operand filename content rest parsed (full, short, clean)
      named can_write there small =
    let (request, built, asks) =
      build_msg_packet-Reads cmd_get operand (omega arith) clean (omega arith) in
    let (reply, answered, says) =
      build_msg_packet-Reads get_start [] (omega arith) refl (omega arith) in
    (
      request,
      reply,
      rw (parsed, named, can_write, built) refl,
      rw (respond_get server operand (buffer_of request) full content asks there, answered) refl,
      rw says.msg_type_is refl,
      comes_through content small,
    )

-- "put" with an operand that the client can read and whose name with ".received" the server can
-- write: the client names the operand, the server starts to receive into that name, the client
-- starts to send, and if every datagram arrives in order the content comes through whole. The
-- operand is not empty, shorter than 256 bytes, and the content shorter than 2 ^ 32.
pub client_round-put :
    (client server : Files) (c : Client) (cmdline operand filename content : Bytes)
    (rest : List Bytes)
    → parse_line cmdline ≡ some (codes "put" ∷ operand ∷ rest)
    → IsOperand operand
    → client.open_read operand ≡ some content
    → set_received_filename operand ≡ some filename
    → server.open_write filename ≡ true
    → length content < 2 ^ 32
    → (request : Bytes) × (reply : Bytes) × (client_round client c cmdline
        ≡ some (record { argv1 = operand; msg = argument }, some (request, reading content)))
      × (server_round server (buffer_of request) ≡ some (reply, (receive_to filename, false)))
      × (client_action (buffer_of reply) (reading content) ≡ some (send_content content))
      × ComesThrough content
unfolding client_round client_command server_round client_action str_eq
client_round-put client server c cmdline operand filename content rest parsed (full, short, clean)
      there named can_write small =
    let (request, built, asks) =
      build_msg_packet-Reads cmd_put operand (omega arith) clean (omega arith) in
    let (reply, answered, says) =
      build_msg_packet-Reads put_start [] (omega arith) refl (omega arith) in
    (
      request,
      reply,
      rw (parsed, there, built) refl,
      rw
          (
            respond_put server operand (buffer_of request) full filename asks named can_write,
            answered,
          )
          refl,
      rw says.msg_type_is refl,
      comes_through content small,
    )
