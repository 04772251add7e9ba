-- ===== src/Dfc/Client/Requests.antt =====
-- The requests of `handle_put` and `handle_get` of dfc/client.c: the client's packet with the path
-- of a part over its message.
use network_system_hw.Base.{
  ℕ, suc, ◌+◌, ◌-◌, ◌<◌, ◌≡◌, sym, ap, subst, ◌∙◌, ◌∷◌, ◌++◌, arith, length, length-append,
  length-drop, drop, Bytes, Lacks,
}
use network_system_hw.Base.Memory.{cstr-append}
use network_system_hw.Dfc.Client.{with_msg}
use network_system_hw.Dfc.Packet.{packet_size}
use network_system_hw.Dfc.Packet.Messages.{
  FitsField, Reads, packet_of, packet_of-Reads, take-packet_of,
}

module _ (u w : Bytes) (fu : FitsField u) (fw : FitsField w) (cmd : ℕ) where
  -- A packet of the client for the command, whatever its message.
  abbrev pub IsRequest : Bytes → Type 0
  IsRequest p =
      (body : Bytes) × (length body ≡ packet_size - 36) × (p ≡ packet_of u w fu fw cmd 0 body)

  with_msg-packet_of :
      (path body : Bytes)
      → with_msg (packet_of u w fu fw cmd 0 body) path
        ≡ packet_of u w fu fw cmd 0
            (path ++ (0 ∷ drop (suc (36 + length path)) (packet_of u w fu fw cmd 0 body)))
  with_msg-packet_of path body = take-packet_of u w fu fw cmd 0 body _

  -- The packet with another message is a packet for the command, and the server reads the path.
  pub with_msg-Reads :
      (p path : Bytes)
      → IsRequest p
      → Lacks 0 path
      → length path < packet_size - 36
      → IsRequest (with_msg p path) × Reads (with_msg p path) u w 0 cmd path
  with_msg-Reads p path (body, size, shape) clean short =
      let old = packet_of u w fu fw cmd 0 body in
      let left = drop (suc (36 + length path)) old in
      let full = (packet_of-Reads u w fu fw cmd 0 body size).size in
      let size' : length (path ++ (0 ∷ left)) ≡ packet_size - 36 =
        omega
          (arith, length-append path (0 ∷ left), length-drop (suc (36 + length path)) old, full) in
      let shape' : with_msg p path ≡ packet_of u w fu fw cmd 0 (path ++ (0 ∷ left)) =
        ap (λ q. with_msg q path) shape ∙ with_msg-packet_of path body in
      let read =
        subst (Reads (packet_of u w fu fw cmd 0 (path ++ (0 ∷ left))) u w 0 cmd)
          (cstr-append path left clean)
          (packet_of-Reads u w fu fw cmd 0 (path ++ (0 ∷ left)) size') in
      ((path ++ (0 ∷ left), size', shape'), subst (λ q. Reads q u w 0 cmd path) (sym shape') read)
