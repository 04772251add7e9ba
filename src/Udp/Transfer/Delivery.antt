-- ===== src/Udp/Transfer/Delivery.antt =====
-- What arrives is the file, for any order and number of copies of its packets.
use network_system_hw.Base.{
  ℕ, zero, suc, ◌+◌, ◌^◌, ◌≤◌, ◌<◌, ◌≡◌, refl, ap, subst, ◌∙◌, ◌⊎◌, List, [], ◌∷◌, ◌++◌, some,
  arith, if◌then◌else◌, ◌==◌, ◌>>=◌, inl, inr, All, length, Bytes,
}
use network_system_hw.Base.Memory.{bytes_ext}
use network_system_hw.Udp.Packet.{buffer_of, eof_of, data_len_of, offset_of}
use network_system_hw.Udp.Packet.Fields.{Carries}
use network_system_hw.Udp.Transfer.{Receiving, finished, receive_packet, receive_from, receive_file}
use network_system_hw.Udp.Transfer.Parts.{
  IsPart, Follows, Has, placed, receive_packet-placed, placed-Follows, placed-Has, placed-new,
}

-- The datagram is one of the list.
abbrev pub In : Bytes → List Bytes → Type 0
In p [] = ⊥
In p (q ∷ ps) = (p ≡ q) ⊎ In p ps

-- The datagram carries a part of the file.
pub record PartPacket (file p : Bytes) : Type 0 where
  pub offset : ℕ
  pub bytes : Bytes
  pub part : IsPart file offset bytes
  pub carries : Carries (buffer_of p) 0 offset bytes

-- Byte `j` of the file is in the datagram.
abbrev pub Brings : Bytes → ℕ → Type 0
Brings p j =
    (offset_of (buffer_of p) ≤ j) × (j < offset_of (buffer_of p) + data_len_of (buffer_of p))

module _ (file : Bytes) (small : length file < 2 ^ 32) where
  whole_content :
      (r : Receiving)
      → Follows file r
      → ((j : ℕ) → j < length file → Has file r j)
      → r.content ≡ file
  whole_content r f have =
      let len : length r.content ≡ length file = enough (length file) refl in
      bytes_ext r.content file len (λ j l. (have j (omega arith)).1)
    where
      enough : (n : ℕ) → length file ≡ n → length r.content ≡ length file
      enough zero e = omega (arith, f.fits)
      enough (suc n) e = omega (arith, f.fits, (have n (omega arith)).0)

  record Runs (r : Receiving) (ps : List Bytes) : Type 0 where
    after : Receiving
    follows : Follows file after
    goes_on : (rest : List Bytes) → receive_from r (ps ++ rest) ≡ receive_from after rest
    keeps : (j : ℕ) → Has file r j → Has file after j
    brings : (p : Bytes) (j : ℕ) → In p ps → Brings p j → Has file after j

  receive_step :
      (r : Receiving) (p : Bytes) (rest : List Bytes) (k : PartPacket file p)
      → Follows file r
      → receive_from r (p ∷ rest) ≡ receive_from (placed r k.offset k.bytes) rest
  unfolding receive_from
  receive_step r p rest k f =
      ap
        (λ n.
          if n == 1
          then some (finished r.content)
          else (receive_packet r (buffer_of p) >>= λ r'. receive_from r' rest))
        k.carries.eof_is
      ∙ ap (λ m. m >>= λ r'. receive_from r' rest)
          (receive_packet-placed file small k.offset k.bytes k.part r (buffer_of p) f k.carries)

  -- The packet just received has brought its bytes.
  Brings-first :
      (r : Receiving) (p : Bytes) (j : ℕ) (k : PartPacket file p)
      → Brings p j
      → Has file (placed r k.offset k.bytes) j
  Brings-first r p j k b =
      let c = k.carries in
      placed-new file small k.offset k.bytes k.part r j (omega (arith, c.offset_is, c.len_is))
        (omega (arith, c.offset_is, c.len_is))

  receive_parts :
      (ps : List Bytes) (r : Receiving) → Follows file r → All (PartPacket file) ps → Runs r ps
  receive_parts [] r f ks = record {
    after = r;
    follows = f;
    goes_on = λ rest. refl;
    keeps = λ j h. h;
    brings = λ p j i b. absurd i;
  }
  receive_parts (p ∷ ps) r f (k, ks) =
      let r' = placed r k.offset k.bytes in
      let more = receive_parts ps r' (placed-Follows file small k.offset k.bytes k.part r f) ks in
      record {
        after = more.after;
        follows = more.follows;
        goes_on = λ rest. receive_step r p (ps ++ rest) k f ∙ more.goes_on rest;
        keeps = λ j h. more.keeps j (placed-Has file small k.offset k.bytes k.part r j h);
        brings = λ q j i b. elim i [
          | inl e ↦ more.keeps j (Brings-first r p j k (subst (λ d. Brings d j) e b))
          | inr later ↦ more.brings q j later b
        ];
      }

  -- If every datagram before the end packet carries a part of the file, and every byte of the file
  -- is in one of them, the file that `receive_file` leaves is the file that was sent.
  pub receive_file_parts :
      (ps : List Bytes) (end : Bytes) (rest : List Bytes)
      → eof_of (buffer_of end) ≡ 1
      → All (PartPacket file) ps
      → ((j : ℕ) → j < length file → (p : Bytes) × In p ps × Brings p j)
      → receive_file (ps ++ (end ∷ rest)) ≡ some (finished file)
  unfolding receive_file receive_from
  receive_file_parts ps end rest last ks cover =
      let start : Receiving = record { content = []; at = 0; pos = 0 } in
      let run = receive_parts ps start (record { aligned = refl; fits = omega arith }) ks in
      let have =
        λ (j : ℕ) (l : j < length file). run.brings (cover j l).0 j (cover j l).1 (cover j l).2 in
      let whole : run.after.content ≡ file = whole_content run.after run.follows have in
      run.goes_on (end ∷ rest)
      ∙ ap
          (λ n.
            if n == 1
            then some (finished run.after.content)
            else (receive_packet run.after (buffer_of end) >>= λ r'. receive_from r' rest))
          last
      ∙ ap (λ c. some (finished c)) whole
