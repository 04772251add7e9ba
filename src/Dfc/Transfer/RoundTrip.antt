-- ===== src/Dfc/Transfer/RoundTrip.antt =====
-- From `send_file` of dfc/trans.c to `receive_file`, directly and by way of a server that stores
-- what it receives and sends it later.
use network_system_hw.Base.{
  ℕ, zero, suc, ◌+◌, ◌^◌, ◌≤◌, ◌<◌, ◌≡◌, refl, ap, ◌∙◌, Bool, true, List, ◌++◌, Option, none, some,
  arith, length, length-take, length-drop, take, drop, take-append-drop, All, All-take, All-drop,
  Bool-cases, inl, inr, ltb, ltb→lt, ltb-false→le, Bytes,
}
use network_system_hw.Dfc.Packet.{data_size_max}
use network_system_hw.Dfc.Mask.{masking, length-masking, masking-masking, IsByte, IsKey}
use network_system_hw.Dfc.Transfer.{send_file, finished, receive_file}
use network_system_hw.Dfc.Transfer.Rounds.{part}
use network_system_hw.Dfc.Transfer.Pieces.{
  pieces, pieces-last, length-pieces, pieces-pieces, pieces-IsByte, both_ends, sender_only,
  receiver_only,
}
use network_system_hw.Dfc.Transfer.Delivery.{send_file-Brought}

-- Without masking the packets put together are the file.
pieces_plain : (fuel : ℕ) (s : Bytes) → length s < fuel → pieces (λ t. t) fuel s ≡ s
pieces_plain zero s h = absurd (omega arith)
pieces_plain (suc fuel) s h = elim (Bool-cases (ltb (length s) data_size_max)) [
  | inl last ↦ pieces-last (λ t. t) (λ t. refl) fuel s (ltb→lt _ _ last)
  | inr full ↦
      let left = length-drop data_size_max s in
      let le = ltb-false→le _ _ full in
      ap (◌++◌ (take data_size_max s)) (pieces_plain fuel (drop data_size_max s) (omega arith))
      ∙ take-append-drop data_size_max s
]

length-part : (n : Option ℕ) (s : Bytes) → length (part n s) ≤ length s
length-part none s = omega arith
length-part (some n) s = omega (arith, length-take n s)

part-IsByte : (n : Option ℕ) (s : Bytes) → All IsByte s → All IsByte (part n s)
part-IsByte none s h = h
part-IsByte (some n) s h = All-take IsByte n s h

module _ (key : Option Bytes) (usable : IsKey key) (accepts : ℕ → Bool)
    (all : (i : ℕ) → accepts i ≡ true) (file : Bytes) (offset : ℕ) (n : Option ℕ)
    (small : length file < 2 ^ 32) (bytes : All IsByte file) where
  abbrev wanted : Bytes
  wanted = part n (drop offset file)

  length-wanted : length wanted < length file + 1
  length-wanted = omega (arith, length-part n (drop offset file), length-drop offset file)

  -- With one and the same key at both ends, which is not empty, and every `send` accepted,
  -- `send_file` ends, returns 0 and writes past no packet, and a `receive_file` that gets packet
  -- after packet returns 0 and leaves exactly the `n` bytes (-1: all bytes) of the file from
  -- `offset` on, or those that there are. What comes behind on the connection is left alone. The
  -- file has less than 2 ^ 32 bytes.
  pub receive_file-send_part :
      (ps : List Bytes) × (send_file accepts (some file) offset n key ≡ some (ps, true))
      × ((ds : List Bytes) → receive_file key (ps ++ ds) ≡ some (finished wanted))
  receive_file-send_part =
      let (ps, sent, got) =
        send_file-Brought key key (λ s. s) (both_ends key usable) accepts all file offset n small
          bytes in
      (
        ps,
        sent,
        λ ds.
            got ds
            ∙ ap (λ c. some (finished c)) (pieces_plain (length file + 1) wanted length-wanted),
      )

  -- A part that was sent with the key, stored by a receiver without a key, then sent from there
  -- without a key and received with the key is again the part that was sent, if the key is not
  -- empty, every `send` is accepted, each `recv` brings one packet, and the file has less than 2
  -- ^ 32 bytes.
  pub fetch-store :
      (ps : List Bytes) × (send_file accepts (some file) offset n key ≡ some (ps, true))
      × (stored : Bytes) × ((ds : List Bytes)
          → receive_file none (ps ++ ds) ≡ some (finished stored))
      × (qs : List Bytes) × (send_file accepts (some stored) 0 none none ≡ some (qs, true))
      × ((ds : List Bytes) → receive_file key (qs ++ ds) ≡ some (finished wanted))
  fetch-store =
      let (ps, sent, got) =
        send_file-Brought key none (masking key) (sender_only key usable) accepts all file offset n
          small bytes in
      let stored = pieces (masking key) (length file + 1) wanted in
      let size : length stored ≡ length wanted =
        length-pieces (masking key) (length-masking key) (length file + 1) wanted length-wanted in
      let part_bytes = part-IsByte n (drop offset file) (All-drop IsByte offset file bytes) in
      let (qs, sent_back, got_back) =
        send_file-Brought none key (masking key) (receiver_only key usable) accepts all stored 0
          none (omega (arith, length-wanted))
          (pieces-IsByte key (length file + 1) wanted part_bytes) in
      (
        ps,
        sent,
        stored,
        got,
        qs,
        sent_back,
        λ ds.
            got_back ds
            ∙ ap (λ c. some (finished c))
                (pieces-pieces (masking key) (length-masking key) (masking-masking key)
                  (length file + 1) (length stored + 1) wanted length-wanted (omega arith)
                  part_bytes),
      )
