-- ===== src/Dfc/Packet/Messages.antt =====
-- A receiver reads back what `build_msg_packet` wrote.
use network_system_hw.Base.{
  ℕ, ◌+◌, ◌-◌, ◌%◌, ◌<◌, ◌≡◌, refl, sym, ap, ap₂, subst, ◌∙◌, [], ◌∷◌, ◌++◌, append_assoc,
  append-nil, none, some, ◌>>=◌, arith, lt→ltb, le→leb, length, length-append, take, drop,
  drop-drop, Bytes, cstr, Lacks,
}
use network_system_hw.Base.Memory.{
  zeros, length-zeros, byte_at, byte_at-append, drop-append, take-append, cstr-padded,
}
use network_system_hw.Dfc.Packet.{
  packet_size, field, credentials, message, build_msg_packet, username_of, password_of, errno_of,
  msg_type_of, msg_of,
}

-- The message packet that a receiver sees.
pub record Reads (p username password : Bytes) (errno msg_type : ℕ) (msg : Bytes) : Type 0 where
  pub size : length p ≡ packet_size
  pub username_is : username_of p ≡ username
  pub password_is : password_of p ≡ password
  pub errno_is : errno_of p ≡ errno
  pub msg_type_is : msg_type_of p ≡ msg_type
  pub msg_is : msg_of p ≡ msg

-- A string that fits a field of 16 bytes.
abbrev pub FitsField : Bytes → Type 0
FitsField s = Lacks 0 s × (length s < 16)

abbrev laid : Bytes → Bytes
laid s = s ++ zeros (16 - length s)

laid-length : (s : Bytes) → length s < 16 → length (laid s) ≡ 16
laid-length s h =
    omega (arith, length-append s (zeros (16 - length s)), length-zeros (16 - length s))

laid-cstr : (s t : Bytes) → FitsField s → cstr (laid s ++ t) ≡ s
laid-cstr s t (clean, short) =
    ap cstr (append_assoc s (zeros (16 - length s)) t)
    ∙ cstr-padded s t (16 - length s) clean (omega arith)

field-laid : (s : Bytes) → length s < 16 → field s ≡ some (laid s)
field-laid s h = rw (lt→ltb (length s) 16 h) refl

module _ (u w : Bytes) (fu : FitsField u) (fw : FitsField w) where
  abbrev who : Bytes
  who = laid u ++ laid w

  who-length : length who ≡ 32
  who-length =
      omega (arith, length-append (laid u) (laid w), laid-length u fu.1, laid-length w fw.1)

  credentials-who : credentials (some (u, w)) ≡ some who
  unfolding credentials
  credentials-who = rw (field-laid u fu.1, field-laid w fw.1) refl

  -- The bytes behind the two fields.
  behind : (t : Bytes) → drop 32 (who ++ t) ≡ t
  behind t = ap (λ k. drop k (who ++ t)) (sym who-length) ∙ drop-append who t

  byte_behind : (t : Bytes) (j : ℕ) → byte_at (32 + j) (who ++ t) ≡ byte_at j t
  byte_behind t j = ap (λ k. byte_at (k + j) (who ++ t)) (sym who-length) ∙ byte_at-append who t j

  password_behind : (t : Bytes) → cstr (drop 16 (who ++ t)) ≡ w
  password_behind t =
      ap (λ k. cstr (drop k (who ++ t))) (sym (laid-length u fu.1))
      ∙ ap (λ s. cstr (drop (length (laid u)) s)) (append_assoc (laid u) (laid w) t)
      ∙ ap cstr (drop-append (laid u) (laid w ++ t))
      ∙ laid-cstr w t fw

  username_front : (t : Bytes) → cstr (who ++ t) ≡ u
  username_front t = ap cstr (append_assoc (laid u) (laid w) t) ∙ laid-cstr u (laid w ++ t) fu

  -- The packet in front of `msg`, and 524 bytes from there on.
  abbrev pub packet_of : ℕ → ℕ → Bytes → Bytes
  packet_of msg_type errno body = 0 ∷ 1 ∷ (who ++ (errno ∷ msg_type ∷ body))

  abbrev head : ℕ → ℕ → Bytes
  head msg_type errno = 0 ∷ 1 ∷ (who ++ (errno ∷ msg_type ∷ []))

  length-head : (msg_type errno : ℕ) → length (head msg_type errno) ≡ 36
  length-head msg_type errno = omega (arith, length-append who (errno ∷ msg_type ∷ []), who-length)

  packet_of-head :
      (msg_type errno : ℕ) (body : Bytes)
      → packet_of msg_type errno body ≡ head msg_type errno ++ body
  packet_of-head msg_type errno body =
      ap (λ t. 0 ∷ 1 ∷ t) (sym (append_assoc who (errno ∷ msg_type ∷ []) body))

  pub take-packet_of :
      (msg_type errno : ℕ) (body rest : Bytes)
      → take 36 (packet_of msg_type errno body) ++ rest ≡ packet_of msg_type errno rest
  take-packet_of msg_type errno body rest =
      ap (λ p. take 36 p ++ rest) (packet_of-head msg_type errno body)
      ∙ ap (λ n. take n (head msg_type errno ++ body) ++ rest) (sym (length-head msg_type errno))
      ∙ ap (λ p. p ++ rest) (take-append (head msg_type errno) body)
      ∙ sym (packet_of-head msg_type errno rest)

  pub packet_of-Reads :
      (msg_type errno : ℕ) (body : Bytes)
      → length body ≡ packet_size - 36
      → Reads (packet_of msg_type errno body) u w errno msg_type (cstr body)
  packet_of-Reads msg_type errno body size =
      let rest = errno ∷ msg_type ∷ body in
      record {
        size = omega (arith, length-append who rest, who-length);
        username_is = username_front rest;
        password_is = password_behind rest;
        errno_is = byte_behind rest 0;
        msg_type_is = byte_behind rest 1;
        msg_is =
            ap cstr (sym (drop-drop 2 32 (who ++ rest))) ∙ ap (λ t. cstr (drop 2 t)) (behind rest);
      }

  pub build_msg_packet-packet_of :
      (msg_type errno : ℕ) (msg : Bytes)
      → msg_type < 256
      → errno < 256
      → 36 + length msg < packet_size
      → build_msg_packet msg_type errno (some msg) (some (u, w))
        ≡ some (packet_of msg_type errno (msg ++ zeros (packet_size - 36 - length msg)))
  unfolding build_msg_packet
  build_msg_packet-packet_of msg_type errno msg lt le short =
      let errno_same : errno % 256 ≡ errno = omega arith in
      let type_same : msg_type % 256 ≡ msg_type = omega arith in
      let body = msg ++ zeros (packet_size - 36 - length msg) in
      rw (credentials-who, le→leb (36 + length msg) packet_size (omega arith))
        (ap₂ (λ e t. some (0 ∷ 1 ∷ (who ++ (e ∷ t ∷ body)))) errno_same type_same)

  -- A name and a password below 16 bytes and a message below 524 bytes, none of them with a NUL
  -- in it, fit the packet, and a receiver reads all fields as they were given.
  pub build_msg_packet-Reads :
      (msg_type errno : ℕ) (msg : Bytes)
      → msg_type < 256
      → errno < 256
      → Lacks 0 msg
      → 36 + length msg < packet_size
      → (p : Bytes) × (build_msg_packet msg_type errno (some msg) (some (u, w)) ≡ some p)
        × Reads p u w errno msg_type msg
  build_msg_packet-Reads msg_type errno msg lt le clean short =
      let n = packet_size - 36 - length msg in
      let body = msg ++ zeros n in
      let size : length body ≡ packet_size - 36 =
        omega (arith, length-append msg (zeros n), length-zeros n) in
      let read : cstr body ≡ msg =
        ap (λ z. cstr (msg ++ z)) (sym (append-nil (zeros n)))
        ∙ cstr-padded msg [] n clean (omega arith) in
      (
        packet_of msg_type errno body,
        build_msg_packet-packet_of msg_type errno msg lt le short,
        subst (Reads (packet_of msg_type errno body) u w errno msg_type) read
            (packet_of-Reads msg_type errno body size),
      )

no_credentials : credentials none ≡ credentials (some ([], []))
unfolding credentials zeros
no_credentials = refl

-- The server's replies name no user.
pub build_msg_packet-reply :
    (msg_type errno : ℕ) (msg : Bytes)
    → msg_type < 256
    → errno < 256
    → Lacks 0 msg
    → 36 + length msg < packet_size
    → (p : Bytes) × (build_msg_packet msg_type errno (some msg) none ≡ some p)
      × Reads p [] [] errno msg_type msg
unfolding build_msg_packet
build_msg_packet-reply msg_type errno msg lt le clean short =
    let (p, built, reads) =
      build_msg_packet-Reads [] [] (refl, omega arith) (refl, omega arith) msg_type errno msg lt le
        clean short in
    (
      p,
      ap
            (λ c. c >>= λ who. message (some msg) >>= λ body.
              some (0 ∷ 1 ∷ (who ++ ((errno % 256) ∷ (msg_type % 256) ∷ body))))
            no_credentials
          ∙ built,
      reads,
    )
