-- ===== src/Udp/Transfer/Parts.antt =====
-- One data packet of a file brings its part of the file into the received content.
use network_system_hw.Base.{
  ℕ, ◌+◌, ◌-◌, ◌%◌, ◌^◌, ◌≤◌, ◌<◌, ◌≡◌, refl, ap, ◌∙◌, some, arith, le→leb, length, Bytes,
}
use network_system_hw.Base.Memory.{byte_at, write_at, write_at-get, write_at-length}
use network_system_hw.Udp.Packet.{packet_size, data_size_max, data_of}
use network_system_hw.Udp.Packet.Fields.{Carries}
use network_system_hw.Udp.Transfer.{Receiving, seek, receive_data, receive_packet}

-- `bytes` stand at `offset` in the file.
pub record IsPart (file : Bytes) (offset : ℕ) (bytes : Bytes) : Type 0 where
  pub inside : offset + length bytes ≤ length file
  pub short : length bytes ≤ data_size_max
  pub same : (k : ℕ) → k < length bytes → byte_at k bytes ≡ byte_at (offset + k) file

-- `pos` follows the file position, and the content is no longer than the file.
pub record Follows (file : Bytes) (r : Receiving) : Type 0 where
  pub aligned : r.at ≡ r.pos
  pub fits : length r.content ≤ length file

-- Byte `j` has arrived.
abbrev pub Has : Bytes → Receiving → ℕ → Type 0
Has file r j = (j < length r.content) × (byte_at j r.content ≡ byte_at j file)

abbrev pub placed : Receiving → ℕ → Bytes → Receiving
placed r offset bytes = record {
  content = write_at offset bytes r.content;
  at = offset + length bytes;
  pos = offset + length bytes;
}

module _ (file : Bytes) (small : length file < 2 ^ 32) (offset : ℕ) (bytes : Bytes)
    (part : IsPart file offset bytes) where
  seek_at :
      (r : Receiving)
      → Follows file r
      → ((seek r offset).at ≡ offset) × ((seek r offset).pos ≡ offset)
  seek_at r f = ground (arith, f.aligned)

  receive_data-placed :
      (r : Receiving)
      → Follows file r
      → receive_data r offset (length bytes) bytes ≡ some (placed r offset bytes)
  unfolding receive_data
  receive_data-placed r f =
      let fits = le→leb (12 + length bytes) packet_size (omega (arith, part.short)) in
      let whole : (offset + length bytes) % 2 ^ 64 ≡ offset + length bytes =
        omega (arith, part.inside) in
      ground (arith, seek_at r f, fits, whole)

  pub receive_packet-placed :
      (r : Receiving) (q : Bytes)
      → Follows file r
      → Carries q 0 offset bytes
      → receive_packet r q ≡ some (placed r offset bytes)
  unfolding receive_packet
  receive_packet-placed r q f c =
      (λ i.
        receive_data r (c.offset_is i) (c.len_is i)
          ((ap (λ n. data_of n q) c.len_is ∙ c.data_is) i))
      ∙ receive_data-placed r f

  pub placed-Follows : (r : Receiving) → Follows file r → Follows file (placed r offset bytes)
  placed-Follows r f = record {
    aligned = refl;
    fits = ground (arith, write_at-length offset bytes r.content, part.inside, f.fits);
  }

  pub placed-Has : (r : Receiving) (j : ℕ) → Has file r j → Has file (placed r offset bytes) j
  placed-Has r j h = ground (
    arith,
    write_at-length offset bytes r.content,
    write_at-get offset bytes r.content j,
    part.same (j - offset),
  )

  pub placed-new :
      (r : Receiving) (j : ℕ)
      → offset ≤ j
      → j < offset + length bytes
      → Has file (placed r offset bytes) j
  placed-new r j lo hi = ground (
    arith,
    write_at-length offset bytes r.content,
    write_at-get offset bytes r.content j,
    part.same (j - offset),
  )
