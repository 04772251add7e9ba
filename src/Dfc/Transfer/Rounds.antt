-- ===== src/Dfc/Transfer/Rounds.antt =====
-- What each packet of `send_file` brings to a receiver that has taken the packets before it.
use network_system_hw.Base.{
  ℕ, ◌+◌, ◌-◌, ◌%◌, ◌^◌, ◌≤◌, ◌<◌, min, ◌≡◌, refl, sym, ap, ◌∙◌, true, List, [], ◌∷◌, ◌++◌, Option,
  none, some, ◌>>=◌, if◌then◌else◌, ◌==◌, le→leb, arith, length, length-append, take, drop,
  take-plus, take_short, take-append-drop, Bytes,
}
use network_system_hw.Base.Memory.{write_at-end}
use network_system_hw.Udp.Transfer.{Receiving}
use network_system_hw.Dfc.Packet.{packet_size, data_size_max, buffer_of, data_of}
use network_system_hw.Dfc.Packet.Fields.{Carries, end_packet, end_packet-eof}
use network_system_hw.Dfc.Mask.{mask}
use network_system_hw.Dfc.Transfer.{
  count, less, Sent, finished, receive_data, receive_packet, receive_from,
}

-- What is asked for of the bytes that are left.
abbrev pub part : Option ℕ → Bytes → Bytes
part none s = s
part (some n) s = take n s

pub part-count :
    (n : Option ℕ) (s : Bytes)
    → part n s ≡ take (count n) s ++ part (less n (count n)) (drop (count n) s)
part-count none s = sym (take-append-drop data_size_max s)
part-count (some n) s =
    let e : n ≡ min n data_size_max + (n - min n data_size_max) = omega arith in
    ap (λ k. take k s) e ∙ take-plus (min n data_size_max) (n - min n data_size_max) s

pub part_short : (n : Option ℕ) (s : Bytes) → length s < count n → part n s ≡ s
part_short none s h = refl
part_short (some n) s h = take_short n s (omega arith)

pub part_none : (n : Option ℕ) (s : Bytes) → count n ≡ 0 → part n s ≡ []
part_none none s h = absurd (omega arith)
part_none (some n) s h = let e : n ≡ 0 = omega arith in ap (λ k. take k s) e

pub part-less :
    (n : Option ℕ) (s : Bytes) → count n < data_size_max → part (less n (count n)) s ≡ []
part-less none s h = absurd (omega arith)
part-less (some n) s h = let e : n - min n data_size_max ≡ 0 = omega arith in ap (λ k. take k s) e

pub count-bound : (n : Option ℕ) → count n ≤ data_size_max
count-bound none = omega arith
count-bound (some n) = omega arith

-- The receiver behind `content`.
abbrev pub behind : Bytes → Receiving
behind content = record { content = content; at = length content; pos = length content }

module _ (key : Option Bytes) where
  receive_data-behind :
      (content bytes masked : Bytes)
      → length masked ≡ length bytes
      → length bytes ≤ data_size_max
      → length content + length bytes < 2 ^ 32
      → mask key masked ≡ some bytes
      → receive_data key (behind content) (length content) (length masked) masked
        ≡ some (behind (content ++ bytes))
  unfolding receive_data
  receive_data-behind content bytes masked len short small plain =
      let fits = le→leb (44 + length masked) packet_size (omega arith) in
      let same : (length content == length content) ≡ true = ground arith in
      let total : length content + length masked ≡ length (content ++ bytes) =
        omega (arith, length-append content bytes) in
      let low : length (content ++ bytes) % 2 ^ 64 ≡ length (content ++ bytes) =
        omega (arith, length-append content bytes) in
      rw (fits, same, plain, total, low, write_at-end bytes content)

  receive_next :
      (content bytes masked q : Bytes)
      → length masked ≡ length bytes
      → length bytes ≤ data_size_max
      → length content + length bytes < 2 ^ 32
      → mask key masked ≡ some bytes
      → Carries q 0 (length content) masked
      → receive_packet key (behind content) q ≡ some (behind (content ++ bytes))
  unfolding receive_packet
  receive_next content bytes masked q len short small plain c =
      (λ i.
        receive_data key (behind content) (c.offset_is i) (c.len_is i)
          ((ap (λ n. data_of n q) c.len_is ∙ c.data_is) i))
      ∙ receive_data-behind content bytes masked len short small plain

  pub receive_step :
      (content bytes masked d : Bytes) (ds : List Bytes)
      → length masked ≡ length bytes
      → length bytes ≤ data_size_max
      → length content + length bytes < 2 ^ 32
      → mask key masked ≡ some bytes
      → Carries (buffer_of d) 0 (length content) masked
      → receive_from key (behind content) (d ∷ ds) ≡ receive_from key (behind (content ++ bytes)) ds
  unfolding receive_from
  receive_step content bytes masked d ds len short small plain c =
      ap
        (λ n.
          if n == 1
          then some (finished content)
          else (receive_packet key (behind content) (buffer_of d) >>= λ r'. receive_from key r' ds))
        c.eof_is
      ∙ ap (λ m. m >>= λ r'. receive_from key r' ds)
          (receive_next content bytes masked (buffer_of d) len short small plain c)

  pub receive_end :
      (content : Bytes) (ds : List Bytes)
      → receive_from key (behind content) (end_packet ∷ ds) ≡ some (finished content)
  unfolding receive_from
  receive_end content ds =
      ap
        (λ n.
          if n == 1
          then some (finished content)
          else (receive_packet key (behind content) (buffer_of end_packet) >>= λ r.
              receive_from key r ds))
        end_packet-eof

  -- The packets are taken, and bring `bytes` to a receiver behind `content`.
  pub record Brought (content bytes : Bytes) (result : Option Sent) : Type 0 where
    pub packets : List Bytes
    pub sent_is : result ≡ some (packets, true)
    pub brings :
        (ds : List Bytes)
        → receive_from key (behind content) (packets ++ ds)
          ≡ receive_from key (behind (content ++ bytes)) ds
