-- ===== src/Tests/Transfers.antt =====
-- udp/util.c
use network_system_hw.Base.{◌≡◌, refl, [], ◌∷◌, ◌++◌, some, Bytes, codes}
use network_system_hw.Base.Memory.{zeros}
use network_system_hw.Udp.Packet.{build_data_packet}
use network_system_hw.Udp.Transfer.{send_file}
use network_system_hw.Udp.Transfer.RoundTrip.{end_packet}

abbrev one : Bytes
one = codes "hello"

abbrev packet : Bytes
packet = 0 ∷ 2 ∷ 0 ∷ 0 ∷ 5 ∷ 0 ∷ 0 ∷ 0 ∷ 0 ∷ 0 ∷ 0 ∷ 0 ∷ (one ++ zeros 479)

sent : send_file one ≡ some (packet ∷ packet ∷ packet ∷ end_packet ∷ [])
unfolding send_file build_data_packet
sent = refl
