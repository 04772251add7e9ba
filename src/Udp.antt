-- ===== src/Udp.antt =====
-- The file transfer over datagrams of udp/.
pub mod Packet
pub mod Transfer
pub mod Commands
pub mod Serving
