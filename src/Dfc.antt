-- ===== src/Dfc.antt =====
-- The distributed file system under dfc/: its packets, the transfer of a part of a file, where
-- the parts are placed, and the server's commands.
pub mod Strutil
pub mod Packet
pub mod Mask
pub mod Transfer
pub mod Placement
pub mod Config
pub mod Server
pub mod Partition
pub mod Client
pub mod Listing
pub mod Session
