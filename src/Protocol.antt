-- ===== src/Protocol.antt =====
-- AiDist/1 protocol.h: words, checksum, transport header, packet types, message bodies, packets.
pub mod Words
pub mod Crc
pub mod Header
pub mod Types
pub mod Json
pub mod Messages
pub mod Packet
