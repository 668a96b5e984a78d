-- ===== src/Protocol/Messages.antt =====
-- The bodies of the packets, from AiDist/1 protocol.h.
pub mod Worker
pub mod Task
pub mod Query
