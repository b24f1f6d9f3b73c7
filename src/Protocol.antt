-- ===== src/Protocol.antt =====
-- The packets between client and server, shared/protocol.
pub mod Packet
pub mod Frame
mod Examples
