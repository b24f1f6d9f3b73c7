-- ===== src/Client.antt =====
-- The client: client/internal/ipc and client/internal/game.
pub mod Ipc
pub mod SendQueue
pub mod Positions
pub mod Game
pub mod Info
pub mod Uplink
pub mod Resend
pub mod Run
pub mod Daemon
pub mod Examples
