-- ===== src/Server.antt =====
-- The server: server/internal/session and server/internal/app.
pub mod Player
pub mod App
pub mod Join
pub mod Events
pub mod Examples
