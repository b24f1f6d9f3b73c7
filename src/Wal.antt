-- ===== src/Wal.antt =====
-- The write-ahead log of shared/wal.
pub mod Entry
pub mod Key
pub mod Log
pub mod Stream
