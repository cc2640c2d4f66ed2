-- ===== src/Wal.antt =====
-- The key-value store with a write-ahead log of database/wal_kvstore/main.go.
pub mod Store
pub mod Recovery
pub mod Faults
pub mod Race
mod Examples
