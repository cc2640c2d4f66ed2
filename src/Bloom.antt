-- ===== src/Bloom.antt =====
-- The Bloom filter of bloom-filter/main.go.
pub mod Filter
pub mod Members
mod Examples
