-- ===== src/Kv.antt =====
-- The key-value store of simple-kv-cpp: storage engines behind one interface, the store over them,
-- the file format of the persistent engine, and the two engines that keep the map.
pub mod Table
pub mod Engine
pub mod Memory
pub mod FileFormat
pub mod File
pub mod Store
pub mod Order
pub mod Clean
pub mod Refinement
pub mod Engines
pub mod Persistence
pub mod Faults
mod Examples
