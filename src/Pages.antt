-- ===== src/Pages.antt =====
-- The pages of database/simple_page_impl/storage and the file that holds them.
pub mod Page
mod Slices
pub mod Bytes
pub mod Slots
pub mod Tuples
pub mod Shelf
pub mod Stored
pub mod Losses
pub mod Manager
pub mod FileBytes
pub mod Placed
mod Examples
