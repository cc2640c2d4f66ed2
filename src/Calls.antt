-- ===== src/Calls.antt =====
-- The programs around sockets as sequences of system calls: which descriptors they open, use and close.
pub mod Program
pub mod Owns
pub mod Steps
pub mod Servers
pub mod Clients
pub mod Tidy
pub mod Leaks
mod Examples
