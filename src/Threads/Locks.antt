-- ===== src/Threads/Locks.antt =====
-- Two threads that take several mutexes: cpp/multi_threading/dead_lock.cpp.
pub mod Programs
pub mod Deadlock
pub mod Endings
mod Examples
