-- ===== src/Threads/Mutex.antt =====
-- Two threads that add to a shared number under one mutex, one access at a time: mutex.cpp,
-- thread_sync.cpp, lock_guard.cpp, unique_lock.cpp and try_lock_mutex.cpp of cpp/multi_threading.
pub mod Threads
pub mod Exclusion
pub mod Totals
mod Examples
