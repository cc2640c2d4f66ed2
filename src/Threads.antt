-- ===== src/Threads.antt =====
-- The exercises of cpp/multi_threading.
pub mod ProducerConsumer
pub mod Values
pub mod Progress
pub mod Mutex
pub mod Accounts
pub mod TryLock
pub mod OddSums
pub mod Locks
pub mod Recursion
mod Examples
mod TryLockExamples
