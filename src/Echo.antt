-- ===== src/Echo.antt =====
-- The echo servers of socket_prog: over select, poll and epoll, and with a thread for each client.
pub mod Sockets
pub mod Select
pub mod Poll
pub mod Epoll
pub mod Threaded
pub mod Rounds
pub mod Visits
pub mod Accepting
pub mod Agreement
pub mod EpollAgreement
pub mod Loops
pub mod Interest
pub mod Runs
mod Examples
