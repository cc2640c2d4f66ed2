-- ===== src/MultiClient.antt =====
-- The server and client of cpp/socket_programming/multi_client_server: clients log in under a name
-- and send direct messages and broadcasts over length-prefixed frames.
pub mod NameMap
pub mod Wire
pub mod Server
pub mod Buffer
pub mod Streams
pub mod Routing
pub mod Schedule
pub mod Race
pub mod Misdirection
pub mod Logout
pub mod Overflow
pub mod Names
pub mod Client
mod Examples
