-- ===== src/Simple.antt =====
-- The simple client and server of cpp/socket_programming/simple_client_server, and how they talk.
pub mod Protocol
pub mod Conversation
mod Examples
