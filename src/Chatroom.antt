-- ===== src/Chatroom.antt =====
-- The chat room of chatroom-app: messages with a text header, sessions, and the room that passes
-- what one participant sends on to the others.
pub mod Message
pub mod RoundTrip
pub mod Room
pub mod Delivery
pub mod Client
pub mod Lines
mod Examples
