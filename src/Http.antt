-- ===== src/Http.antt =====
-- The static file server of http_server: request handling, media types, and one connection.
pub mod Files
pub mod Request
pub mod Connection
pub mod Words
pub mod Response
mod Examples
