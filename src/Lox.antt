-- ===== src/Lox.antt =====
-- The scanner of jlox_interpriter.
pub mod Tokens
pub mod Scanner
pub mod Items
pub mod Steps
pub mod Lines
pub mod Ends
pub mod RoundTrip
mod Examples
