-- ===== src/Files.antt =====
-- The exercises of cpp/file_management that write a file and print it.
pub mod Programs
pub mod Printed
mod Examples
