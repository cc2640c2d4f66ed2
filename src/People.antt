-- ===== src/People.antt =====
-- cpp/file_management/bin_file_methods.cpp: people that are written to a file and read back.
pub mod Person
pub mod Restored
mod Examples
