-- ===== src/File.antt =====
-- src/H5VL_log_filei.cpp: the internals of a file.
pub mod Buffers
pub mod Pool
pub mod Allocation
pub mod Settings
pub mod Chosen
pub mod Groups
pub mod Registry
pub mod Session
