-- ===== src/Sections.antt =====
-- src/H5VL_log_filei_meta.cpp: the metadata datasets of a file. A metadata dataset begins with a
-- map of its sections, one section to a process, and goes on with their metadata entries.
pub mod Flush
pub mod Update
pub mod Layout
pub mod Written
pub mod Tiled
pub mod Search
pub mod Cover
pub mod Parts
pub mod Searched
pub mod Complete
