-- ===== src/Meta.antt =====
-- src/H5VL_logi_meta.hpp, src/H5VL_logi_meta.cpp: the metadata entries of a log-based file.
pub mod Entry
pub mod Codec
pub mod Steps
pub mod Decode
pub mod Reference
pub use Entry.*
