-- ===== src/Request.antt =====
-- src/H5VL_logi_nb.cpp: the queued write requests.
pub mod Write
pub mod Size
pub mod Fields
pub mod RoundTrip
pub mod Decoded
pub mod Made
pub mod Merged
pub mod Merge
pub mod Misread
pub mod Flush
pub mod Placed
pub mod Written
pub mod Read
pub mod Submit
pub mod Deduped
pub mod Outcome
pub mod Queued
pub mod Dangling
