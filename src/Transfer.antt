-- ===== src/Transfer.antt =====
-- src/H5VL_log_dataseti.cpp: the pieces of a collective read, of which `gen_rtypes` makes the types
-- of the file and of memory.
pub mod Sort
pub mod Exchange
pub mod Bubble
pub mod Partition
pub mod Sorted
pub mod Rows
pub mod Nested
pub mod Trim
pub mod Types
pub mod Disjoint
pub mod Room
pub mod Scalar
pub mod Perform
use vol_log_based.Prelude.{ℕ}

-- An element of the arrays `foffs`, `moffs` and `lens`: bytes that stand together in the file and
-- in memory.
pub record ReadPiece : Type 0 where
  pub foff : ℕ
  pub moff : ℕ
  pub len : ℕ
