-- ===== src/Selections.antt =====
-- src/H5VL_logi_dataspace.cpp: a selection as a list of blocks. The arrays `starts` and `counts`,
-- both of length `nsel`, are one list of pairs; `dims` is `none` for a null pointer.
pub mod Merge
pub mod Cells
pub mod Order
pub mod Sort
pub mod Cycles
pub mod Sorted
pub mod Space
pub mod Shortcut
use vol_log_based.Prelude.{ℕ, zero, suc, ◌+◌, ◌%◌, ◌^◌, ◌≡◌, List, [], ◌∷◌, Option, none, some}
use vol_log_based.Prelude.{Bool, true, false, ◌&&◌, ltb, ◌==◌, if◌then◌else◌, length, get_elem?}
use vol_log_based.Prelude.{hd, tl, extent, add64}

-- One selected block: its start and its size in every dimension.
pub record Block : Type 0 where
  pub start : List ℕ
  pub count : List ℕ

pub record Selections : Type 0 where
  pub ndim : ℕ
  pub dims : Option (List ℕ)
  pub blocks : List Block

abbrev pub nsel : Selections → ℕ
nsel s = length s.blocks

-- `lessthan`: the lexicographic order of coordinates.
unfoldable pub lessthan : ℕ → List ℕ → List ℕ → Bool
lessthan zero a b = false
lessthan (suc n) a b =
    if ltb (hd a) (hd b)
    then true
    else if ltb (hd b) (hd a)
    then false
    else lessthan n (tl a) (tl b)

-- The product of a block's counts.
abbrev pub extent_of : ℕ → Block → ℕ
extent_of ndim b = extent ndim 1 b.count

-- `get_sel_size (idx)`: the elements of one block.
unfoldable pub block_size : Selections → ℕ → ℕ
block_size s idx = elim (get_elem? s.blocks idx) [ none ↦ 0 | some b ↦ extent s.ndim 1 b.count ]

-- `get_sel_size ()`: the elements of all blocks.
unfoldable pub sum_sizes : ℕ → List Block → ℕ → ℕ
sum_sizes ndim [] ret = ret
sum_sizes ndim (b ∷ bs) ret = sum_sizes ndim bs (add64 ret (extent ndim 1 b.count))

unfoldable pub get_sel_size : Selections → ℕ
unfolding sum_sizes
get_sel_size s = sum_sizes s.ndim s.blocks 0

-- `operator==`: the inner loop compares start and count of each dimension in turn.
unfoldable pub block_eq : ℕ → List ℕ → List ℕ → List ℕ → List ℕ → Bool
block_eq zero sa sb ca cb = true
block_eq (suc n) sa sb ca cb =
    (hd sa == hd sb) && ((hd ca == hd cb) && block_eq n (tl sa) (tl sb) (tl ca) (tl cb))

unfoldable pub blocks_eq : ℕ → List Block → List Block → Bool
unfolding block_eq
blocks_eq ndim [] bs = true
blocks_eq ndim (a ∷ as') [] = true
blocks_eq ndim (a ∷ as') (b ∷ bs) =
    block_eq ndim a.start b.start a.count b.count && blocks_eq ndim as' bs

unfoldable pub selections_eq : Selections → Selections → Bool
unfolding blocks_eq
selections_eq a b = (a.ndim == b.ndim) && ((nsel a == nsel b) && blocks_eq a.ndim a.blocks b.blocks)
