-- ===== src/Tests/Coding.antt =====
-- A dataset of 4 by 6 elements of 4 bytes each.
use vol_log_based.Prelude.{ℕ, ◌-◌, ◌^◌, ◌≡◌, refl, ◌↔◌, arith, List, [], ◌∷◌, some}
use vol_log_based.Prelude.{true, false}
use vol_log_based.Selections.{Block, Selections, lessthan}
use vol_log_based.Selections.Merge.{merge_blocks, InAny}
use vol_log_based.Selections.Cells.{AllCells, merge_blocks_iff}
use vol_log_based.Dataset.{DsetInfo, make_dsteps}
use vol_log_based.Meta.Codec.{sel_encode}
use vol_log_based.Request.Write.{WReq, make}
use vol_log_based.Config

abbrev dims : List ℕ
dims = 4 ∷ 6 ∷ []

abbrev dset : DsetInfo
dset = record { ndim = 2; esize = 4; dims = dims; mdims = dims; dsteps = make_dsteps 2 dims }

abbrev corner : Block
corner = record { start = 0 ∷ 0 ∷ []; count = 1 ∷ 3 ∷ [] }

abbrev inner : Block
inner = record { start = 2 ∷ 1 ∷ []; count = 1 ∷ 2 ∷ [] }

abbrev two_blocks : Selections
two_blocks = record { ndim = 2; dims = some dims; blocks = corner ∷ (inner ∷ []) }

abbrev unlimited : ℕ
unlimited = 2 ^ 64 - 1

abbrev request : WReq
request = make unlimited true dset 5 Config.sel_encode 0 two_blocks

-- Two neighbours of a row, and a block of another row.
abbrev next : Block
next = record { start = 0 ∷ 3 ∷ []; count = 1 ∷ 2 ∷ [] }

merge_blocks_iff_example :
    (InAny false 2 (0 ∷ 4 ∷ []) (
        (merge_blocks false 2 corner (next ∷ (inner ∷ []))).0
        ∷ (merge_blocks false 2 corner (next ∷ (inner ∷ []))).1)
      ↔ InAny false 2 (0 ∷ 4 ∷ []) (corner ∷ (next ∷ (inner ∷ []))))
    × AllCells false 2 (
        (merge_blocks false 2 corner (next ∷ (inner ∷ []))).0
        ∷ (merge_blocks false 2 corner (next ∷ (inner ∷ []))).1)
merge_blocks_iff_example =
    merge_blocks_iff false 2 (0 ∷ 4 ∷ []) corner (next ∷ (inner ∷ [])) (omega arith)

corner_inner : lessthan 2 (0 ∷ 5 ∷ []) (2 ∷ 1 ∷ []) ≡ true
unfolding lessthan
corner_inner = refl

inner_later : lessthan 2 (2 ∷ 1 ∷ []) (2 ∷ 3 ∷ []) ≡ true
unfolding lessthan
inner_later = refl
