-- ===== src/Selections/Space.antt =====
-- src/H5VL_logi_dataspace.cpp: the constructor of a selection from a dataspace. What HDF5 answers
-- about the dataspace is an argument.
use vol_log_based.Prelude.{ℕ, zero, suc, ◌-◌, List, [], ◌∷◌, ◌++◌, map, replicate}
use vol_log_based.Prelude.{Option, none, some, Bool, true, false, not, ◌&&◌, ◌||◌, ◌==◌, ltb}
use vol_log_based.Prelude.{if◌then◌else◌, hd, tl, memcpy, extent, add64, sub64}
use vol_log_based.Prelude.{Result, ok, err, unsupported_selection}
use vol_log_based.Selections.{Block, Selections, lessthan}
use vol_log_based.Selections.Merge.{merge_blocks}
use vol_log_based.Selections.Sort.{sortblocks}

-- What `H5Sget_regular_hyperslab` gives.
pub record Regular : Type 0 where
  pub start : List ℕ
  pub stride : List ℕ
  pub count : List ℕ
  pub block : List ℕ

-- The kinds of selections, with the regular form of a hyperslab if it has one and its blocks with
-- their last coordinates, or the points.
pub data SelType : Type 0 where
  hyperslabs : Option Regular → List Block → SelType
  points : List (List ℕ) → SelType
  all_selected none_selected unsupported : SelType

pub record Dataspace : Type 0 where
  pub ndim : ℕ
  pub dims : List ℕ
  pub sel : SelType
  pub npoints : ℕ

abbrev pub all_ones : ℕ → List ℕ → Bool
all_ones zero xs = true
all_ones (suc n) xs = (hd xs == 1) && all_ones n (tl xs)

-- The one block of a regular hyperslab, if it is known to be one.
unfoldable pub regular_block : ℕ → Regular → Option Block
regular_block ndim r =
    if (all_ones ndim r.stride && all_ones ndim r.block) || all_ones ndim r.count
    then some (record {
      start = memcpy ndim r.start;
      count = memcpy ndim (if all_ones ndim r.block then r.count else r.block);
    })
    else none

-- Sizes from first and last coordinates.
unfoldable pub sizes : ℕ → List ℕ → List ℕ → List ℕ
sizes zero s e = []
sizes (suc n) s e = add64 (sub64 (hd e) (hd s)) 1 ∷ sizes n (tl s) (tl e)

unfoldable pub whole : ℕ → Block → Block
unfolding sizes
whole ndim b = record { start = memcpy ndim b.start; count = sizes ndim b.start b.count }

-- The groups of blocks that may interleave: a group ends where a block ends in front of the next.
unfoldable pub add_front : Bool → Block → List (List Block) → List (List Block)
add_front true b gs = (b ∷ []) ∷ gs
add_front false b [] = (b ∷ []) ∷ []
add_front false b (g ∷ gs) = (b ∷ g) ∷ gs

unfoldable pub groups : ℕ → Block → List Block → List (List Block)
unfolding add_front
groups ndim b [] = (b ∷ []) ∷ []
groups ndim b (c ∷ cs) = add_front (lessthan ndim b.count c.start) b (groups ndim c cs)

-- The next row of a block: the last of the `n` dimensions in front of the row's own is increased,
-- and a dimension past its end carries into the one in front of it; the first has none.
unfoldable pub next_row : Bool → ℕ → List ℕ → List ℕ → List ℕ → Bool × List ℕ
next_row front zero s lo hi = (true, s)
next_row front (suc n) s lo hi =
    let (carry, rest) = next_row false n (tl s) (tl lo) (tl hi) in
    let up = add64 (hd s) 1 in
    if carry
    then if not front && ltb (hd hi) up then (true, hd lo ∷ rest) else (false, up ∷ rest)
    else (false, hd s ∷ rest)

-- One of the first `n` dimensions has not reached its end.
unfoldable pub more_rows : ℕ → List ℕ → List ℕ → Bool
more_rows zero s hi = false
more_rows (suc n) s hi = ltb (hd s) (hd hi) || more_rows n (tl s) (tl hi)

-- The element of the last dimension.
abbrev pub last_from : ℕ → List ℕ → List ℕ
last_from zero xs = xs
last_from (suc n) xs = last_from n (tl xs)

-- The breakdown of a block into rows; the first argument is fuel.
unfoldable pub rows : ℕ → ℕ → List ℕ → Block → List Block
unfolding next_row more_rows
rows zero ndim s b = []
rows (suc fuel) ndim s b =
    let row : Block = record {
      start = memcpy ndim s;
      count =
          replicate (ndim - 1) 1
          ++ sizes 1 (last_from (ndim - 1) b.start) (last_from (ndim - 1) b.count);
    } in
    let rest = rows fuel ndim (next_row true (ndim - 1) s b.start b.count).1 b in
    if more_rows (ndim - 1) s b.count then row ∷ rest else row ∷ []

abbrev pub merge_list : Bool → ℕ → List Block → List Block
merge_list use_end ndim [] = []
merge_list use_end ndim (b ∷ bs) = let (c, cs) = merge_blocks use_end ndim b bs in c ∷ cs

-- The two uses of `std::sort`, on indexes and on points.
pub record StdSort : Type 0 where
  pub by_index : (ℕ → ℕ → Bool) → List ℕ → List ℕ
  pub by_point : (List ℕ → List ℕ → Bool) → List (List ℕ) → List (List ℕ)

module _ (sort : StdSort) (ndim : ℕ) where
  -- The blocks of a group: one as it is, more of them in rows, sorted and merged again.
  unfoldable pub all_rows : List Block → List Block
  unfolding rows sizes
  all_rows [] = []
  all_rows (b ∷ bs) =
      rows (extent (ndim - 1) 1 (sizes ndim b.start b.count)) ndim b.start b ++ all_rows bs

  unfoldable pub group_blocks : List Block → List Block
  unfolding whole all_rows sortblocks merge_blocks
  group_blocks [] = []
  group_blocks (b ∷ []) = whole ndim b ∷ []
  group_blocks (b ∷ (c ∷ cs)) =
      merge_list false ndim (sortblocks sort.by_index ndim (all_rows (b ∷ (c ∷ cs))))

  unfoldable pub all_groups : List (List Block) → List Block
  unfolding group_blocks
  all_groups [] = []
  all_groups (g ∷ gs) = group_blocks g ++ all_groups gs

  unfoldable pub grouped : List Block → List (List Block)
  unfolding groups
  grouped [] = []
  grouped (b ∷ bs) = groups ndim b bs

  -- A hyperslab that is not known to be one block.
  unfoldable pub hyperslab_blocks : List Block → List Block
  unfolding whole grouped all_groups sortblocks merge_blocks
  hyperslab_blocks [] = []
  hyperslab_blocks (b ∷ []) = whole ndim b ∷ []
  hyperslab_blocks (b ∷ (c ∷ cs)) =
      let merged = merge_list true ndim (b ∷ (c ∷ cs)) in
      let sorted = sortblocks sort.by_index ndim merged in
      all_groups (grouped (merge_list true ndim sorted))

  unfoldable pub point_blocks : List (List ℕ) → List Block
  unfolding merge_blocks
  point_blocks ps = merge_list false ndim (
      map (λ (p : List ℕ). record { start = p; count = replicate ndim 1 })
        (sort.by_point (lessthan ndim) (map (memcpy ndim) ps)))

abbrev pub from_regular : StdSort → ℕ → Option Block → List Block → List Block
from_regular sort ndim (some b) bs = b ∷ []
from_regular sort ndim none bs = hyperslab_blocks sort ndim bs

abbrev pub regular_of : ℕ → Option Regular → Option Block
regular_of ndim none = none
regular_of ndim (some r) = regular_block ndim r

unfoldable pub space_blocks : StdSort → Dataspace → SelType → Result (List Block)
unfolding regular_block hyperslab_blocks point_blocks
space_blocks sort d (hyperslabs r bs) = ok (from_regular sort d.ndim (regular_of d.ndim r) bs)
space_blocks sort d (points ps) = ok (point_blocks sort d.ndim ps)
space_blocks sort d all_selected =
    if d.npoints == 0
    then ok []
    else ok (record { start = replicate d.ndim 0; count = memcpy d.ndim d.dims } ∷ [])
space_blocks sort d none_selected = ok []
space_blocks sort d unsupported = err unsupported_selection

-- The constructor `H5VL_log_selections (dsid)`.
unfoldable pub of_space : StdSort → Dataspace → Result Selections
unfolding space_blocks
of_space sort d = elim (space_blocks sort d d.sel) [
  | err e ↦ err e
  | ok bs ↦ ok (record { ndim = d.ndim; dims = some d.dims; blocks = bs })
]
