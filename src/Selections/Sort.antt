-- ===== src/Selections/Sort.antt =====
-- src/H5VL_logi_dataspace.cpp: `sortblocks`. The arrays of starts and counts, which are moved
-- together, are one array of blocks.
use vol_log_based.Prelude.{ℕ, zero, suc, Bool, ◌==◌, if◌then◌else◌, List, [], ◌∷◌, length, get_or}
use vol_log_based.Selections.{Block, lessthan}

-- An assignment to an element of an array.
abbrev pub update {u} : {A : Type u} → (ℕ → A) → ℕ → A → ℕ → A
update f k v i = if i == k then v else f i

pub record Arrays : Type 0 where
  pub blocks : ℕ → Block
  pub idx : ℕ → ℕ

-- Element `j` is taken from `k`, and stands in its place.
unfoldable pub move : ℕ → Block → Arrays → Arrays
move j b s = record { blocks = update s.blocks j b; idx = update s.idx j j }

-- The cyclic swap that began at `i`, whose block was pulled out. The first argument is fuel.
unfoldable pub swap_cycle : ℕ → ℕ → Block → ℕ → Arrays → Arrays
unfolding move
swap_cycle zero i pulled j s = s
swap_cycle (suc fuel) i pulled j s =
    let rest = swap_cycle fuel i pulled (s.idx j) (move j (s.blocks (s.idx j)) s) in
    if s.idx j == i then move j pulled s else rest

-- The loop over the elements, of which `n` are left.
unfoldable pub reorder : ℕ → ℕ → ℕ → Arrays → Arrays
unfolding swap_cycle
reorder len zero i s = s
reorder len (suc n) i s =
    reorder len n (suc i) (if s.idx i == i then s else swap_cycle len i (s.blocks i) i s)

abbrev pub from_list : List Block → ℕ → Block
from_list bs i = get_or bs i (record { start = []; count = [] })

abbrev pub to_list {u} : {A : Type u} → ℕ → (ℕ → A) → List A
to_list zero f = []
to_list (suc n) f = f 0 ∷ to_list n (λ i. f (suc i))

-- `sortblocks`. `sort` is `std::sort` of the array of indexes, by a comparison.
unfoldable pub sortblocks : ((ℕ → ℕ → Bool) → List ℕ → List ℕ) → ℕ → List Block → List Block
unfolding reorder
sortblocks sort ndim bs =
    let len = length bs in
    let starts = λ (i : ℕ). (from_list bs i).start in
    let idx = sort (λ (l r : ℕ). lessthan ndim (starts l) (starts r)) (to_list len (λ i. i)) in
    to_list len
      (reorder len len 0 (record { blocks = from_list bs; idx = λ i. get_or idx i 0 })).blocks
