-- ===== src/Tests/Spaces.antt =====
-- Three blocks out of order, a hyperslab of neighbouring blocks, one broken down into rows, and
-- the bytes of an entry in a log dataset.
use vol_log_based.Prelude.{
  ℕ, zero, suc, ◌*◌, ◌<◌, ◌≡◌, refl, ◌↔◌, arith, List, [], ◌∷◌, length, get_or,
}
use vol_log_based.Prelude.{Bool, false, none, some, ok}
use vol_log_based.Selections.{Block, lessthan}
use vol_log_based.Selections.Merge.{InCells}
use vol_log_based.Selections.Sort.{from_list, sortblocks}
use vol_log_based.Selections.Sorted.{Sorts, less_at, sorted_idx, sortblocks-Sorts}
use vol_log_based.Selections.Space.{
  Regular, Dataspace, StdSort, hyperslabs, of_space, regular_block,
}
use vol_log_based.Passthru.{sel_space}
use vol_log_based.Passthru.Rows.{sel_space-plane}
use vol_log_based.Selections.Shortcut.{InRegular, regular_block_iff}

abbrev row : ℕ → Block
row r = record { start = r ∷ 0 ∷ []; count = 1 ∷ 4 ∷ [] }

abbrev three : List Block
three = row 2 ∷ (row 0 ∷ (row 1 ∷ []))

abbrev order : List ℕ
order = 1 ∷ (2 ∷ (0 ∷ []))

-- What `std::sort` gives for them.
abbrev sort_three : (ℕ → ℕ → Bool) → List ℕ → List ℕ
sort_three less xs = order

three_inside : (p : ℕ) → p < 3 → get_or order p 0 < 3
three_inside zero h = omega arith
three_inside (suc zero) h = omega arith
three_inside (suc (suc zero)) h = omega arith
three_inside (suc (suc (suc p))) h = absurd (omega (arith, h))

three_injective : (p q : ℕ) → p < 3 → q < 3 → get_or order p 0 ≡ get_or order q 0 → p ≡ q
three_injective zero zero h k e = refl
three_injective zero (suc zero) h k e = omega (arith, e)
three_injective zero (suc (suc zero)) h k e = omega (arith, e)
three_injective (suc zero) zero h k e = omega (arith, e)
three_injective (suc zero) (suc zero) h k e = refl
three_injective (suc zero) (suc (suc zero)) h k e = omega (arith, e)
three_injective (suc (suc zero)) zero h k e = omega (arith, e)
three_injective (suc (suc zero)) (suc zero) h k e = omega (arith, e)
three_injective (suc (suc zero)) (suc (suc zero)) h k e = refl
three_injective (suc (suc (suc p))) q h k e = absurd (omega (arith, h))
three_injective p (suc (suc (suc q))) h k e = absurd (omega (arith, k))

three_ordered :
    (p q : ℕ)
    → p < q
    → q < 3
    → less_at 2 three (sorted_idx sort_three 2 three q) (sorted_idx sort_three 2 three p) ≡ false
unfolding lessthan
three_ordered zero (suc zero) h k = refl
three_ordered zero (suc (suc zero)) h k = refl
three_ordered (suc zero) (suc (suc zero)) h k = refl
three_ordered p zero h k = absurd (omega (arith, h))
three_ordered (suc p) (suc zero) h k = absurd (omega (arith, h))
three_ordered (suc (suc p)) (suc (suc zero)) h k = absurd (omega (arith, h))
three_ordered p (suc (suc (suc q))) h k = absurd (omega (arith, k))

three-Sorts : Sorts 3 (less_at 2 three) (sorted_idx sort_three 2 three)
three-Sorts = record { inside = three_inside; injective = three_injective; ordered = three_ordered }

sortblocks-Sorts_example :
    (length (sortblocks sort_three 2 three) ≡ 3)
    × ((p : ℕ)
        → p < 3
        → from_list (sortblocks sort_three 2 three) p
          ≡ from_list three (sorted_idx sort_three 2 three p))
    × ((p q : ℕ) → p < q → q < 3 → less_at 2 (sortblocks sort_three 2 three) q p ≡ false)
sortblocks-Sorts_example = sortblocks-Sorts sort_three 2 three three-Sorts

sorted_three : sortblocks sort_three 2 three ≡ row 0 ∷ (row 1 ∷ (row 2 ∷ []))
unfolding sortblocks
sorted_three = refl

abbrev neighbours : Regular
neighbours = record {
  start = 1 ∷ 2 ∷ [];
  stride = 1 ∷ 1 ∷ [];
  count = 2 ∷ 3 ∷ [];
  block = 1 ∷ 1 ∷ [];
}

regular_block_iff_example :
    InCells false 2 (2 ∷ 4 ∷ []) (1 ∷ 2 ∷ []) (2 ∷ 3 ∷ [])
    ↔ InRegular 2 (2 ∷ 4 ∷ []) (1 ∷ 2 ∷ []) (1 ∷ 1 ∷ []) (2 ∷ 3 ∷ []) (1 ∷ 1 ∷ [])
unfolding regular_block
regular_block_iff_example =
    regular_block_iff 2 neighbours (record { start = 1 ∷ 2 ∷ []; count = 2 ∷ 3 ∷ [] }) (2 ∷ 4 ∷ [])
      refl

-- `std::sort` that leaves its argument as it is, for arguments in order.
abbrev in_order : StdSort
in_order = record { by_index = λ less xs. xs; by_point = λ less xs. xs }

-- Two interleaving blocks of two rows each: four rows that touch become two blocks.
abbrev columns : Dataspace
columns = record {
  ndim = 2;
  dims = 4 ∷ 8 ∷ [];
  sel = hyperslabs none (
      record { start = 0 ∷ 0 ∷ []; count = 1 ∷ 1 ∷ [] }
      ∷ (record { start = 0 ∷ 4 ∷ []; count = 1 ∷ 5 ∷ [] } ∷ []));
  npoints = 8;
}

columns_rows :
    (n : ℕ) × (bs : List Block) × (of_space in_order columns
      ≡ ok (record { ndim = 2; dims = some (4 ∷ 8 ∷ []); blocks = bs }))
    × (length bs ≡ n)
unfolding of_space lessthan
columns_rows = (_, _, refl, refl)

sel_space-plane_example :
    ((sel_space 0 8 (0 ∷ (0 ∷ (0 ∷ []))) (2 ∷ (3 ∷ (4 ∷ []))) (1 ∷ (2 ∷ (4 ∷ []))) 3).stride
      ≡ some (3 * 4 * 8))
    × (4 * 8 < 3 * 4 * 8)
sel_space-plane_example =
    sel_space-plane 0 8 2 3 4 2 4 (0 ∷ (0 ∷ (0 ∷ []))) (omega arith) (omega arith) (omega arith)
      (omega arith) (omega arith) (omega arith) (omega arith)
