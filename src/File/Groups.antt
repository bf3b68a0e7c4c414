-- ===== src/File/Groups.antt =====
-- src/H5VL_log_filei.cpp: `H5VL_log_filei_calc_node_rank`, by which the processes that share a
-- subfile or a storage target are numbered.
pub mod Chain
use vol_log_based.Prelude.{
  ℕ, zero, suc, ◌+◌, ◌-◌, ◌*◌, ◌/◌, ◌%◌, Bool, true, false, Option, none, some, ◌==◌, if◌then◌else◌,
}

-- The colour of a process in `MPI_Comm_split`, where the number of groups is given.
unfoldable pub colour : ℕ → ℕ → ℕ → ℕ
colour ngroup np rank = rank * ngroup / np

-- The loop that counts the roots of groups among the first `n` processes. `group_ranks` has the
-- rank of each process in its group.
unfoldable pub roots : (ℕ → ℕ) → ℕ → ℕ
roots group_ranks zero = 0
roots group_ranks (suc n) =
    let before = roots group_ranks n in if group_ranks n == 0 then suc before else before

-- The roots from process `i` on, `n` processes.
unfoldable pub roots_from : (ℕ → ℕ) → ℕ → ℕ → ℕ
roots_from group_ranks zero i = 0
roots_from group_ranks (suc n) i =
    let later = roots_from group_ranks n (suc i) in if group_ranks i == 0 then suc later else later

-- The loop down from process `i - 1`, where `j` roots are left to pass; `none` is -1.
unfoldable pub find_prev : (ℕ → ℕ) → ℕ → ℕ → Option ℕ
find_prev group_ranks zero j = none
find_prev group_ranks (suc i) j =
    let here = if j - 1 == 0 then some i else find_prev group_ranks i (j - 1) in
    let below = find_prev group_ranks i j in if group_ranks i == 0 then here else below

-- The loop up from process `i`, over `n` processes.
unfoldable pub find_next : (ℕ → ℕ) → ℕ → ℕ → ℕ → Option ℕ
find_next group_ranks zero i j = none
find_next group_ranks (suc n) i j =
    let here = if j - 1 == 0 then some i else find_next group_ranks n (suc i) (j - 1) in
    let above = find_next group_ranks n (suc i) j in if group_ranks i == 0 then here else above

-- The fields that the function sets. The last three are set for aligned data only.
pub record Place : Type 0 where
  pub group_id : ℕ
  pub ngroup : ℕ
  pub target_ost : ℕ
  pub prev_rank : Option ℕ
  pub next_rank : Option ℕ

-- `H5VL_log_filei_calc_node_rank` behind the split, with the answers of `MPI_Allgather` in
-- `group_ranks` and of the broadcast of the root's number in `root_id`.
unfoldable pub calc_node_rank : (ℕ → ℕ) → (ℕ → ℕ) → Bool → ℕ → ℕ → ℕ → Place → Place
calc_node_rank group_ranks root_id align scount np rank old =
    let counted = record old {
      group_id = root_id (roots group_ranks rank);
      ngroup = roots group_ranks rank + roots_from group_ranks (np - rank) rank;
    } in
    if align
    then record counted {
      target_ost = root_id (roots group_ranks rank) % scount;
      prev_rank = find_prev group_ranks rank scount;
      next_rank = find_next group_ranks (np - suc rank) (suc rank) scount;
    }
    else counted
