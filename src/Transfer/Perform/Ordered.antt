-- ===== src/Transfer/Perform/Ordered.antt =====
-- src/H5VL_logi_nb.cpp: the order in which `H5VL_log_nb_perform_read` unfilters and packs.
use vol_log_based.Prelude.{ℕ, ◌≡◌, refl, List, [], ◌∷◌, ◌++◌, some, All}
use vol_log_based.Prelude.{ok}
use vol_log_based.Transfer.Rows.{ReadBlock}
use vol_log_based.Transfer.Types.{Part, gen_rtypes}
use vol_log_based.Transfer.Perform.{UnfilterCalls, Delivery, read_at, post_process_all, read_blocks}
use vol_log_based.Transfer.Perform.Events.{unfiltered_all, CanUnfilter, unfilter_blocks_ok}

-- A read whose types are made without overlaps.
pub read_blocks_made :
    (filters : ℕ → List ℕ) (malloc : ℕ → ℕ → ℕ) (u : UnfilterCalls) (type_size : ℕ → ℕ)
    (sort : List ReadBlock → List ReadBlock) (reqs : List Delivery) (blocks sorted : List ReadBlock)
    (room : ℕ) (parts : List Part)
    → sort blocks ≡ sorted
    → gen_rtypes sort blocks ≡ some (room, ok (parts, []))
    → All (CanUnfilter filters u) sorted
    → read_blocks filters malloc u type_size sort reqs blocks
      ≡ ok (read_at parts ∷ (unfiltered_all sorted ++ post_process_all type_size reqs))
unfolding read_blocks
read_blocks_made filters malloc u type_size sort reqs blocks sorted room parts e made can =
    let undone = unfilter_blocks_ok filters malloc u sorted can in
    rw (made, read_blocks) (rw e (rw undone refl))
