-- ===== src/Index/Equiv.antt =====
-- src/H5VL_logi_idx_list.cpp, src/H5VL_logi_idx_compact.cpp: the searches of the two index classes
-- compared.
use vol_log_based.Prelude.{ℕ, ◌≡◌}
use vol_log_based.Prelude.{[], map, Option}
use vol_log_based.Prelude.{length}
use vol_log_based.Prelude.{get_or}
use vol_log_based.Index.Array
use vol_log_based.Index.Compact
use vol_log_based.Index.Compact.{CompactEntry, own_entry, first_start, pack, int_ltb}
use mathlib.Core.Option

-- The compact index holds, for each dataset, the packed form of what the array index holds.
abbrev pub Represents : (ℕ → ℕ) → Array.ArrayIdx → Compact.CompactIdx → Type 0
Represents ndims a c =
    (length c ≡ length a)
    × ((did : ℕ) → get_or c did [] ≡ map (own_entry (ndims did)) (get_or a did []))
