-- ===== src/Index/Intersect.antt =====
-- src/H5VL_logi_idx_list.cpp, src/H5VL_logi_idx_compact.cpp: lemmas on `intersect`.
use vol_log_based.Prelude.{ℕ, zero, suc, ◌+◌, ◌^◌, ◌≤◌, ◌<◌, List}
use vol_log_based.Prelude.{Option, none, some, hd, tl}
use mathlib.Core.Option

-- Coordinate `x` lies in the block of `n` dimensions from `s` with sizes `c`.
abbrev pub InBlock : ℕ → List ℕ → List ℕ → List ℕ → Type 0
InBlock zero x s c = Unit
InBlock (suc n) x s c = (hd s ≤ hd x) × (hd x < hd s + hd c) × InBlock n (tl x) (tl s) (tl c)

-- No end of the block passes the largest `hsize_t`.
abbrev pub Fits : ℕ → List ℕ → List ℕ → Type 0
Fits zero s c = Unit
Fits (suc n) s c = (hd s + hd c < 2 ^ 64) × Fits n (tl s) (tl c)

-- What the answer of `intersect` says of a coordinate.
abbrev pub InCommon : ℕ → List ℕ → Option (List ℕ × List ℕ) → Type 0
InCommon n x none = ⊥
InCommon n x (some p) = InBlock n x p.0 p.1
