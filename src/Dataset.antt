-- ===== src/Dataset.antt =====
-- src/H5VL_log_dataset.hpp and the part of src/H5VL_log_dataseti.cpp that fills the information
-- of an opened dataset: the steps by which coordinates are encoded as offsets.
use vol_log_based.Prelude.{ℕ, zero, suc, List, [], ◌∷◌, hd, tl, mul64}

-- The fields of `H5VL_log_dset_info_t` that the modelled code reads.
pub record DsetInfo : Type 0 where
  pub ndim : ℕ
  pub esize : ℕ
  pub dims : List ℕ
  pub mdims : List ℕ
  pub dsteps : List ℕ

-- `dsteps[ndim - 1] = 1`, and below it `dsteps[i] = dsteps[i + 1] * dims[i + 1]`. The loop runs
-- from the last dimension, so the rest of the array is made first.
unfoldable pub make_dsteps : ℕ → List ℕ → List ℕ
make_dsteps zero dims = []
make_dsteps (suc zero) dims = 1 ∷ []
make_dsteps (suc (suc n)) dims =
    let later = make_dsteps (suc n) (tl dims) in mul64 (hd later) (hd (tl dims)) ∷ later
