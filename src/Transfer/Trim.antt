-- ===== src/Transfer/Trim.antt =====
-- src/H5VL_log_dataseti.cpp: the adjustment of overlapping pieces in
-- `H5VL_log_dataset_readi_gen_rtypes`.
use vol_log_based.Prelude.{ℕ, zero, suc, List, [], ◌∷◌, ◌++◌, ltb, if◌then◌else◌, min, add64, sub64}
use vol_log_based.Transfer.{ReadPiece}

-- `H5VL_log_copy_ctx`.
pub record Copy : Type 0 where
  pub src : ℕ
  pub dst : ℕ
  pub size : ℕ

-- `ctx.size`: the overlap of piece `k` with the later piece `l`, or all of `l`.
unfoldable pub overlap : ReadPiece → ReadPiece → ℕ
overlap k l = min l.len (add64 (sub64 k.foff l.foff) k.len)

-- The memory copy from piece `k` to the piece `l` that overlaps it.
unfoldable pub copy_ctx : ReadPiece → ReadPiece → Copy
unfolding overlap
copy_ctx k l = record {
  src = add64 (sub64 k.moff (overlap k l)) k.len;
  dst = l.moff;
  size = overlap k l;
}

-- `foffs[l] += ctx.size; moffs[l] += ctx.size; lens[l] -= ctx.size;`
unfoldable pub trim_later : ReadPiece → ReadPiece → ReadPiece
unfolding overlap
trim_later k l = record {
  foff = add64 l.foff (overlap k l);
  moff = add64 l.moff (overlap k l);
  len = sub64 l.len (overlap k l);
}

-- The inner loop over `l`, for the piece `k`.
unfoldable pub adjust_for : ReadPiece → List ReadPiece → List ReadPiece × List Copy
unfolding trim_later copy_ctx
adjust_for k [] = ([], [])
adjust_for k (l ∷ ls) =
    let later = adjust_for k ls in
    if ltb l.foff (add64 k.foff k.len)
    then (trim_later k l ∷ later.0, copy_ctx k l ∷ later.1)
    else (l ∷ later.0, later.1)

-- The outer loop over `k`, of which `n` turns are left.
unfoldable pub adjust : ℕ → List ReadPiece → List ReadPiece × List Copy
unfolding adjust_for
adjust zero ks = (ks, [])
adjust (suc n) [] = ([], [])
adjust (suc n) (k ∷ ls) =
    let later = adjust_for k ls in let rest = adjust n later.0 in (k ∷ rest.0, later.1 ++ rest.1)
