-- ===== src/Transfer/Rows.antt =====
-- src/H5VL_log_dataseti.cpp: the breakdown of an interleaving block into rows in
-- `H5VL_log_dataset_readi_gen_rtypes`.
use vol_log_based.Prelude.{
  ℕ, zero, suc, ◌-◌, Bool, true, false, List, [], ◌∷◌, Option, none, some, ltb, leb, if◌then◌else◌,
  ◌*◌, hd, tl, get_or, replicate, add64, mul64, to_int,
}
use vol_log_based.Dataset.{DsetInfo}
use vol_log_based.Index.{SearchRet}
use vol_log_based.Transfer.{ReadPiece}
use mathlib.Core.Option

-- An element of `blocks`: a search result with the dataset that its `info` points to, and the
-- buffer for its filtered data if it has one.
pub record ReadBlock : Type 0 where
  pub hit : SearchRet
  pub info : DsetInfo
  pub zbuf : Option ℕ

-- `fssize` and `mssize`: the bytes below each dimension, from the last dimension on.
unfoldable pub sizes_below : ℕ → ℕ → List ℕ → List ℕ
sizes_below zero esize sizes = []
sizes_below (suc zero) esize sizes = esize ∷ []
sizes_below (suc (suc n)) esize sizes =
    let later = sizes_below (suc n) esize (tl sizes) in mul64 (hd later) (hd (tl sizes)) ∷ later

-- `foffs[nt] += fssize[k] * (dstart[k] + ctr[k])` over the dimensions.
unfoldable pub row_offset : ℕ → ℕ → List ℕ → List ℕ → List ℕ → ℕ
row_offset zero off below start ctr = off
row_offset (suc n) off below start ctr =
    row_offset n (add64 off (mul64 (hd below) (add64 (hd start) (hd ctr)))) (tl below) (tl start)
      (tl ctr)

-- The row at position `ctr` of a block of `ndim` dimensions.
unfoldable pub row_piece : ℕ → ReadBlock → List ℕ → ReadPiece
unfolding sizes_below row_offset
row_piece ndim b ctr = record {
  foff =
      row_offset ndim (add64 b.hit.foff b.hit.doff) (sizes_below ndim b.info.esize b.hit.dsize)
        b.hit.dstart ctr;
  moff = row_offset ndim b.hit.xbuf (sizes_below ndim b.info.esize b.hit.msize) b.hit.mstart ctr;
  len = to_int (mul64 (get_or b.hit.count (ndim - 1) 0) b.info.esize);
}

-- `ctr[k]++` behind the last of `n` positions, with the carry of each into the one in front; the
-- second component is the carry out of the first.
unfoldable pub carry : ℕ → List ℕ → List ℕ → List ℕ × Bool
carry zero count ctr = ([], true)
carry (suc n) count ctr =
    let later = carry n (tl count) (tl ctr) in
    let c = if later.1 then suc (hd ctr) else hd ctr in
    if leb (hd count) c then (0 ∷ later.0, true) else (c ∷ later.0, false)

-- The next position of a block with `suc n` positions, of which the first has no carry.
unfoldable pub next_position : ℕ → List ℕ → List ℕ → List ℕ
unfolding carry
next_position n count ctr =
    let later = carry n (tl count) (tl ctr) in (if later.1 then suc (hd ctr) else hd ctr) ∷ later.0

-- `while (ctr[0] < count[0])`, for a block of `ndim` dimensions; `none` is the end of the fuel.
unfoldable pub each_row : ℕ → ℕ → ReadBlock → List ℕ → Option (List ReadPiece)
unfolding row_piece next_position
each_row zero ndim b ctr = none
each_row (suc fuel) ndim b ctr =
    let rest = each_row fuel ndim b (next_position (ndim - 2) b.hit.count ctr) in
    let more = if ltb ndim 2 then some [] else rest in
    if ltb (hd ctr) (hd b.hit.count)
    then Option.map (λ ps. row_piece ndim b ctr ∷ ps) more
    else some []

-- `nrow`: the product of the counts but the last, as an `int`.
unfoldable pub row_count : ℕ → ℕ → List ℕ → ℕ
row_count zero nrow count = nrow
row_count (suc n) nrow count = row_count n (to_int (nrow * hd count)) (tl count)

-- The product of the counts of `n` positions.
unfoldable pub positions : ℕ → List ℕ → ℕ
positions zero count = 1
positions (suc n) count = hd count * positions n (tl count)

-- All rows of a block: the positions start at zero, and the last dimension has none.
unfoldable pub break_down : ℕ → ReadBlock → Option (List ReadPiece)
break_down ndim b =
    each_row (suc (positions (ndim - 1) b.hit.count)) ndim b (replicate (ndim - 1) 0)
