-- ===== src/Passthru.antt =====
-- src/H5VL_log_dataseti.cpp: `sel_space` and `foff2logidx`, by which a read through the underlying
-- VOL finds the bytes of an entry in a log dataset.
pub mod Rows
use vol_log_based.Prelude.{
  ℕ, zero, suc, ◌-◌, ◌/◌, List, Option, none, some, ltb, leb, if◌then◌else◌,
}
use vol_log_based.Prelude.{hd, get_or, add64, mul64, extent}

-- What `H5Sselect_hyperslab` is called with; a null pointer for the stride is `none`.
pub record Hyperslab : Type 0 where
  pub start : ℕ
  pub stride : Option ℕ
  pub count : ℕ
  pub block : ℕ

-- The sum of the loop from the last dimension on, `n` dimensions in front, with the product of the
-- sizes so far.
unfoldable pub first_element : ℕ → List ℕ → List ℕ → ℕ → ℕ → ℕ
first_element zero starts sizes off start = start
first_element (suc i) starts sizes off start =
    first_element i starts sizes (mul64 off (get_or sizes i 0))
      (add64 start (mul64 (get_or starts i 0) off))

-- `sel_space`.
unfoldable pub sel_space : ℕ → ℕ → List ℕ → List ℕ → List ℕ → ℕ → Hyperslab
unfolding first_element
sel_space start0 esize starts sizes counts zero = record {
  start = start0;
  stride = none;
  count = 1;
  block = mul64 (hd counts) esize;
}
sel_space start0 esize starts sizes counts (suc n) =
    let first = first_element (suc n) starts sizes 1 0 in
    let row = get_or counts n 0 in
    let count = extent (suc n) 1 counts / row in
    let stride = mul64 (extent (suc n) 1 sizes / hd sizes) esize in
    record {
      start = add64 start0 (mul64 first esize);
      stride = if ltb 1 count then some stride else none;
      count = count;
      block = mul64 row esize;
    }

-- `foff2logidx`: the last of the first `n` log datasets that begins at the offset or in front of
-- it; `none` is -1.
unfoldable pub foff2logidx : ℕ → List ℕ → ℕ → Option ℕ
foff2logidx foff doffs zero = none
foff2logidx foff doffs (suc i) =
    let rest = foff2logidx foff doffs i in if leb (get_or doffs i 0) foff then some i else rest
