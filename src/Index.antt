-- ===== src/Index.antt =====
-- src/H5VL_logi_idx.hpp: what a search of the metadata index takes and returns, and the test of
-- two blocks for an intersection, which both index classes share.
pub mod Array
pub mod Compact
pub mod Intersect
pub mod Hits
pub mod Equiv
pub mod Represents
pub mod Parse
pub mod Ordering
use vol_log_based.Prelude.{
  ℕ, zero, suc, ◌+◌, ◌-◌, List, [], ◌∷◌, ◌++◌, Option, none, some, min, max,
}
use vol_log_based.Prelude.{leb, if◌then◌else◌, hd, tl, add64, sub64, to_int}
use vol_log_based.Selections.{Selections}
use mathlib.Core.Option

-- The fields of `H5VL_log_rreq_t` that a search reads. A pointer is its address, and the dataset
-- information that `info` points to is named by the dataset's ID.
pub record ReadReq : Type 0 where
  pub did : ℕ
  pub info : ℕ
  pub ndim : ℕ
  pub sels : Selections
  pub esize : ℕ
  pub xbuf : ℕ

-- `H5VL_log_idx_search_ret_t`, with one element per dimension in each array. `zbuf` is null.
pub record SearchRet : Type 0 where
  pub info : ℕ
  pub dsize : List ℕ
  pub dstart : List ℕ
  pub msize : List ℕ
  pub mstart : List ℕ
  pub count : List ℕ
  pub xsize : ℕ
  pub doff : ℕ
  pub xbuf : ℕ
  pub foff : ℕ
  pub fsize : ℕ

-- `intersect`: the start and the size of the common block; `none` is the answer false.
unfoldable pub intersect : ℕ → List ℕ → List ℕ → List ℕ → List ℕ → Option (List ℕ × List ℕ)
intersect zero sa ca sb cb = some ([], [])
intersect (suc n) sa ca sb cb =
    let so = max (hd sa) (hd sb) in
    let eo = min (add64 (hd sa) (hd ca)) (add64 (hd sb) (hd cb)) in
    let next = intersect n (tl sa) (tl ca) (tl sb) (tl cb) in
    if leb eo so
    then none
    else Option.map (λ (p : List ℕ × List ℕ). (so ∷ p.0, (eo - so) ∷ p.1)) next

-- `dst[j] = a[j] - b[j]` for `n` elements, where `dst` is an array of `int`.
abbrev pub int_diffs : ℕ → List ℕ → List ℕ → List ℕ
int_diffs zero a b = []
int_diffs (suc n) a b = to_int (sub64 (hd a) (hd b)) ∷ int_diffs n (tl a) (tl b)

-- `dst[j] = a[j]` for `n` elements, where `dst` is an array of `int`.
abbrev pub ints : ℕ → List ℕ → List ℕ
ints zero a = []
ints (suc n) a = to_int (hd a) ∷ ints n (tl a)

-- `ret.push_back` of a hit, in front of the later ones.
abbrev pub push_hit {ℓ} : {A : Type ℓ} → Option A → List A → List A
push_hit none later = later
push_hit (some x) later = x ∷ later
