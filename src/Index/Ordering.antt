-- ===== src/Index/Ordering.antt =====
-- The orders of search results (src/H5VL_logi_idx.cpp) and `interleve` of
-- src/H5VL_log_dataseti.cpp, by which a read groups the blocks of one log entry.
pub mod Strict
pub mod Apart
use vol_log_based.Prelude.{
  ℕ, zero, suc, ◌+◌, ◌-◌, ◌%◌, ◌^◌, List, Bool, true, false, if◌then◌else◌, ltb, hd, tl, add64,
}
use vol_log_based.Index.{SearchRet}

-- The order of two values of type `int`, given by their patterns below 2 ^ 32.
abbrev pub biased : ℕ → ℕ
biased a = (a + 2 ^ 31) % 2 ^ 32

abbrev pub int_lt : ℕ → ℕ → Bool
int_lt a b = ltb (biased a) (biased b)

-- `a + b` for two values of type `int`.
abbrev pub int_add : ℕ → ℕ → ℕ
int_add a b = (a + b) % 2 ^ 32

-- The loop of `operator<` over the dimensions.
unfoldable pub start_before : ℕ → List ℕ → List ℕ → Bool
start_before zero a b = false
start_before (suc n) a b =
    if int_lt (hd a) (hd b)
    then true
    else if int_lt (hd b) (hd a)
    then false
    else start_before n (tl a) (tl b)

-- `operator<`, where `ndim` is the number of dimensions of the left result's dataset.
unfoldable pub precedes : ℕ → SearchRet → SearchRet → Bool
precedes ndim x y =
    if ltb (add64 x.foff x.doff) (add64 y.foff y.doff)
    then true
    else if ltb (add64 y.foff y.doff) (add64 x.foff x.doff)
    then false
    else start_before ndim x.dstart y.dstart

-- The loop of `operator>`, whose second test is the first again.
unfoldable pub end_behind : ℕ → List ℕ → List ℕ → List ℕ → List ℕ → Bool
end_behind zero sa ca sb cb = false
end_behind (suc n) sa ca sb cb =
    if int_lt (int_add (hd sb) (hd cb)) (int_add (hd sa) (hd ca))
    then true
    else if int_lt (int_add (hd sb) (hd cb)) (int_add (hd sa) (hd ca))
    then false
    else end_behind n (tl sa) (tl ca) (tl sb) (tl cb)

-- `operator>`, where `ndim` is the number of dimensions of the left result's dataset.
unfoldable pub exceeds : ℕ → SearchRet → SearchRet → Bool
exceeds ndim x y = end_behind ndim x.dstart x.count y.dstart y.count

-- The last coordinate `sa[i] + ca[i] - 1` of a block.
abbrev pub last_of : ℕ → ℕ → ℕ
last_of s c = int_add (int_add s c) (2 ^ 32 - 1)

-- `interleve`.
unfoldable pub interleve : ℕ → List ℕ → List ℕ → List ℕ → Bool
interleve zero sa ca sb = true
interleve (suc n) sa ca sb =
    if int_lt (last_of (hd sa) (hd ca)) (hd sb)
    then false
    else if int_lt (hd sb) (last_of (hd sa) (hd ca))
    then true
    else interleve n (tl sa) (tl ca) (tl sb)
