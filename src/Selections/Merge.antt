-- ===== src/Selections/Merge.antt =====
-- src/H5VL_logi_dataspace.cpp: `merge_blocks`. With `use_end` a block's second array holds its
-- last coordinates, otherwise its sizes.
use vol_log_based.Prelude.{ℕ, zero, suc, ◌+◌, ◌^◌, ◌≤◌, ◌<◌, ◌≡◌, ◌↔◌, ◌⊎◌}
use vol_log_based.Prelude.{List, [], ◌∷◌, Bool, true, false, ◌&&◌, ◌==◌, hd, tl, add64}
use vol_log_based.Prelude.{arith}
use vol_log_based.Selections.{Block}

-- Where the block after this one starts, in one dimension.
abbrev pub end_of : Bool → ℕ → ℕ → ℕ
end_of true s e = add64 e 1
end_of false s c = add64 s c

-- Both blocks have the same position and size in `n` dimensions.
unfoldable pub aligned : ℕ → List ℕ → List ℕ → List ℕ → List ℕ → Bool
aligned zero sj cj si ci = true
aligned (suc n) sj cj si ci =
    ((hd si == hd sj) && (hd ci == hd cj)) && aligned n (tl sj) (tl cj) (tl si) (tl ci)

-- The test over all dimensions, for merging along dimension `d`.
unfoldable pub mergeable : Bool → ℕ → ℕ → List ℕ → List ℕ → List ℕ → List ℕ → Bool
unfolding aligned
mergeable use_end zero d sj cj si ci = true
mergeable use_end (suc n) zero sj cj si ci =
    (end_of use_end (hd sj) (hd cj) == hd si) && aligned n (tl sj) (tl cj) (tl si) (tl ci)
mergeable use_end (suc n) (suc d) sj cj si ci =
    ((hd si == hd sj) && (hd ci == hd cj)) && mergeable use_end n d (tl sj) (tl cj) (tl si) (tl ci)

abbrev pub join_one : Bool → ℕ → ℕ → ℕ
join_one true ej ei = ei
join_one false cj ci = add64 cj ci

-- The second array of the merged block, of `n` elements.
unfoldable pub join : Bool → ℕ → ℕ → List ℕ → List ℕ → List ℕ
join use_end zero d cj ci = []
join use_end (suc n) zero cj ci = join_one use_end (hd cj) (hd ci) ∷ tl cj
join use_end (suc n) (suc d) cj ci = hd cj ∷ join use_end n d (tl cj) (tl ci)

-- The pass along dimension `d`: `j` is the last block that is kept so far.
unfoldable pub merge_pass : Bool → ℕ → ℕ → Block → List Block → Block × List Block
unfolding mergeable join
merge_pass use_end n d j [] = (j, [])
merge_pass use_end n d j (i ∷ is) = elim (mergeable use_end n d j.start j.count i.start i.count) [
  | true ↦ merge_pass use_end n d (record j { count = join use_end n d j.count i.count }) is
  | false ↦ let (k, ks) = merge_pass use_end n d i is in (j, k ∷ ks)
]

-- `merge_blocks` of at least one block, as the code calls it: a pass along each dimension from
-- the last of the first `d` down to the first.
unfoldable pub merge_dims : Bool → ℕ → ℕ → Block → List Block → Block × List Block
unfolding merge_pass
merge_dims use_end n zero j is = (j, is)
merge_dims use_end n (suc d) j is =
    let (k, ks) = merge_pass use_end n d j is in merge_dims use_end n d k ks

unfoldable pub merge_blocks : Bool → ℕ → Block → List Block → Block × List Block
unfolding merge_dims
merge_blocks use_end n j is = merge_dims use_end n n j is

-- A coordinate lies in a block, in one dimension and in all.
abbrev pub InSpan : Bool → ℕ → ℕ → ℕ → Type 0
InSpan true x s e = (s ≤ x) × (x ≤ e)
InSpan false x s c = (s ≤ x) × (x < s + c)

abbrev pub InCells : Bool → ℕ → List ℕ → List ℕ → List ℕ → Type 0
InCells use_end zero x s c = Unit
InCells use_end (suc n) x s c =
    InSpan use_end (hd x) (hd s) (hd c) × InCells use_end n (tl x) (tl s) (tl c)

-- A block is not empty if its last coordinates are given, and its end is an `hsize_t`.
abbrev pub IsSpan : Bool → ℕ → ℕ → Type 0
IsSpan true s e = (s ≤ e) × (e + 1 < 2 ^ 64)
IsSpan false s c = s + c < 2 ^ 64

abbrev pub AreCells : Bool → ℕ → List ℕ → List ℕ → Type 0
AreCells use_end zero s c = Unit
AreCells use_end (suc n) s c = IsSpan use_end (hd s) (hd c) × AreCells use_end n (tl s) (tl c)

-- A coordinate lies in one of several blocks.
abbrev pub InAny : Bool → ℕ → List ℕ → List Block → Type 0
InAny use_end n x [] = ⊥
InAny use_end n x (b ∷ bs) = InCells use_end n x b.start b.count ⊎ InAny use_end n x bs

pub same_span :
    (u : Bool) (x sj cj si ci : ℕ) → (si ≡ sj) × (ci ≡ cj) → InSpan u x sj cj ↔ InSpan u x si ci
same_span true x sj cj si ci h = (λ k. (omega arith, omega arith), λ k. (omega arith, omega arith))
same_span false x sj cj si ci h = (λ k. (omega arith, omega arith), λ k. (omega arith, omega arith))

pub join-IsSpan :
    (u : Bool) (x sj cj si ci : ℕ)
    → IsSpan u sj cj
    → IsSpan u si ci
    → end_of u sj cj ≡ si
    → (InSpan u x sj (join_one u cj ci) ↔ (InSpan u x sj cj ⊎ InSpan u x si ci))
      × IsSpan u sj (join_one u cj ci)
join-IsSpan true x sj cj si ci hj hi h =
    ((λ k. ground arith, λ k. ground arith), (omega arith, omega arith))
join-IsSpan false x sj cj si ci hj hi h = ((λ k. ground arith, λ k. ground arith), omega arith)
