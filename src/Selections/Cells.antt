-- ===== src/Selections/Cells.antt =====
-- src/H5VL_logi_dataspace.cpp: lemmas on the elements of blocks before and after `merge_blocks`.
use vol_log_based.Prelude.{ℕ, zero, suc, ◌≡◌, ◌↔◌, ◌⊎◌, inl, inr}
use vol_log_based.Prelude.{List, [], ◌∷◌, Bool, true, ◌&&◌, ◌==◌, hd, tl}
use vol_log_based.Prelude.{Bool-cases, &&_iff, ==_iff}
use vol_log_based.Selections.{Block}
use vol_log_based.Selections.Merge.{aligned, mergeable, join, merge_pass, merge_dims, merge_blocks}
use vol_log_based.Selections.Merge.{end_of, InCells, AreCells, InAny, same_span, join-IsSpan}

two_equal :
    (a b c d : ℕ) (r : Bool) → ((a == b) && (c == d)) && r ≡ true → ((a ≡ b) × (c ≡ d)) × (r ≡ true)
two_equal a b c d r h =
    let (both, rest) = (&&_iff _ r).0 h in
    let (p, q) = (&&_iff (a == b) (c == d)).0 both in (((==_iff a b).0 p, (==_iff c d).0 q), rest)

aligned_cells :
    (u : Bool) (n : ℕ) (x sj cj si ci : List ℕ)
    → aligned n sj cj si ci ≡ true
    → InCells u n x sj cj ↔ InCells u n x si ci
unfolding aligned
aligned_cells u zero x sj cj si ci h = (λ k. k, λ k. k)
aligned_cells u (suc n) x sj cj si ci h =
    let (front, rest) = two_equal (hd si) (hd sj) (hd ci) (hd cj) _ h in
    let here = same_span u (hd x) (hd sj) (hd cj) (hd si) (hd ci) front in
    let there = aligned_cells u n (tl x) (tl sj) (tl cj) (tl si) (tl ci) rest in
    (λ k. (here.0 k.0, there.0 k.1), λ k. (here.1 k.0, there.1 k.1))

-- A merged block holds the elements of both blocks.
join_cells :
    (u : Bool) (n d : ℕ) (x sj cj si ci : List ℕ)
    → AreCells u n sj cj
    → AreCells u n si ci
    → mergeable u n d sj cj si ci ≡ true
    → (InCells u n x sj (join u n d cj ci) ↔ (InCells u n x sj cj ⊎ InCells u n x si ci))
      × AreCells u n sj (join u n d cj ci)
unfolding mergeable join
join_cells u zero d x sj cj si ci hj hi h = ((λ k. inl tt, λ k. tt), tt)
join_cells u (suc n) zero x sj cj si ci hj hi h =
    let (front, rest) = (&&_iff _ _).0 h in
    let meet = (==_iff (end_of u (hd sj) (hd cj)) (hd si)).0 front in
    let (here, fits) = join-IsSpan u (hd x) (hd sj) (hd cj) (hd si) (hd ci) hj.0 hi.0 meet in
    let there = aligned_cells u n (tl x) (tl sj) (tl cj) (tl si) (tl ci) rest in
    (
      (
        λ k. elim (here.0 k.0) [ inl a ↦ inl (a, k.1) | inr b ↦ inr (b, there.0 k.1) ],
        λ k. elim k [ inl a ↦ (here.1 (inl a.0), a.1) | inr b ↦ (here.1 (inr b.0), there.1 b.1) ],
      ),
      (fits, hj.1),
    )
join_cells u (suc n) (suc d) x sj cj si ci hj hi h =
    let (front, rest) = two_equal (hd si) (hd sj) (hd ci) (hd cj) _ h in
    let here = same_span u (hd x) (hd sj) (hd cj) (hd si) (hd ci) front in
    let (there, fits) = join_cells u n d (tl x) (tl sj) (tl cj) (tl si) (tl ci) hj.1 hi.1 rest in
    (
      (
        λ k. elim (there.0 k.1) [ inl a ↦ inl (k.0, a) | inr b ↦ inr (here.0 k.0, b) ],
        λ k. elim k [ inl a ↦ (a.0, there.1 (inl a.1)) | inr b ↦ (here.1 b.0, there.1 (inr b.1)) ],
      ),
      (hj.0, fits),
    )

-- Every block is well formed.
abbrev pub AllCells : Bool → ℕ → List Block → Type 0
AllCells u n [] = Unit
AllCells u n (b ∷ bs) = AreCells u n b.start b.count × AllCells u n bs

-- Both lists hold the same elements, and the second is well formed.
abbrev SameCells : Bool → ℕ → List ℕ → List Block → List Block → Type 0
SameCells u n x bs cs = (InAny u n x cs ↔ InAny u n x bs) × AllCells u n cs

same_trans :
    (u : Bool) (n : ℕ) (x : List ℕ) (as' bs cs : List Block)
    → SameCells u n x as' bs
    → SameCells u n x bs cs
    → SameCells u n x as' cs
same_trans u n x as' bs cs h k = ((λ m. h.0.0 (k.0.0 m), λ m. k.0.1 (h.0.1 m)), k.1)

same_cons :
    (u : Bool) (n : ℕ) (x : List ℕ) (j : Block) (bs cs : List Block)
    → AreCells u n j.start j.count
    → SameCells u n x bs cs
    → SameCells u n x (j ∷ bs) (j ∷ cs)
same_cons u n x j bs cs hj h = (
  (
    λ m. elim m [ inl a ↦ inl a | inr b ↦ inr (h.0.0 b) ],
    λ m. elim m [ inl a ↦ inl a | inr b ↦ inr (h.0.1 b) ],
  ),
  (hj, h.1),
)

same_join :
    (u : Bool) (n d : ℕ) (x : List ℕ) (j i : Block) (is : List Block)
    → AllCells u n (j ∷ (i ∷ is))
    → mergeable u n d j.start j.count i.start i.count ≡ true
    → SameCells u n x (j ∷ (i ∷ is)) (record j { count = join u n d j.count i.count } ∷ is)
same_join u n d x j i is (hj, (hi, his)) h =
    let (here, fits) = join_cells u n d x j.start j.count i.start i.count hj hi h in
    (
      (
        λ m. elim m [
          | inl a ↦ elim (here.0 a) [ inl b ↦ inl b | inr c ↦ inr (inl c) ]
          | inr b ↦ inr (inr b)
        ],
        λ m. elim m [
          | inl a ↦ inl (here.1 (inl a))
          | inr b ↦ elim b [ inl c ↦ inl (here.1 (inr c)) | inr c ↦ inr c ]
        ],
      ),
      (fits, his),
    )

pass_same :
    (u : Bool) (n d : ℕ) (x : List ℕ) (j : Block) (is : List Block)
    → AllCells u n (j ∷ is)
    → SameCells u n x (j ∷ is) ((merge_pass u n d j is).0 ∷ (merge_pass u n d j is).1)
unfolding merge_pass
pass_same u n d x j [] h = ((λ m. m, λ m. m), h)
pass_same u n d x j (i ∷ is) h =
    let k = record j { count = join u n d j.count i.count } in
    elim (Bool-cases (mergeable u n d j.start j.count i.start i.count)) [
      | inl e ↦
          let step = same_join u n d x j i is h e in
          rw (e, merge_pass)
            (same_trans u n x (j ∷ (i ∷ is)) (k ∷ is)
              ((merge_pass u n d k is).0 ∷ (merge_pass u n d k is).1) step
              (pass_same u n d x k is step.1))
      | inr e ↦
          rw (e, merge_pass)
            (same_cons u n x j (i ∷ is) ((merge_pass u n d i is).0 ∷ (merge_pass u n d i is).1) h.0
              (pass_same u n d x i is h.1))
    ]

dims_same :
    (u : Bool) (n d : ℕ) (x : List ℕ) (j : Block) (is : List Block)
    → AllCells u n (j ∷ is)
    → SameCells u n x (j ∷ is) ((merge_dims u n d j is).0 ∷ (merge_dims u n d j is).1)
unfolding merge_dims
dims_same u n zero x j is h = ((λ m. m, λ m. m), h)
dims_same u n (suc d) x j is h =
    let (k, ks) = merge_pass u n d j is in
    let step = pass_same u n d x j is h in
    same_trans u n x (j ∷ is) (k ∷ ks) ((merge_dims u n d k ks).0 ∷ (merge_dims u n d k ks).1) step
      (dims_same u n d x k ks step.1)

-- `merge_blocks` keeps the selection: an element lies in one of the blocks that are left exactly
-- when it lies in one of those given. This holds both for blocks with sizes and for blocks with
-- last coordinates; every end is below 2 ^ 64, and no block given by its last coordinates is
-- empty. The blocks that are left are of the same kind.
pub merge_blocks_iff :
    (u : Bool) (n : ℕ) (x : List ℕ) (j : Block) (is : List Block)
    → AllCells u n (j ∷ is)
    → (InAny u n x ((merge_blocks u n j is).0 ∷ (merge_blocks u n j is).1) ↔ InAny u n x (j ∷ is))
      × AllCells u n ((merge_blocks u n j is).0 ∷ (merge_blocks u n j is).1)
unfolding merge_blocks
merge_blocks_iff u n x j is h = dims_same u n n x j is h
