-- ===== src/Selections/Shortcut.antt =====
-- src/H5VL_logi_dataspace.cpp: the case of a regular hyperslab that is one block.
use vol_log_based.Prelude.{ℕ, zero, suc, ◌+◌, ◌-◌, ◌*◌, ◌<◌, ◌≡◌, refl, ap₂, sym, ◌∙◌, ◌↔◌, arith}
use vol_log_based.Prelude.{
  List, Option, some, none, Bool, true, false, ◌&&◌, ◌||◌, ◌==◌, if◌then◌else◌,
}
use vol_log_based.Prelude.{hd, tl, memcpy, &&_iff, ==_iff, Bool-cases, inl, inr, ◌∷◌, ap, subst}
use vol_log_based.Selections.{Block}
use vol_log_based.Selections.Merge.{InCells}
use vol_log_based.Selections.Space.{Regular, all_ones, regular_block}

-- A coordinate of a regular hyperslab: in every dimension it lies `j` behind the begin of the
-- block number `i`.
abbrev pub InRegular : ℕ → List ℕ → List ℕ → List ℕ → List ℕ → List ℕ → Type 0
InRegular zero x start stride count block = Unit
InRegular (suc n) x start stride count block =
    ((i : ℕ) × (j : ℕ) × (i < hd count) × (j < hd block) × (hd x ≡ hd start + i * hd stride + j))
    × InRegular n (tl x) (tl start) (tl stride) (tl count) (tl block)

ones :
    (n : ℕ) (xs : List ℕ) → all_ones (suc n) xs ≡ true → (hd xs ≡ 1) × (all_ones n (tl xs) ≡ true)
ones n xs h =
    let (a, b) = (&&_iff (hd xs == 1) (all_ones n (tl xs))).0 h in ((==_iff (hd xs) 1).0 a, b)

same_ones :
    (n : ℕ) (xs ys : List ℕ)
    → all_ones n xs ≡ true
    → all_ones n ys ≡ true
    → memcpy n xs ≡ memcpy n ys
same_ones zero xs ys h k = refl
same_ones (suc n) xs ys h k =
    let (a, h') = ones n xs h in
    let (b, k') = ones n ys k in
    ap₂ (λ z zs. z ∷ zs) (a ∙ sym b) (same_ones n (tl xs) (tl ys) h' k')

-- Neighbouring blocks of one element.
neighbours_iff :
    (n : ℕ) (x s t c b : List ℕ)
    → all_ones n t ≡ true
    → all_ones n b ≡ true
    → InCells false n x (memcpy n s) (memcpy n c) ↔ InRegular n x s t c b
neighbours_iff zero x s t c b h k = ((λ z. z), λ z. z)
neighbours_iff (suc n) x s t c b h k =
    let (t1, h') = ones n t h in
    let (b1, k') = ones n b k in
    let (to, from) = neighbours_iff n (tl x) (tl s) (tl t) (tl c) (tl b) h' k' in
    (
      (λ z.
          let i = hd x - hd s in
          let at : hd x ≡ hd s + i * hd t + 0 = rw t1 (omega (arith, z.0.0)) in
          ((i, 0, omega (arith, z.0), omega (arith, b1), at), to z.1)),
      (λ z.
          let (i, j, hi, hj, e) = z.0 in
          let e' : hd x ≡ hd s + i * 1 + j = subst (λ k. hd x ≡ hd s + i * k + j) t1 e in
          ((omega (arith, e'), omega (arith, e', hi, hj, b1)), from z.1)),
    )

-- One block in every dimension.
one_block_iff :
    (n : ℕ) (x s t c b : List ℕ)
    → all_ones n c ≡ true
    → InCells false n x (memcpy n s) (memcpy n b) ↔ InRegular n x s t c b
one_block_iff zero x s t c b h = ((λ z. z), λ z. z)
one_block_iff (suc n) x s t c b h =
    let (c1, h') = ones n c h in
    let (to, from) = one_block_iff n (tl x) (tl s) (tl t) (tl c) (tl b) h' in
    (
      (λ z.
          let j = hd x - hd s in
          ((0, j, omega (arith, c1), omega (arith, z.0), omega (arith, z.0)), to z.1)),
      (λ z.
          let (i, j, hi, hj, e) = z.0 in
          let first : i ≡ 0 = omega (arith, hi, c1) in
          let e' : hd x ≡ hd s + 0 * hd t + j = subst (λ k. hd x ≡ hd s + k * hd t + j) first e in
          ((omega (arith, e'), omega (arith, e', hj)), from z.1)),
    )

-- The sizes that the constructor takes.
abbrev counts_of : ℕ → Regular → List ℕ
counts_of n r = if all_ones n r.block then r.count else r.block

is_one_block : ℕ → Regular → Bool
is_one_block n r = (all_ones n r.stride && all_ones n r.block) || all_ones n r.count

shortcut_iff :
    (n : ℕ) (r : Regular) (x : List ℕ)
    → is_one_block n r ≡ true
    → InCells false n x (memcpy n r.start) (memcpy n (counts_of n r))
      ↔ InRegular n x r.start r.stride r.count r.block
unfolding is_one_block
shortcut_iff n r x h = elim (Bool-cases (all_ones n r.block)) [
  | inl b ↦ elim (Bool-cases (all_ones n r.stride)) [
    | inl t ↦ rw b (neighbours_iff n x r.start r.stride r.count r.block t b)
    | inr t ↦
        let c : all_ones n r.count ≡ true = rw (t, is_one_block) at h in
        rw (b, same_ones n r.count r.block c b)
          (one_block_iff n x r.start r.stride r.count r.block c)
  ]
  | inr b ↦
      let c : all_ones n r.count ≡ true = ground (arith, h, b) in
      rw b (one_block_iff n x r.start r.stride r.count r.block c)
]

abbrev from_some : Block → Option Block → Block
from_some b none = b
from_some b (some c) = c

-- Where the constructor takes a regular hyperslab for one block, a coordinate lies in that block
-- exactly when it lies in the hyperslab.
pub regular_block_iff :
    (n : ℕ) (r : Regular) (b : Block) (x : List ℕ)
    → regular_block n r ≡ some b
    → InCells false n x b.start b.count ↔ InRegular n x r.start r.stride r.count r.block
unfolding regular_block is_one_block
regular_block_iff n r b x e = elim (Bool-cases (is_one_block n r)) [
  | inl h ↦
      let same = ap (from_some b) (rw (h, regular_block) at e) in
      subst
        (λ (c : Block).
          InCells false n x c.start c.count ↔ InRegular n x r.start r.stride r.count r.block)
        same (shortcut_iff n r x h)
  | inr h ↦ cc (rw (h, regular_block) at e)
]
