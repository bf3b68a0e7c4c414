-- ===== src/Passthru/Rows.antt =====
-- src/H5VL_log_dataseti.cpp: the rows that `sel_space` selects, and the log dataset of an offset.
use vol_log_based.Prelude.{ℕ, zero, suc, ◌+◌, ◌*◌, ◌/◌, ◌^◌, ◌≤◌, ◌<◌, ◌≡◌, refl, arith}
use vol_log_based.Prelude.{List, [], ◌∷◌, Option, none, some, get_or, ltb, leb, leb→le, lt→ltb}
use vol_log_based.Prelude.{add64, mul64, extent, Bool-cases, inl, inr}
use native.Mathlib.Nat.{
  mul-le-mul, mul-le-mul_left, mul-le-mul_right, mul-div_cancel, mul-div_cancel_left,
}
use vol_log_based.Passthru.{Hyperslab, sel_space, first_element, foff2logidx}

-- Where a hyperslab's block number `r` begins.
abbrev pub row_at : Hyperslab → ℕ → ℕ
row_at h r = elim h.stride [ none ↦ h.start | some stride ↦ h.start + r * stride ]

-- What a log dataset for an offset is: the last that does not begin behind it.
abbrev pub IsLast : ℕ → List ℕ → ℕ → Option ℕ → Type 0
IsLast foff doffs n none = (j : ℕ) → j < n → foff < get_or doffs j 0
IsLast foff doffs n (some i) =
    (i < n) × (get_or doffs i 0 ≤ foff) × ((j : ℕ) → i < j → j < n → foff < get_or doffs j 0)

IsLast-suc :
    (foff : ℕ) (doffs : List ℕ) (n : ℕ) (r : Option ℕ)
    → foff < get_or doffs n 0
    → IsLast foff doffs n r
    → IsLast foff doffs (suc n) r
IsLast-suc foff doffs n none h l = λ j hj. elim (Bool-cases (ltb j n)) [
  | inl e ↦ l j (ground (arith, e))
  | inr e ↦ let same : j ≡ n = ground (arith, e, hj) in rw same h
]
IsLast-suc foff doffs n (some i) h (a, b, c) = (
  omega (arith, a),
  b,
  λ j lo hi. elim (Bool-cases (ltb j n)) [
    | inl e ↦ c j lo (ground (arith, e))
    | inr e ↦ let same : j ≡ n = ground (arith, e, hi) in rw same h
  ],
)

-- `foff2logidx` finds the last of the log datasets that begins at the offset or in front of it,
-- and answers -1 when all begin behind it.
pub foff2logidx-IsLast :
    (foff : ℕ) (doffs : List ℕ) (n : ℕ) → IsLast foff doffs n (foff2logidx foff doffs n)
unfolding foff2logidx
foff2logidx-IsLast foff doffs zero = λ j h. absurd (omega (arith, h))
foff2logidx-IsLast foff doffs (suc i) = elim (Bool-cases (leb (get_or doffs i 0) foff)) [
  | inl e ↦
      rw (e, foff2logidx)
        (omega arith, leb→le (get_or doffs i 0) foff e, λ j lo hi. absurd (omega (arith, lo, hi)))
  | inr e ↦
      rw (e, foff2logidx)
        (IsLast-suc foff doffs i (foff2logidx foff doffs i) (ground (arith, e))
          (foff2logidx-IsLast foff doffs i))
]

module _ (start0 esize s0 s1 z0 z1 c0 c1 : ℕ) where
  abbrev selected : Hyperslab
  selected = sel_space start0 esize (s0 ∷ (s1 ∷ [])) (z0 ∷ (z1 ∷ [])) (c0 ∷ (c1 ∷ [])) 2

  first_lem :
      s0 * z1 + s1 < 2 ^ 64
      → z1 < 2 ^ 64
      → first_element 2 (s0 ∷ (s1 ∷ [])) (z0 ∷ (z1 ∷ [])) 1 0 ≡ s0 * z1 + s1
  unfolding first_element
  first_lem h k =
      let a : mul64 1 z1 ≡ z1 = omega (arith, k) in
      let b : add64 0 (mul64 s1 1) ≡ s1 = omega (arith, h) in rw (a, b) (omega (arith, h))

  product : (a b : ℕ) → a * b < 2 ^ 64 → a < 2 ^ 64 → extent 2 1 (a ∷ (b ∷ [])) ≡ a * b
  product a b h k = let e : mul64 1 a ≡ a = omega (arith, k) in rw e (omega (arith, h))

  regroup :
      (r : ℕ)
      → start0 + (s0 * z1 + s1) * esize + r * (z1 * esize) ≡ start0 + ((s0 + r) * z1 + s1) * esize
  regroup r = grind arith

  -- In two dimensions, for a block with rows and columns inside the entry and an entry whose bytes
  -- end below 2 ^ 64: the hyperslab has a block for every row, of the row's bytes, and each begins
  -- at the row's first element.
  pub sel_space-rows :
      0 < esize
      → 0 < c0
      → 0 < c1
      → s0 + c0 ≤ z0
      → s1 + c1 ≤ z1
      → start0 + z0 * z1 * esize < 2 ^ 64
      → (selected.count ≡ c0)
        × (selected.block ≡ c1 * esize)
        × ((r : ℕ) → r < c0 → row_at selected r ≡ start0 + ((s0 + r) * z1 + s1) * esize)
  unfolding sel_space
  sel_space-rows he h0 h1 i0 i1 fits =
      let Z = z0 * z1 in
      let bytes : Z * 1 ≤ Z * esize = mul-le-mul_left Z he in
      let cells : c0 * c1 ≤ Z = mul-le-mul (omega (arith, i0)) (omega (arith, i1)) in
      let col : 1 * z1 ≤ Z = mul-le-mul_right z1 (omega (arith, h0, i0)) in
      let line : z0 * 1 ≤ Z = mul-le-mul_left z0 (omega (arith, h1, i1)) in
      let rows : (s0 + 1) * z1 ≤ Z = mul-le-mul_right z1 (omega (arith, h0, i0)) in
      let rows' : (s0 + 1) * z1 ≡ s0 * z1 + z1 = grind arith in
      let at : (s0 * z1 + s1) * esize ≤ Z * esize =
        mul-le-mul_right esize (omega (arith, rows, rows', h1, i1)) in
      let wide : c1 * esize ≤ Z * esize = mul-le-mul_right esize (omega (arith, i1, col)) in
      let tall : z1 * esize ≤ Z * esize = mul-le-mul_right esize (omega (arith, col)) in
      let first =
        first_lem (omega (arith, rows, rows', h1, i1, bytes, fits))
          (omega (arith, col, bytes, fits)) in
      let all =
        product c0 c1 (omega (arith, cells, bytes, fits)) (omega (arith, i0, line, bytes, fits)) in
      let sizes = product z0 z1 (omega (arith, bytes, fits)) (omega (arith, line, bytes, fits)) in
      let count : c0 * c1 / c1 ≡ c0 = mul-div_cancel c0 h1 in
      let step : z0 * z1 / z0 ≡ z1 = mul-div_cancel_left z1 (omega (arith, h0, i0)) in
      let block : mul64 c1 esize ≡ c1 * esize = omega (arith, wide, fits) in
      let stride : mul64 z1 esize ≡ z1 * esize = omega (arith, tall, fits) in
      let start : add64 start0 (mul64 (s0 * z1 + s1) esize) ≡ start0 + (s0 * z1 + s1) * esize =
        omega (arith, at, fits) in
      (
        rw (all, count) refl,
        block,
        λ r hr. elim (Bool-cases (ltb 1 c0)) [
          | inl e ↦ rw (all, count, sizes, step, e, first, start, stride) (regroup r)
          | inr e ↦
              let zero_row : r ≡ 0 = ground (arith, e, hr) in
              let same : s0 + 0 ≡ s0 = omega arith in
              rw (all, count, e, first, start, zero_row, same) refl
        ],
      )

extent_three :
    (a b c : ℕ)
    → a < 2 ^ 64
    → a * b < 2 ^ 64
    → a * b * c < 2 ^ 64
    → extent 3 1 (a ∷ (b ∷ (c ∷ []))) ≡ a * b * c
extent_three a b c h k l =
    let e : mul64 1 a ≡ a = omega (arith, h) in
    let f : mul64 a b ≡ a * b = omega (arith, k) in rw (e, f) (omega (arith, l))

-- In three dimensions, for two or more rows of one plane of an entry whose bytes are below 2 ^ 64:
-- the hyperslab's blocks are one plane apart, which is more than the row that the rows are apart.
pub sel_space-plane :
    (start0 esize z0 z1 z2 c1 c2 : ℕ) (starts : List ℕ)
    → 0 < esize
    → 0 < z0
    → 1 < c1
    → c1 ≤ z1
    → 0 < c2
    → c2 ≤ z2
    → z0 * (z1 * z2) * esize < 2 ^ 64
    → ((sel_space start0 esize starts (z0 ∷ (z1 ∷ (z2 ∷ []))) (1 ∷ (c1 ∷ (c2 ∷ []))) 3).stride
        ≡ some (z1 * z2 * esize))
      × (z2 * esize < z1 * z2 * esize)
unfolding sel_space
sel_space-plane start0 esize z0 z1 z2 c1 c2 starts he h0 h1 i1 h2 i2 fits =
    let plane = z1 * z2 in
    let Z = z0 * plane in
    let bytes : Z * 1 ≤ Z * esize = mul-le-mul_left Z he in
    let one : 1 * plane ≤ Z = mul-le-mul_right plane h0 in
    let cells : c1 * c2 ≤ plane = mul-le-mul i1 i2 in
    let left : z1 * 1 ≤ plane = mul-le-mul_left z1 (omega (arith, h2, i2)) in
    let front : z0 * z1 ≤ Z = mul-le-mul_left z0 (omega (arith, left)) in
    let line : z0 * 1 ≤ Z = mul-le-mul_left z0 (omega (arith, left, h1, i1)) in
    let size : plane * esize ≤ Z * esize = mul-le-mul_right esize (omega (arith, one)) in
    let two : 2 * z2 ≤ plane = mul-le-mul_right z2 (omega (arith, h1, i1)) in
    let apart : 2 * z2 * esize ≤ plane * esize = mul-le-mul_right esize two in
    let row : 0 < z2 * esize = grind (arith, mul-le-mul) in
    let none_lost : c1 * c2 < 2 ^ 64 = omega (arith, cells, one, bytes, fits) in
    let planes : z0 * z1 < 2 ^ 64 = omega (arith, front, bytes, fits) in
    let group : z0 * z1 * z2 ≡ Z = grind arith in
    let all : extent 3 1 (1 ∷ (c1 ∷ (c2 ∷ []))) ≡ 1 * c1 * c2 =
      extent_three 1 c1 c2 (omega arith) (omega (arith, i1, left, one, bytes, fits))
        (grind (arith, none_lost)) in
    let sizes : extent 3 1 (z0 ∷ (z1 ∷ (z2 ∷ []))) ≡ z0 * z1 * z2 =
      extent_three z0 z1 z2 (omega (arith, line, bytes, fits)) planes
        (omega (arith, group, bytes, fits)) in
    let single : 1 * c1 * c2 ≡ c1 * c2 = grind arith in
    let count : c1 * c2 / c2 ≡ c1 = mul-div_cancel c1 h2 in
    let step : Z / z0 ≡ plane = mul-div_cancel_left plane h0 in
    let stride : mul64 plane esize ≡ plane * esize = omega (arith, size, fits) in
    let double : 2 * z2 * esize ≡ z2 * esize + z2 * esize = grind arith in
    let many = lt→ltb 1 c1 h1 in
    (
      rw (all, single, count, many, sizes, group, step, stride) refl,
      omega (arith, apart, row, double),
    )
