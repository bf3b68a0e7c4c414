-- ===== src/Index/Ordering/Apart.antt =====
-- src/H5VL_log_dataseti.cpp and src/H5VL_logi_idx.cpp: what `interleve` and `operator>` tell of two
-- blocks.
use vol_log_based.Prelude.{ℕ, zero, suc, ◌+◌, ◌-◌, ◌^◌, ◌≤◌, ◌<◌, ◌≡◌, ◌↔◌, refl, List, [], ◌∷◌}
use vol_log_based.Prelude.{true, false, hd, tl, ltb, arith, Bool-cases, inl, inr, ◌⊎◌}
use vol_log_based.Selections.{lessthan}
use vol_log_based.Index.{SearchRet}
use vol_log_based.Index.Ordering.{int_lt, int_add, last_of, interleve, end_behind, exceeds}

-- Each dimension of a block has an element, and no sum is too large for an `int`.
abbrev pub Fits : ℕ → List ℕ → List ℕ → Type 0
Fits zero sa ca = Unit
Fits (suc n) sa ca = (0 < hd ca) × (hd sa + hd ca < 2 ^ 31) × Fits n (tl sa) (tl ca)

abbrev pub Ints : ℕ → List ℕ → Type 0
Ints zero sb = Unit
Ints (suc n) sb = (hd sb < 2 ^ 31) × Ints n (tl sb)

-- A coordinate inside a block.
abbrev pub Inside : ℕ → List ℕ → List ℕ → List ℕ → Type 0
Inside zero sa ca p = Unit
Inside (suc n) sa ca p = (hd sa ≤ hd p) × (hd p < hd sa + hd ca) × Inside n (tl sa) (tl ca) (tl p)

-- No dimension of the first block ends behind that of the second.
abbrev pub EndsWithin : ℕ → List ℕ → List ℕ → List ℕ → List ℕ → Type 0
EndsWithin zero sa ca sb cb = Unit
EndsWithin (suc n) sa ca sb cb =
    (hd sa + hd ca ≤ hd sb + hd cb) × EndsWithin n (tl sa) (tl ca) (tl sb) (tl cb)

lt_last :
    (s c b : ℕ)
    → 0 < c
    → s + c < 2 ^ 31
    → b < 2 ^ 31
    → (int_lt (last_of s c) b ≡ ltb (s + c - 1) b) × (int_lt b (last_of s c) ≡ ltb b (s + c - 1))
lt_last s c b h k l = (ground (arith, h, k, l), ground (arith, h, k, l))

lasts : ℕ → List ℕ → List ℕ → List ℕ
lasts zero sa ca = []
lasts (suc n) sa ca = (hd sa + hd ca - 1) ∷ lasts n (tl sa) (tl ca)

lasts-Inside : (n : ℕ) (sa ca : List ℕ) → Fits n sa ca → Inside n sa ca (lasts n sa ca)
unfolding lasts
lasts-Inside zero sa ca h = tt
lasts-Inside (suc n) sa ca (h, k, l) =
    (omega (arith, h), omega (arith, h), lasts-Inside n (tl sa) (tl ca) l)

-- The first coordinate decides that a block ends in front of `sb`, or the rest decides.
interleve-cases :
    (n : ℕ) (sa ca sb : List ℕ)
    → Fits (suc n) sa ca
    → Ints (suc n) sb
    → interleve (suc n) sa ca sb ≡ false
    → (hd sa + hd ca ≤ hd sb)
      ⊎ ((hd sa + hd ca ≡ suc (hd sb)) × (interleve n (tl sa) (tl ca) (tl sb) ≡ false))
unfolding interleve
interleve-cases n sa ca sb (c0, s0, f) (b0, i) h =
    let (e0, e1) = lt_last (hd sa) (hd ca) (hd sb) c0 s0 b0 in
    let h' = rw (interleve, e0, e1) at h in ground (arith, h', c0)

apart :
    (n : ℕ) (sa ca sb p : List ℕ)
    → Fits n sa ca
    → Ints n sb
    → interleve n sa ca sb ≡ false
    → Inside n sa ca p
    → lessthan n p sb ≡ true
unfolding interleve lessthan
apart zero sa ca sb p f i h q = cc h
apart (suc n) sa ca sb p f i h (lo, hi, q) = elim (interleve-cases n sa ca sb f i h) [
  | inl less ↦ let front : hd p < hd sb = omega (arith, less, hi) in ground (arith, front)
  | inr (same, rest) ↦
      let later = apart n (tl sa) (tl ca) (tl sb) (tl p) f.2 i.1 rest q in
      let front : hd p ≤ hd sb = omega (arith, same, hi) in ground (arith, front, later)
]

meets :
    (n : ℕ) (sa ca sb : List ℕ)
    → Fits n sa ca
    → Ints n sb
    → lessthan n (lasts n sa ca) sb ≡ true
    → interleve n sa ca sb ≡ false
unfolding interleve lessthan lasts
meets zero sa ca sb f i h = cc h
meets (suc n) sa ca sb (c0, s0, f) (b0, i) h =
    let (e0, e1) = lt_last (hd sa) (hd ca) (hd sb) c0 s0 b0 in
    let rest = meets n (tl sa) (tl ca) (tl sb) f i in
    rw (interleve, e0, e1) (ground (arith, h, rest))

-- For a block with elements and coordinates whose sums are below 2 ^ 31: `interleve` denies that
-- the block reaches the start of another exactly when all its elements come before that start in
-- row-major order.
pub interleve_iff :
    (n : ℕ) (sa ca sb : List ℕ)
    → Fits n sa ca
    → Ints n sb
    → (interleve n sa ca sb ≡ false) ↔ ((p : List ℕ) → Inside n sa ca p → lessthan n p sb ≡ true)
interleve_iff n sa ca sb f i = (
  λ h p q. apart n sa ca sb p f i h q,
  λ before. meets n sa ca sb f i (before (lasts n sa ca) (lasts-Inside n sa ca f)),
)

end_behind_iff :
    (n : ℕ) (sa ca sb cb : List ℕ)
    → Fits n sa ca
    → Fits n sb cb
    → (end_behind n sa ca sb cb ≡ false) ↔ EndsWithin n sa ca sb cb
unfolding end_behind
end_behind_iff zero sa ca sb cb f g = (λ h. tt, λ h. refl)
end_behind_iff (suc n) sa ca sb cb (c0, s0, f) (d0, t0, g) =
    let (to, from) = end_behind_iff n (tl sa) (tl ca) (tl sb) (tl cb) f g in
    let test : int_lt (int_add (hd sb) (hd cb)) (int_add (hd sa) (hd ca))
        ≡ ltb (hd sb + hd cb) (hd sa + hd ca) =
      ground (arith, s0, t0) in
    rw test (elim (Bool-cases (ltb (hd sb + hd cb) (hd sa + hd ca))) [
      | inl e ↦ rw e ((λ h. cc h), λ h. absurd (ground (arith, e, h.0)))
      | inr e ↦ rw e ((λ h. (ground (arith, e), to h)), λ h. from h.1)
    ])

-- For blocks with elements whose sums of coordinates are below 2 ^ 31: `operator>` is false exactly
-- when the first block ends behind the second in no dimension.
pub exceeds_iff :
    (ndim : ℕ) (x y : SearchRet)
    → Fits ndim x.dstart x.count
    → Fits ndim y.dstart y.count
    → (exceeds ndim x y ≡ false) ↔ EndsWithin ndim x.dstart x.count y.dstart y.count
unfolding exceeds
exceeds_iff ndim x y f g = end_behind_iff ndim x.dstart x.count y.dstart y.count f g
