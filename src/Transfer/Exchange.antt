-- ===== src/Transfer/Exchange.antt =====
-- src/H5VL_log_dataseti.cpp: what the exchanges of `sortoffsets` keep.
use vol_log_based.Prelude.{
  ℕ, ◌≤◌, ◌<◌, ◌≡◌, refl, ◌∙◌, sym, subst, arith, Bool-cases, inl, inr, ◌⊎◌,
}
use vol_log_based.Prelude.{◌==◌, ==_iff}
use vol_log_based.Transfer.{ReadPiece}
use vol_log_based.Transfer.Sort.{Offsets, oswap}

-- The second array is the first after exchanges of elements from `lo` on and in front of `hi`.
pub data Exchanged (lo hi : ℕ) (a : Offsets) : Offsets → Type 0 where
  same : Exchanged lo hi a a
  swapped :
      {b : Offsets} (i j : ℕ)
      → Exchanged lo hi a b
      → lo ≤ i
      → i < hi
      → lo ≤ j
      → j < hi
      → Exchanged lo hi a (oswap i j b)

pub oswap-cases :
    (i j : ℕ) (a : Offsets) (p : ℕ)
    → ((p ≡ i) × (oswap i j a p ≡ a j))
      ⊎ ((p ≡ j) × (oswap i j a p ≡ a i))
      ⊎ ((p ≡ i → ⊥) × (p ≡ j → ⊥) × (oswap i j a p ≡ a p))
unfolding oswap
oswap-cases i j a p = elim (Bool-cases (p == i)) [
  | inl e ↦ inl ((==_iff p i).0 e, rw e refl)
  | inr e ↦ elim (Bool-cases (p == j)) [
    | inl f ↦ inr (inl ((==_iff p j).0 f, rw (e, f) refl))
    | inr f ↦ inr (inr (λ h. ground (arith, e), λ h. ground (arith, f), rw (e, f) refl))
  ]
]

-- Where the exchanged pieces stand.
pub oswap_left : (i j : ℕ) (a : Offsets) → oswap i j a i ≡ a j
unfolding oswap
oswap_left i j a = ground arith

pub oswap_right : (i j : ℕ) (a : Offsets) → oswap i j a j ≡ a i
unfolding oswap
oswap_right i j a = ground arith

pub oswap_other : (i j p : ℕ) (a : Offsets) → (p ≡ i → ⊥) → (p ≡ j → ⊥) → oswap i j a p ≡ a p
oswap_other i j p a n m = elim (oswap-cases i j a p) [
  | inl (e, v) ↦ absurd (n e)
  | inr (inl (e, v)) ↦ absurd (m e)
  | inr (inr (k, l, v)) ↦ v
]

pub Exchanged-join :
    {lo hi : ℕ} {a b c : Offsets} → Exchanged lo hi a b → Exchanged lo hi b c → Exchanged lo hi a c
Exchanged-join x same = x
Exchanged-join x (swapped i j y h k l m) = swapped i j (Exchanged-join x y) h k l m

pub Exchanged-widen :
    {lo hi : ℕ} {a b : Offsets} (lo' hi' : ℕ)
    → Exchanged lo hi a b
    → lo' ≤ lo
    → hi ≤ hi'
    → Exchanged lo' hi' a b
Exchanged-widen lo' hi' same h k = same
Exchanged-widen lo' hi' (swapped i j y e f g l) h k =
    swapped i j (Exchanged-widen lo' hi' y h k) (omega arith) (omega arith) (omega arith)
      (omega arith)

-- What holds of all pieces of the range holds of them after exchanges.
pub Exchanged-All :
    {lo hi : ℕ} {a b : Offsets} (P : ReadPiece → Type 0)
    → Exchanged lo hi a b
    → ((p : ℕ) → lo ≤ p → p < hi → P (a p))
    → (p : ℕ) → lo ≤ p
    → p < hi
    → P (b p)
Exchanged-All P same all p h k = all p h k
Exchanged-All P (swapped {b = b} i j y e f g l) all p h k = elim (oswap-cases i j b p) [
  | inl (at, v) ↦ subst P (sym v) (Exchanged-All P y all j g l)
  | inr (inl (at, v)) ↦ subst P (sym v) (Exchanged-All P y all i e f)
  | inr (inr (n, m, v)) ↦ subst P (sym v) (Exchanged-All P y all p h k)
]

-- Pieces outside of the range stay.
pub Exchanged-outside :
    {lo hi : ℕ} {a b : Offsets} (p : ℕ) → Exchanged lo hi a b → ((p < lo) ⊎ (hi ≤ p)) → b p ≡ a p
Exchanged-outside p same h = refl
Exchanged-outside p (swapped {b = b} i j y e f g l) h = elim (oswap-cases i j b p) [
  | inl (at, v) ↦ absurd (ground (arith, h))
  | inr (inl (at, v)) ↦ absurd (ground (arith, h))
  | inr (inr (n, m, v)) ↦ v ∙ Exchanged-outside p y h
]
