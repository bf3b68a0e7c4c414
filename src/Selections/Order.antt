-- ===== src/Selections/Order.antt =====
-- src/H5VL_logi_dataspace.cpp: `lessthan`, by which the code sorts blocks with `std::sort`.
use vol_log_based.Prelude.{
  ℕ, zero, suc, ◌≡◌, refl, sym, ap₂, ◌<◌, List, ◌∷◌, true, false, hd, tl, memcpy,
}
use vol_log_based.Prelude.{ltb, ltb→lt, arith, Bool-cases, inl, inr, ◌⊎◌}
use vol_log_based.Selections.{lessthan}

-- The first coordinate decides, or both are equal and the rest decides.
lessthan-cases :
    (n : ℕ) (a b : List ℕ)
    → lessthan (suc n) a b ≡ true
    → (hd a < hd b) ⊎ ((hd a ≡ hd b) × (lessthan n (tl a) (tl b) ≡ true))
unfolding lessthan
lessthan-cases n a b h = elim (Bool-cases (ltb (hd a) (hd b))) [
  | inl e ↦ inl (ltb→lt (hd a) (hd b) e)
  | inr e ↦ ground (arith, h, e)
]

lessthan_first : (n : ℕ) (a b : List ℕ) → hd a < hd b → lessthan (suc n) a b ≡ true
unfolding lessthan
lessthan_first n a b h = ground (arith, h)

lessthan_rest :
    (n : ℕ) (a b : List ℕ)
    → hd a ≡ hd b
    → lessthan n (tl a) (tl b) ≡ true
    → lessthan (suc n) a b ≡ true
unfolding lessthan
lessthan_rest n a b h k = ground (arith, h, k)

-- The order is transitive.
pub lessthan_trans :
    (n : ℕ) (a b c : List ℕ) → lessthan n a b ≡ true → lessthan n b c ≡ true → lessthan n a c ≡ true
unfolding lessthan
lessthan_trans zero a b c h k = h
lessthan_trans (suc n) a b c h k = elim (lessthan-cases n a b h) [
  | inl x ↦ elim (lessthan-cases n b c k) [
    | inl y ↦ lessthan_first n a c (omega arith)
    | inr y ↦ lessthan_first n a c (omega (arith, x, y.0))
  ]
  | inr x ↦ elim (lessthan-cases n b c k) [
    | inl y ↦ lessthan_first n a c (omega (arith, x.0, y))
    | inr y ↦
        lessthan_rest n a c (omega (arith, x.0, y.0))
          (lessthan_trans n (tl a) (tl b) (tl c) x.1 y.1)
  ]
]

-- How two coordinates of `n` dimensions compare: exactly one of the three.
abbrev pub Compared : ℕ → List ℕ → List ℕ → Type 0
Compared n a b =
    ((lessthan n a b ≡ true) × (lessthan n b a ≡ false))
    ⊎ ((lessthan n b a ≡ true) × (lessthan n a b ≡ false))
    ⊎ ((memcpy n a ≡ memcpy n b) × (lessthan n a b ≡ false) × (lessthan n b a ≡ false))

lessthan_first_back : (n : ℕ) (a b : List ℕ) → hd a < hd b → lessthan (suc n) b a ≡ false
unfolding lessthan
lessthan_first_back n a b h = ground (arith, h)

lessthan_equal :
    (n : ℕ) (a b : List ℕ) → hd a ≡ hd b → lessthan (suc n) a b ≡ lessthan n (tl a) (tl b)
unfolding lessthan
lessthan_equal n a b h = ground (arith, h)

compare_first : (x y : ℕ) → (x < y) ⊎ (y < x) ⊎ (x ≡ y)
compare_first x y = omega arith

-- Of two coordinates, exactly one is less than the other, or they are equal in every dimension
-- and neither is less. With the transitivity, this makes `lessthan` an order by which
-- `std::sort` may sort.
pub lessthan-Compared : (n : ℕ) (a b : List ℕ) → Compared n a b
unfolding lessthan
lessthan-Compared zero a b = inr (inr (refl, refl, refl))
lessthan-Compared (suc n) a b = elim (compare_first (hd a) (hd b)) [
  | inl x ↦ inl (lessthan_first n a b x, lessthan_first_back n a b x)
  | inr other ↦ elim other [
    | inl x ↦ inr (inl (lessthan_first n b a x, lessthan_first_back n b a x))
    | inr x ↦
        rw (lessthan_equal n a b x, lessthan_equal n b a (sym x))
          (elim (lessthan-Compared n (tl a) (tl b)) [
            | inl r ↦ inl r
            | inr r ↦ elim r [
              | inl q ↦ inr (inl q)
              | inr q ↦ inr (inr (ap₂ (λ h t. h ∷ t) x q.0, q.1, q.2))
            ]
          ])
  ]
]
