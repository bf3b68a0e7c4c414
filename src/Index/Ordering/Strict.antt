-- ===== src/Index/Ordering/Strict.antt =====
-- src/H5VL_logi_idx.cpp: the order that `std::sort` is given.
use vol_log_based.Prelude.{
  ℕ, zero, suc, ◌<◌, ◌≡◌, refl, List, Bool, true, false, hd, tl, ltb, ltb→lt, add64,
}
use vol_log_based.Prelude.{arith, Bool-cases, inl, inr, ◌⊎◌}
use vol_log_based.Index.{SearchRet}
use vol_log_based.Index.Ordering.{biased, start_before, precedes}

-- What `std::sort` asks of a comparison: a strict weak order.
abbrev pub IsStrictWeak {ℓ} : {A : Type ℓ} → (A → A → Bool) → Type ℓ
IsStrictWeak {A = A} lt =
    ((x : A) → lt x x ≡ false)
    × ((x y z : A) → lt x y ≡ true → lt y z ≡ true → lt x z ≡ true)
    × ((x y z : A) → lt x z ≡ true → (lt x y ≡ true) ⊎ (lt y z ≡ true))

before-cases :
    (n : ℕ) (a b : List ℕ)
    → start_before (suc n) a b ≡ true
    → (biased (hd a) < biased (hd b))
      ⊎ ((biased (hd a) ≡ biased (hd b)) × (start_before n (tl a) (tl b) ≡ true))
unfolding start_before
before-cases n a b h = elim (Bool-cases (ltb (biased (hd a)) (biased (hd b)))) [
  | inl e ↦ inl (ltb→lt (biased (hd a)) (biased (hd b)) e)
  | inr e ↦ ground (arith, h, e)
]

before_first :
    (n : ℕ) (a b : List ℕ) → biased (hd a) < biased (hd b) → start_before (suc n) a b ≡ true
unfolding start_before
before_first n a b h = ground (arith, h)

before_rest :
    (n : ℕ) (a b : List ℕ)
    → biased (hd a) ≡ biased (hd b)
    → start_before n (tl a) (tl b) ≡ true
    → start_before (suc n) a b ≡ true
unfolding start_before
before_rest n a b h k = ground (arith, h, k)

before_self : (n : ℕ) (a : List ℕ) → start_before n a a ≡ false
unfolding start_before
before_self zero a = refl
before_self (suc n) a = let rest = before_self n (tl a) in ground (arith, rest)

before_trans :
    (n : ℕ) (a b c : List ℕ)
    → start_before n a b ≡ true
    → start_before n b c ≡ true
    → start_before n a c ≡ true
unfolding start_before
before_trans zero a b c h k = h
before_trans (suc n) a b c h k = elim (before-cases n a b h) [
  | inl x ↦ elim (before-cases n b c k) [
    | inl y ↦ before_first n a c (omega (arith, x, y))
    | inr y ↦ before_first n a c (omega (arith, x, y.0))
  ]
  | inr x ↦ elim (before-cases n b c k) [
    | inl y ↦ before_first n a c (omega (arith, x.0, y))
    | inr y ↦
        before_rest n a c (omega (arith, x.0, y.0)) (before_trans n (tl a) (tl b) (tl c) x.1 y.1)
  ]
]

before_split :
    (n : ℕ) (a b c : List ℕ)
    → start_before n a c ≡ true
    → (start_before n a b ≡ true) ⊎ (start_before n b c ≡ true)
unfolding start_before
before_split zero a b c h = inl h
before_split (suc n) a b c h = elim (Bool-cases (ltb (biased (hd a)) (biased (hd b)))) [
  | inl e ↦ inl (before_first n a b (ltb→lt (biased (hd a)) (biased (hd b)) e))
  | inr e ↦ elim (Bool-cases (ltb (biased (hd b)) (biased (hd c)))) [
    | inl f ↦ inr (before_first n b c (ltb→lt (biased (hd b)) (biased (hd c)) f))
    | inr f ↦ elim (before-cases n a c h) [
      | inl x ↦ absurd (ground (arith, x, e, f))
      | inr x ↦
          let low : biased (hd a) ≡ biased (hd b) = ground (arith, x.0, e, f) in
          let high : biased (hd b) ≡ biased (hd c) = ground (arith, x.0, e, f) in
          elim (before_split n (tl a) (tl b) (tl c) x.1) [
            | inl y ↦ inl (before_rest n a b low y)
            | inr y ↦ inr (before_rest n b c high y)
          ]
    ]
  ]
]

precedes-cases :
    (n : ℕ) (x y : SearchRet)
    → precedes n x y ≡ true
    → (add64 x.foff x.doff < add64 y.foff y.doff)
      ⊎ ((add64 x.foff x.doff ≡ add64 y.foff y.doff) × (start_before n x.dstart y.dstart ≡ true))
unfolding precedes
precedes-cases n x y h = elim (Bool-cases (ltb (add64 x.foff x.doff) (add64 y.foff y.doff))) [
  | inl e ↦ inl (ltb→lt (add64 x.foff x.doff) (add64 y.foff y.doff) e)
  | inr e ↦ ground (arith, h, e)
]

precedes_first :
    (n : ℕ) (x y : SearchRet) → add64 x.foff x.doff < add64 y.foff y.doff → precedes n x y ≡ true
unfolding precedes
precedes_first n x y h = ground (arith, h)

precedes_rest :
    (n : ℕ) (x y : SearchRet)
    → add64 x.foff x.doff ≡ add64 y.foff y.doff
    → start_before n x.dstart y.dstart ≡ true
    → precedes n x y ≡ true
unfolding precedes
precedes_rest n x y h k = ground (arith, h, k)

precedes_self : (n : ℕ) (x : SearchRet) → precedes n x x ≡ false
unfolding precedes
precedes_self n x = let rest = before_self n x.dstart in ground (arith, rest)

precedes_trans :
    (n : ℕ) (x y z : SearchRet)
    → precedes n x y ≡ true
    → precedes n y z ≡ true
    → precedes n x z ≡ true
precedes_trans n x y z h k = elim (precedes-cases n x y h) [
  | inl a ↦ elim (precedes-cases n y z k) [
    | inl b ↦ precedes_first n x z (omega (arith, a, b))
    | inr b ↦ precedes_first n x z (omega (arith, a, b.0))
  ]
  | inr a ↦ elim (precedes-cases n y z k) [
    | inl b ↦ precedes_first n x z (omega (arith, a.0, b))
    | inr b ↦
        precedes_rest n x z (omega (arith, a.0, b.0))
          (before_trans n x.dstart y.dstart z.dstart a.1 b.1)
  ]
]

precedes_split :
    (n : ℕ) (x y z : SearchRet)
    → precedes n x z ≡ true
    → (precedes n x y ≡ true) ⊎ (precedes n y z ≡ true)
precedes_split n x y z h = elim (Bool-cases (ltb (add64 x.foff x.doff) (add64 y.foff y.doff))) [
  | inl e ↦ inl (precedes_first n x y (ltb→lt (add64 x.foff x.doff) (add64 y.foff y.doff) e))
  | inr e ↦ elim (Bool-cases (ltb (add64 y.foff y.doff) (add64 z.foff z.doff))) [
    | inl f ↦ inr (precedes_first n y z (ltb→lt (add64 y.foff y.doff) (add64 z.foff z.doff) f))
    | inr f ↦ elim (precedes-cases n x z h) [
      | inl a ↦ absurd (ground (arith, a, e, f))
      | inr a ↦
          let low : add64 x.foff x.doff ≡ add64 y.foff y.doff = ground (arith, a.0, e, f) in
          let high : add64 y.foff y.doff ≡ add64 z.foff z.doff = ground (arith, a.0, e, f) in
          elim (before_split n x.dstart y.dstart z.dstart a.1) [
            | inl b ↦ inl (precedes_rest n x y low b)
            | inr b ↦ inr (precedes_rest n y z high b)
          ]
    ]
  ]
]

-- `operator<` of the search results of datasets of `ndim` dimensions each is a strict weak order,
-- as `std::sort` asks: no result comes before itself, the order is transitive, and of two ordered
-- results any third comes behind the first or in front of the second.
pub precedes-IsStrictWeak : (ndim : ℕ) → IsStrictWeak (precedes ndim)
precedes-IsStrictWeak ndim = (precedes_self ndim, precedes_trans ndim, precedes_split ndim)
