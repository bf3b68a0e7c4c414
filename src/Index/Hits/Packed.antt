-- ===== src/Index/Hits/Packed.antt =====
-- Reading an array that `memcpy` filled.
use vol_log_based.Prelude.{ℕ, zero, suc, ◌≡◌, refl, ap, List, [], ◌∷◌, ◌++◌}
use vol_log_based.Prelude.{hd, tl, memcpy, sub64, to_int, drop}
use vol_log_based.Index.{intersect, int_diffs, ints}

pub drop-one : (xs : List ℕ) → drop 1 xs ≡ tl xs
drop-one [] = refl
drop-one (x ∷ xs) = refl

pub ints-memcpy : (n : ℕ) (xs ys : List ℕ) → ints n (memcpy n xs ++ ys) ≡ ints n xs
ints-memcpy zero xs ys = refl
ints-memcpy (suc n) xs ys = ap (λ r. to_int (hd xs) ∷ r) (ints-memcpy n (tl xs) ys)

pub int_diffs-memcpy :
    (n : ℕ) (os xs ys : List ℕ) → int_diffs n os (memcpy n xs ++ ys) ≡ int_diffs n os xs
int_diffs-memcpy zero os xs ys = refl
int_diffs-memcpy (suc n) os xs ys =
    ap (λ r. to_int (sub64 (hd os) (hd xs)) ∷ r) (int_diffs-memcpy n (tl os) (tl xs) ys)

pub intersect-memcpy :
    (n : ℕ) (sa ca sb cb r q : List ℕ)
    → intersect n (memcpy n sa ++ r) (memcpy n ca ++ q) sb cb ≡ intersect n sa ca sb cb
unfolding intersect
intersect-memcpy zero sa ca sb cb r q = refl
intersect-memcpy (suc n) sa ca sb cb r q =
    rw (intersect-memcpy n (tl sa) (tl ca) (tl sb) (tl cb) r q)
