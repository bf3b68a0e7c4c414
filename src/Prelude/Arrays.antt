-- ===== src/Prelude/Arrays.antt =====
-- Coordinate arrays, read element by element from the front as the loops over dimensions do. An
-- element past the end of the list reads as 0; a C array has `H5S_MAX_RANK` elements or more.
use Prim.Native.Nat.{ℕ, zero, suc}
use mathlib.Core.Path.{◌≡◌, refl, ap}
use mathlib.Core.List.{List, [], ◌∷◌, ◌++◌}
use vol_log_based.Prelude.Lists.{length, drop}
use vol_log_based.Prelude.Words.{mul64}

abbrev pub hd : List ℕ → ℕ
hd [] = 0
hd (x ∷ xs) = x

abbrev pub tl : List ℕ → List ℕ
tl [] = []
tl (x ∷ xs) = xs

-- `memcpy` of `n` elements from an array.
abbrev pub memcpy : ℕ → List ℕ → List ℕ
memcpy zero xs = []
memcpy (suc n) xs = hd xs ∷ memcpy n (tl xs)

-- `for (k = 0; k < n; k++) b *= count[k];` in 64 bits.
abbrev pub extent : ℕ → ℕ → List ℕ → ℕ
extent zero b xs = b
extent (suc n) b xs = extent n (mul64 b (hd xs)) (tl xs)

pub length-memcpy : (n : ℕ) (xs : List ℕ) → length (memcpy n xs) ≡ n
length-memcpy zero xs = refl
length-memcpy (suc n) xs = ap suc (length-memcpy n (tl xs))

pub drop-memcpy : (n : ℕ) (xs ys : List ℕ) → drop n (memcpy n xs ++ ys) ≡ ys
drop-memcpy zero xs ys = refl
drop-memcpy (suc n) xs ys = drop-memcpy n (tl xs) ys

-- A copy reads as the array that it was taken from, whatever follows it.
pub memcpy-memcpy : (n : ℕ) (xs ys : List ℕ) → memcpy n (memcpy n xs ++ ys) ≡ memcpy n xs
memcpy-memcpy zero xs ys = refl
memcpy-memcpy (suc n) xs ys = ap (λ r. hd xs ∷ r) (memcpy-memcpy n (tl xs) ys)

pub extent-memcpy : (n b : ℕ) (xs ys : List ℕ) → extent n b (memcpy n xs ++ ys) ≡ extent n b xs
extent-memcpy zero b xs ys = refl
extent-memcpy (suc n) b xs ys = extent-memcpy n (mul64 b (hd xs)) (tl xs) ys

pub extent-memcpy_all : (n b : ℕ) (xs : List ℕ) → extent n b (memcpy n xs) ≡ extent n b xs
extent-memcpy_all zero b xs = refl
extent-memcpy_all (suc n) b xs = extent-memcpy_all n (mul64 b (hd xs)) (tl xs)
