-- ===== src/Prelude/Bytes.antt =====
-- Little-endian fields of a packed buffer, as the code reads and writes them through casts.
use Prim.Native.Nat.{ℕ, zero, suc, ◌+◌, ◌*◌, ◌/◌, ◌%◌, ◌^◌, ◌<◌}
use mathlib.Core.Path.{◌≡◌, refl, ap}
use mathlib.Core.List.{List, [], ◌∷◌, ◌++◌}
use native.Mathlib.Omega.{arith}
use native.Mathlib.Nat.{pow-suc}
use vol_log_based.Prelude.Lists.{length, drop}

-- The `n` low bytes of `x`, lowest first.
unfoldable pub put_le : ℕ → ℕ → List ℕ
put_le zero x = []
put_le (suc n) x = (x % 256) ∷ put_le n (x / 256)

-- The number in the first `n` bytes; a byte past the end counts as 0.
unfoldable pub get_le : ℕ → List ℕ → ℕ
get_le zero bs = 0
get_le (suc n) [] = 0
get_le (suc n) (b ∷ bs) = b + 256 * get_le n bs

pub length-put_le : (n x : ℕ) → length (put_le n x) ≡ n
unfolding put_le
length-put_le zero x = refl
length-put_le (suc n) x = ap suc (length-put_le n (x / 256))

pub get_le-put_le : (n x : ℕ) (r : List ℕ) → x < 256 ^ n → get_le n (put_le n x ++ r) ≡ x
unfolding put_le get_le
get_le-put_le zero x r h = omega arith
get_le-put_le (suc n) x r h =
    omega (arith, get_le-put_le n (x / 256) r (omega (arith, pow-suc 256 n)))

pub drop-put_le : (n x : ℕ) (r : List ℕ) → drop n (put_le n x ++ r) ≡ r
unfolding put_le
drop-put_le zero x r = refl
drop-put_le (suc n) x r = drop-put_le n (x / 256) r
