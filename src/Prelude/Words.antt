-- ===== src/Prelude/Words.antt =====
-- Machine words: `size_t` and `hsize_t` arithmetic, and the cast of an `hsize_t` to `int`.
use Prim.Native.Nat.{ℕ, ◌+◌, ◌-◌, ◌*◌, ◌%◌, ◌^◌}

abbrev pub u64 : ℕ
u64 = 2 ^ 64

abbrev pub add64 : ℕ → ℕ → ℕ
add64 a b = (a + b) % 2 ^ 64

abbrev pub sub64 : ℕ → ℕ → ℕ
sub64 a b = (a + 2 ^ 64 - b) % 2 ^ 64

abbrev pub mul64 : ℕ → ℕ → ℕ
mul64 a b = (a * b) % 2 ^ 64

-- `(int)x`: the low 32 bits, the pattern of an `int`; it is negative from 2 ^ 31 on.
abbrev pub to_int : ℕ → ℕ
to_int x = x % 2 ^ 32
