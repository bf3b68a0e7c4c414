-- ===== src/File/Buffers.antt =====
-- src/H5VL_log_filei.cpp: the buffers of pending writes, `balloc` and `bfree`.
use vol_log_based.Prelude.{ℕ, ◌+◌, ◌-◌, ◌^◌, ◌≤◌, ◌<◌, ◌≡◌, refl, ap, inl, inr}
use vol_log_based.Prelude.{List, [], ◌∷◌, Option, none, some, Bool, false, ltb, ◌==◌, if◌then◌else◌}
use vol_log_based.Prelude.{
  Result, ok, err, out_of_buffer, null_buffer, add64, sub64, arith, Bool-cases, Option-cases,
  undefined_behaviour,
}

-- The part of a file's state that the two operations use. A live buffer is its address with the
-- size that is stored in front of it.
pub record Buffers : Type 0 where
  -- `LOG_VOL_BSIZE_UNLIMITED` is `none`.
  pub bsize : Option ℕ
  pub bused : ℕ
  pub live : List (ℕ × ℕ)

-- The limit is exceeded.
unfoldable pub over_limit : Buffers → ℕ → Bool
over_limit b size = elim b.bsize [ none ↦ false | some n ↦ ltb n (add64 b.bused size) ]

-- `H5VL_log_filei_balloc`, where `addr` is what `malloc` returns, `none` when it fails.
unfoldable pub balloc : Option ℕ → ℕ → Buffers → Result (ℕ × Buffers)
unfolding over_limit
balloc addr size b = if over_limit b size then err out_of_buffer else elim addr [
  | none ↦ err out_of_buffer
  | some a ↦ ok (a, record b { bused = add64 b.bused size; live = (a, size) ∷ b.live })
]

-- The size in front of a buffer; `none` for an address that is not a live buffer.
unfoldable pub size_at : ℕ → List (ℕ × ℕ) → Option ℕ
size_at a [] = none
size_at a ((x, n) ∷ bs) = if a == x then some n else size_at a bs

unfoldable pub free_at : ℕ → List (ℕ × ℕ) → List (ℕ × ℕ)
free_at a [] = []
free_at a ((x, n) ∷ bs) = let rest = free_at a bs in if a == x then bs else (x, n) ∷ rest

-- `H5VL_log_filei_bfree`; the null pointer is `none`. For an address that is not a live buffer the
-- size is read from memory that is not the buffer's.
unfoldable pub bfree : Option ℕ → Buffers → Result Buffers
unfolding size_at free_at
bfree none b = err null_buffer
bfree (some a) b = elim (size_at a b.live) [
  | none ↦ err undefined_behaviour
  | some n ↦ ok (record b { bused = sub64 b.bused n; live = free_at a b.live })
]

some_eq : {v w : ℕ} → some w ≡ some v → w ≡ v
some_eq {v = v} e = ap (λ o. elim o [ none ↦ v | some x ↦ x ]) e

-- The sizes of the live buffers together.
abbrev pub total : List (ℕ × ℕ) → ℕ
total [] = 0
total ((x, n) ∷ bs) = n + total bs

total-free_at :
    (a n : ℕ) (bs : List (ℕ × ℕ)) → size_at a bs ≡ some n → total (free_at a bs) + n ≡ total bs
unfolding free_at size_at
total-free_at a n [] h = absurd (cc h)
total-free_at a n ((x, m) ∷ bs) h = elim (Bool-cases (a == x)) [
  | inl e ↦
      let same : m ≡ n = some_eq (rw (e, size_at) at h) in rw (e, free_at) (omega (arith, same))
  | inr e ↦
      let rest = total-free_at a n bs (rw (e, size_at) at h) in
      rw (e, free_at) (omega (arith, rest))
]

-- One request to the buffers, or one released buffer.
pub data Op : Type 0 where
  alloc : Option ℕ → ℕ → Op
  release : Option ℕ → Op

-- An operation that throws leaves the buffers as they are; a release that is not defined is taken
-- for one.
unfoldable pub step : Op → Buffers → Buffers
unfolding balloc bfree
step (alloc addr size) b = elim (balloc addr size b) [ ok r ↦ r.1 | err e ↦ b ]
step (release addr) b = elim (bfree addr b) [ ok r ↦ r | err e ↦ b ]

unfoldable pub run : List Op → Buffers → Buffers
unfolding step
run [] b = b
run (op ∷ ops) b = run ops (step op b)

abbrev pub AllBelow : List Op → ℕ → Type 0
AllBelow [] room = Unit
AllBelow (alloc addr size ∷ ops) room = (size ≤ room) × AllBelow ops (room - size)
AllBelow (release addr ∷ ops) room = AllBelow ops room

-- What one operation adds at most.
abbrev request : Op → ℕ
request (alloc addr size) = size
request (release addr) = 0

step_account :
    (op : Op) (b : Buffers)
    → b.bused ≡ total b.live
    → b.bused + request op < 2 ^ 64
    → ((step op b).bused ≡ total (step op b).live) × ((step op b).bused ≤ b.bused + request op)
unfolding step
step_account (alloc none size) b h k = elim (Bool-cases (over_limit b size)) [
  | inl e ↦ rw (e, step) (h, omega arith)
  | inr e ↦ rw (e, step) (h, omega arith)
]
step_account (alloc (some a) size) b h k = elim (Bool-cases (over_limit b size)) [
  | inl e ↦ rw (e, step) (h, omega arith)
  | inr e ↦ rw (e, step) (omega arith, omega arith)
]
step_account (release none) b h k = (h, omega arith)
step_account (release (some a)) b h k = elim (Option-cases (size_at a b.live)) [
  | inl e ↦ rw (e, step) (h, omega arith)
  | inr (n, e) ↦ let split = total-free_at a n b.live e in rw (e, step) (omega arith, omega arith)
]

-- Each buffer that is released is live when it is released, or the null pointer.
abbrev pub AllLive : List Op → Buffers → Type 0
AllLive [] b = Unit
AllLive (alloc addr size ∷ ops) b = AllLive ops (step (alloc addr size) b)
AllLive (release none ∷ ops) b = AllLive ops b
AllLive (release (some a) ∷ ops) b =
    ((n : ℕ) × (size_at a b.live ≡ some n)) × AllLive ops (step (release (some a)) b)

run_from :
    (ops : List Op) (b : Buffers) (room : ℕ)
    → b.bused ≡ total b.live
    → b.bused + room < 2 ^ 64
    → AllBelow ops room
    → (run ops b).bused ≡ total (run ops b).live
unfolding run
run_from [] b room h k v = h
run_from (alloc addr size ∷ ops) b room h k v =
    let (used, most) = step_account (alloc addr size) b h (omega arith) in
    run_from ops (step (alloc addr size) b) (room - size) used (omega arith) v.1
run_from (release addr ∷ ops) b room h k v =
    let (used, most) = step_account (release addr) b h (omega arith) in
    run_from ops (step (release addr) b) room used (omega arith) v

-- After any sequence of buffer requests and releases, those that throw among them, in which each
-- buffer that is released is live or null, `bused` is the sum of the sizes of the live buffers. The
-- sizes of the requests together are below 2 ^ 64, and no buffer is live at the start.
pub bused-run :
    (ops : List Op) (limit : Option ℕ)
    → AllBelow ops (2 ^ 64 - 1)
    → AllLive ops record { bsize = limit; bused = 0; live = [] }
    → let b = run ops record { bsize = limit; bused = 0; live = [] } in b.bused ≡ total b.live
bused-run ops limit v defined =
    run_from ops record { bsize = limit; bused = 0; live = [] } (2 ^ 64 - 1) refl (omega arith) v
