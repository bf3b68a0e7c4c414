-- ===== src/Transfer/Sort.antt =====
-- src/H5VL_log_dataseti.cpp: `sortoffsets`. The three arrays, which are changed together, are one
-- array of pieces, and a pointer into them is an index.
use vol_log_based.Prelude.{
  ℕ, zero, suc, ◌+◌, ◌-◌, ◌/◌, Bool, true, false, Option, none, some, ltb, ◌==◌, if◌then◌else◌,
}
use vol_log_based.Transfer.{ReadPiece}

abbrev pub Offsets : Type 0
Offsets = ℕ → ReadPiece

-- `OSWAP`.
unfoldable pub oswap : ℕ → ℕ → Offsets → Offsets
oswap i j a p = if p == i then a j else if p == j then a i else a p

-- The inner loop over `i` of the short sort, with the flag `j`; `n` is the number of turns.
unfoldable pub bubble_pass : ℕ → ℕ → Offsets → Bool → Offsets × Bool
bubble_pass zero i a j = (a, j)
bubble_pass (suc n) i a j =
    let out_of_order = ltb (a (suc i)).foff (a i).foff in
    bubble_pass n (suc i) (if out_of_order then oswap i (suc i) a else a)
      (if out_of_order then true else j)

-- `while (j)`, which starts with a pass; `none` is the end of the fuel.
unfoldable pub bubble : ℕ → ℕ → ℕ → Offsets → Option Offsets
unfolding bubble_pass
bubble zero lo len a = none
bubble (suc fuel) lo len a =
    let pass = bubble_pass (len - 1) lo a false in
    let again = bubble fuel lo len pass.0 in if pass.1 then again else some pass.0

-- The loop over `i` of the partition by the pivot at `p`.
unfoldable pub partition_loop : ℕ → ℕ → ℕ → ℕ → Offsets → Offsets × ℕ
partition_loop zero p i j a = (a, j)
partition_loop (suc n) p i j a =
    let less = ltb (a i).foff (a p).foff in
    partition_loop n p (suc i) (if less then suc j else j)
      (if less then (if i == j then a else oswap i j a) else a)

-- The pivot is taken from the middle to the end, and comes behind the smaller pieces.
unfoldable pub partition : ℕ → ℕ → Offsets → Offsets × ℕ
unfolding partition_loop
partition lo len a =
    let p = lo + (len - 1) in
    let parts = partition_loop len p lo lo (oswap (lo + len / 2) p a) in
    (oswap p parts.1 parts.0, parts.1)

-- `sortoffsets` of the `len` pieces from `lo` on.
unfoldable pub sortoffsets : ℕ → ℕ → ℕ → Offsets → Option Offsets
unfolding bubble partition oswap
sortoffsets zero lo len a = none
sortoffsets (suc fuel) lo len a = elim (ltb len 16) [
  | true ↦ bubble (suc len) lo len a
  | false ↦
      let parts = partition lo len a in
      elim (sortoffsets fuel lo (parts.1 - lo) parts.0) [
        | none ↦ none
        | some b ↦ sortoffsets fuel (suc parts.1) (lo + len - suc parts.1) b
      ]
]
