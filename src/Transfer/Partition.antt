-- ===== src/Transfer/Partition.antt =====
-- src/H5VL_log_dataseti.cpp: the partition of `sortoffsets`.
use vol_log_based.Prelude.{
  ℕ, zero, suc, ◌+◌, ◌-◌, ◌/◌, ◌≤◌, ◌<◌, ◌≡◌, refl, arith, Bool-cases, inl, inr, sym, ◌∙◌, ap,
}
use vol_log_based.Prelude.{ltb, ltb→lt, if◌then◌else◌, ◌==◌, ==_iff}
use vol_log_based.Transfer.Sort.{Offsets, oswap, partition_loop, partition}
use vol_log_based.Transfer.Exchange.{
  Exchanged, same, swapped, Exchanged-join, oswap_left, oswap_right, oswap_other,
}

-- The loop at `i`, with the smaller pieces in front of `j`, the others behind, and the pivot at `p`.
abbrev Split : ℕ → ℕ → ℕ → ℕ → Offsets → Type 0
Split lo p i j a =
    ((q : ℕ) → lo ≤ q → q < j → (a q).foff < (a p).foff)
    × ((q : ℕ) → j ≤ q → q < i → (a p).foff ≤ (a q).foff)

-- A smaller piece at `i` is exchanged with the one at `j`.
step : ℕ → ℕ → Offsets → Offsets
step i j a = if i == j then a else oswap i j a

step_lem :
    (i j q : ℕ) (a : Offsets)
    → (step i j a j ≡ a i) × (step i j a i ≡ a j) × ((q ≡ i → ⊥) → (q ≡ j → ⊥) → step i j a q ≡ a q)
unfolding step
step_lem i j q a = elim (Bool-cases (i == j)) [
  | inl e ↦ let at : i ≡ j = (==_iff i j).0 e in rw e (ap a (sym at), ap a at, λ n m. refl)
  | inr e ↦ rw e (oswap_right i j a, oswap_left i j a, λ n m. oswap_other i j q a n m)
]

step-Exchanged :
    (lo hi i j : ℕ) (a : Offsets)
    → lo ≤ i
    → i < hi
    → lo ≤ j
    → j < hi
    → Exchanged lo hi a (step i j a)
unfolding step
step-Exchanged lo hi i j a h k l m = elim (Bool-cases (i == j)) [
  | inl e ↦ rw e same
  | inr e ↦ rw e (swapped i j same h k l m)
]

step-Split :
    (lo p i j : ℕ) (a : Offsets)
    → lo ≤ j
    → j ≤ i
    → i < p
    → (a i).foff < (a p).foff
    → Split lo p i j a
    → Split lo p (suc i) (suc j) (step i j a) × (step i j a p ≡ a p)
step-Split lo p i j a h k l lt (below, above) =
    let (first, second, other) = step_lem i j p a in
    let pivot : step i j a p ≡ a p =
      other (λ e. omega (arith, e, l)) (λ e. omega (arith, e, k, l)) in
    (
      (
        λ q m n. elim (Bool-cases (q == j)) [
          | inl e ↦ let at : q ≡ j = (==_iff q j).0 e in rw (at, pivot, first) lt
          | inr e ↦
              let front : q < j = ground (arith, e, n) in
              let stays =
                (step_lem i j q a).2 (λ x. omega (arith, x, front, k))
                  (λ x. omega (arith, x, front)) in
              rw (pivot, stays) (below q m front)
        ],
        λ q m n. elim (Bool-cases (q == i)) [
          | inl e ↦
              let at : q ≡ i = (==_iff q i).0 e in
              rw (at, pivot, second) (above j (omega arith) (omega (arith, at, m)))
          | inr e ↦
              let stays =
                (step_lem i j q a).2 (λ x. ground (arith, e, x)) (λ x. omega (arith, x, m)) in
              rw (pivot, stays) (above q (omega (arith, m)) (ground (arith, e, n)))
        ],
      ),
      pivot,
    )

-- What a loop that stands at `i` has when it ends at `p + 1`.
abbrev Parted : ℕ → ℕ → Offsets → Offsets × ℕ → Type 0
Parted lo p a r =
    Exchanged lo (suc p) a r.0 × (lo ≤ r.1) × (r.1 ≤ p) × (r.0 p ≡ a p) × Split lo p (suc p) r.1 r.0

loop-Parted :
    (n lo p i j : ℕ) (a : Offsets)
    → lo ≤ j
    → j ≤ i
    → j ≤ p
    → i + n ≡ suc p
    → Split lo p i j a
    → Parted lo p a (partition_loop n p i j a)
unfolding partition_loop step
loop-Parted zero lo p i j a h k l e split =
    let at : i ≡ suc p = omega (arith, e) in (same, h, l, refl, rw at at split)
loop-Parted (suc n) lo p i j a h k l e (below, above) =
    elim (Bool-cases (ltb (a i).foff (a p).foff)) [
      | inl f ↦
          let lt = ltb→lt (a i).foff (a p).foff f in
          let front : i < p = elim (Bool-cases (i == p)) [
            | inl at ↦
                let same_place : i ≡ p = (==_iff i p).0 at in
                absurd (omega (arith, rw same_place at lt))
            | inr apart ↦ ground (arith, apart, e)
          ] in
          let (split, pivot) = step-Split lo p i j a h k front lt (below, above) in
          let (x, low, high, keeps, rest) =
            loop-Parted n lo p (suc i) (suc j) (step i j a) (omega (arith, h)) (omega (arith, k))
              (omega (arith, k, front)) (omega (arith, e)) split in
          let first =
            step-Exchanged lo (suc p) i j a (omega (arith, h, k)) (omega (arith, front)) h
              (omega (arith, l)) in
          rw (f, partition_loop) (Exchanged-join first x, low, high, keeps ∙ pivot, rest)
      | inr f ↦
          let next = loop-Parted n lo p (suc i) j a h (omega (arith, k)) l (omega (arith, e)) (
            below,
            λ q m u. elim (Bool-cases (q == i)) [
              | inl at ↦ let here : q ≡ i = (==_iff q i).0 at in rw here (ground (arith, f))
              | inr apart ↦ above q m (ground (arith, apart, u))
            ],
          ) in
          rw (f, partition_loop) next
    ]

-- What a partition leaves: the pivot's place, with smaller offsets in front and no smaller behind.
abbrev pub IsPartitioned : ℕ → ℕ → Offsets → Offsets × ℕ → Type 0
IsPartitioned lo hi a r =
    Exchanged lo hi a r.0
    × (lo ≤ r.1)
    × (r.1 < hi)
    × ((q : ℕ) → lo ≤ q → q < r.1 → (r.0 q).foff ≤ (r.0 r.1).foff)
    × ((q : ℕ) → r.1 < q → q < hi → (r.0 r.1).foff ≤ (r.0 q).foff)

swap-IsPartitioned :
    (lo p j : ℕ) (a b : Offsets)
    → Exchanged lo (suc p) a b
    → lo ≤ j
    → j ≤ p
    → Split lo p (suc p) j b
    → IsPartitioned lo (suc p) a (oswap p j b, j)
swap-IsPartitioned lo p j a b x low high (below, above) =
    let pivot = oswap_right p j b in
    (
      swapped p j x (omega (arith, low, high)) (omega arith) low (omega (arith, high)),
      low,
      omega (arith, high),
      λ q m u.
          let stays =
            oswap_other p j q b (λ e. omega (arith, e, u, high)) (λ e. omega (arith, e, u)) in
          let lt = below q m u in rw (pivot, stays) (omega (arith, lt)),
      λ q m u. elim (Bool-cases (q == p)) [
        | inl e ↦
            let at : q ≡ p = (==_iff q p).0 e in
            let moved = oswap_left p j b in
            rw (at, pivot, moved) (above j (omega arith) (omega (arith, high)))
        | inr e ↦
            let stays =
              oswap_other p j q b (λ y. ground (arith, e, y)) (λ y. omega (arith, y, m)) in
            rw (pivot, stays) (above q (omega (arith, m)) u)
      ],
    )

pub partition-IsPartitioned :
    (lo len : ℕ) (a : Offsets) → 0 < len → IsPartitioned lo (lo + len) a (partition lo len a)
unfolding partition
partition-IsPartitioned lo len a pos =
    let p : ℕ = lo + (len - 1) in
    let last : lo + len ≡ suc (lo + (len - 1)) = omega (arith, pos) in
    let b = oswap (lo + len / 2) (lo + (len - 1)) a in
    let r = partition_loop len (lo + (len - 1)) lo lo b in
    let first : Exchanged lo (suc (lo + (len - 1))) a b =
      swapped (lo + len / 2) (lo + (len - 1)) same (omega arith) (omega (arith, pos)) (omega arith)
        (omega arith) in
    let (x, low, high, keeps, split) =
      loop-Parted len lo (lo + (len - 1)) lo lo b (omega arith) (omega arith) (omega arith) last
        (λ q m u. absurd (omega (arith, m, u)), λ q m u. absurd (omega (arith, m, u))) in
    rw last
      (swap-IsPartitioned lo (lo + (len - 1)) r.1 a r.0 (Exchanged-join first x) low high split)
