-- ===== src/Transfer/Sorted.antt =====
-- src/H5VL_log_dataseti.cpp: `sortoffsets` sorts.
use vol_log_based.Prelude.{ℕ, zero, suc, ◌+◌, ◌-◌, ◌≤◌, ◌<◌, ◌≡◌, arith, Bool-cases, inl, inr, ◌∙◌}
use vol_log_based.Prelude.{ltb, ltb→lt, Option-cases}
use vol_log_based.Transfer.Sort.{Offsets, partition, sortoffsets}
use vol_log_based.Transfer.Exchange.{
  Exchanged, Exchanged-join, Exchanged-widen, Exchanged-All, Exchanged-outside,
}
use vol_log_based.Transfer.Bubble.{Ascends, IsSortOf, bubble-IsSortOf}
use vol_log_based.Transfer.Partition.{IsPartitioned, partition-IsPartitioned}

-- Both sides of a partition sorted are the whole sorted.
sides-Ascend :
    (lo hi j : ℕ) (a b c d : Offsets)
    → IsPartitioned lo hi a (b, j)
    → Exchanged lo j b c
    → Ascends lo j c
    → Exchanged (suc j) hi c d
    → Ascends (suc j) hi d
    → Exchanged lo hi a d × Ascends lo hi d
sides-Ascend lo hi j a b c d (x, low, high, below, above) y left z right =
    let whole = Exchanged-join x (
      Exchanged-join (Exchanged-widen lo hi y (omega arith) (omega (arith, high)))
        (Exchanged-widen lo hi z (omega (arith, low)) (omega arith))) in
    let pivot : d j ≡ b j =
      Exchanged-outside j z (inl (omega arith)) ∙ Exchanged-outside j y (inr (omega arith)) in
    let front : (q : ℕ) → lo ≤ q → q < j → (d q).foff ≤ (d j).foff = λ q m u.
      let stays = Exchanged-outside q z (inl (omega (arith, u))) in
      rw (pivot, stays) (Exchanged-All (λ piece. piece.foff ≤ (b j).foff) y below q m u) in
    let back : (q : ℕ) → j < q → q < hi → (d j).foff ≤ (d q).foff = λ q m u. rw pivot (
      Exchanged-All (λ piece. (b j).foff ≤ piece.foff) z
        (λ r n v.
          let stays = Exchanged-outside r y (inr (omega (arith, n))) in rw stays (above r n v))
        q m u) in
    let up_to : (q : ℕ) → lo ≤ q → q ≤ j → (d q).foff ≤ (d j).foff = λ q m u.
      elim (Bool-cases (ltb q j)) [
        | inl e ↦ front q m (ltb→lt q j e)
        | inr e ↦ let at : q ≡ j = ground (arith, e, u) in rw at (omega arith)
      ] in
    let from : (q : ℕ) → j ≤ q → q < hi → (d j).foff ≤ (d q).foff = λ q m u.
      elim (Bool-cases (ltb j q)) [
        | inl e ↦ back q (ltb→lt j q e) u
        | inr e ↦ let at : q ≡ j = ground (arith, e, m) in rw at (omega arith)
      ] in
    (
      whole,
      λ p q l m u. elim (Bool-cases (ltb q j)) [
        | inl e ↦
            let q' : q < j = ltb→lt q j e in
            let p-stays = Exchanged-outside p z (inl (omega (arith, m, q'))) in
            let q-stays = Exchanged-outside q z (inl (omega (arith, q'))) in
            rw (p-stays, q-stays) (left p q l m q')
        | inr e ↦ elim (Bool-cases (ltb j p)) [
          | inl f ↦ right p q (ground (arith, f)) m u
          | inr f ↦ omega (arith, up_to p l (ground (arith, f)), from q (ground (arith, e)) u)
        ]
      ],
    )

-- `sortoffsets` ends, with fuel for as many calls as there are pieces, and has put the pieces into
-- an order in which the offsets ascend; every piece is kept, and so are those outside.
pub sortoffsets-IsSortOf :
    (fuel lo len : ℕ) (a : Offsets)
    → len < fuel
    → IsSortOf lo (lo + len) a (sortoffsets fuel lo len a)
unfolding sortoffsets
sortoffsets-IsSortOf zero lo len a enough = absurd (omega (arith, enough))
sortoffsets-IsSortOf (suc fuel) lo len a enough = elim (Bool-cases (ltb len 16)) [
  | inl e ↦ rw (e, sortoffsets) (bubble-IsSortOf lo len a)
  | inr e ↦
      let b = (partition lo len a).0 in
      let j = (partition lo len a).1 in
      let parted = partition-IsPartitioned lo len a (ground (arith, e)) in
      let low = parted.1 in
      let high = parted.2 in
      let end : lo + (j - lo) ≡ j = omega (arith, low) in
      let left = sortoffsets-IsSortOf fuel lo (j - lo) b (omega (arith, high, enough)) in
      elim (Option-cases (sortoffsets fuel lo (j - lo) b)) [
        | inl f ↦ absurd (rw f at left)
        | inr (c, f) ↦
            let (y, asc) = rw (f, end) at left in
            let right =
              sortoffsets-IsSortOf fuel (suc j) (lo + len - suc j) c (omega (arith, low, enough)) in
            let end' : suc j + (lo + len - suc j) ≡ lo + len = omega (arith, high) in
            elim (Option-cases (sortoffsets fuel (suc j) (lo + len - suc j) c)) [
              | inl g ↦ absurd (rw g at right)
              | inr (d, g) ↦
                  let (z, asc') = rw (g, end') at right in
                  rw (e, f, g, sortoffsets)
                    (sides-Ascend lo (lo + len) j a b c d parted y asc z asc')
            ]
      ]
]
