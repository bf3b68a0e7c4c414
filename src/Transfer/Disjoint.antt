-- ===== src/Transfer/Disjoint.antt =====
-- src/H5VL_log_dataseti.cpp: the adjusted pieces of interleaving blocks do not overlap, and what is
-- copied for a piece that was trimmed.
use vol_log_based.Prelude.{
  ℕ, zero, suc, ◌+◌, ◌-◌, ◌≤◌, ◌<◌, ◌^◌, ◌≡◌, ◌↔◌, refl, arith, Bool-cases, inl, inr, ◌⊎◌, ap,
}
use vol_log_based.Prelude.{List, [], ◌∷◌, length, ltb, if◌then◌else◌, add64, sub64, All}
use vol_log_based.Transfer.{ReadPiece}
use vol_log_based.Transfer.Trim.{overlap, copy_ctx, trim_later, adjust_for, adjust}

-- The offsets of a piece are below those of a signed word.
abbrev pub Bounded : ReadPiece → Type 0
Bounded l = (l.foff + l.len < 2 ^ 63) × (l.moff + l.len < 2 ^ 63)

-- A piece that is not empty begins no earlier than the one in front of it.
abbrev pub NotBefore : ReadPiece → ReadPiece → Type 0
NotBefore k l = (l.len ≡ 0) ⊎ (k.foff ≤ l.foff)

-- A piece that is not empty begins behind the end of the one in front of it.
abbrev pub Behind : ReadPiece → ReadPiece → Type 0
Behind k l = (l.len ≡ 0) ⊎ (k.foff + k.len ≤ l.foff)

-- Of each two pieces in order.
abbrev pub EachPair : (ReadPiece → ReadPiece → Type 0) → List ReadPiece → Type 0
EachPair R [] = Unit
EachPair R (k ∷ ls) = All (R k) ls × EachPair R ls

adjusted : ReadPiece → ReadPiece → ReadPiece
adjusted k l = if ltb l.foff (add64 k.foff k.len) then trim_later k l else l

-- The overlap is the end of the former piece, or all of the later one.
overlap-cases :
    (k l : ReadPiece)
    → Bounded k
    → Bounded l
    → NotBefore k l
    → l.foff < k.foff + k.len
    → ((overlap k l ≡ l.len) × ((l.len ≡ 0) ⊎ (l.foff + l.len ≤ k.foff + k.len)))
      ⊎ ((l.foff + overlap k l ≡ k.foff + k.len) × (overlap k l ≤ l.len))
unfolding overlap
overlap-cases k l h g (inl e) lt = inl (omega (arith, e), inl e)
overlap-cases k l h g (inr le) lt =
    let whole : add64 (sub64 k.foff l.foff) k.len ≡ k.foff + k.len - l.foff =
      omega (arith, h, g, le, lt) in
    elim (Bool-cases (ltb (k.foff + k.len - l.foff) l.len)) [
      | inl e ↦ rw whole (inr (ground (arith, e, lt), ground (arith, e)))
      | inr e ↦ rw whole (inl (ground (arith, e), inr (ground (arith, e, lt))))
    ]

abbrev Adjusted : ReadPiece → ReadPiece → ReadPiece → Type 0
Adjusted k l l' =
    (l'.foff + l'.len ≡ l.foff + l.len)
    × (l.foff ≤ l'.foff)
    × Behind k l'
    × ((l'.foff ≡ l.foff) ⊎ (l'.foff ≤ k.foff + k.len))
    × Bounded l'

trimmed_lem :
    (k l : ReadPiece) (n : ℕ)
    → Bounded l
    → n ≤ l.len
    → ((n ≡ l.len) × ((l.len ≡ 0) ⊎ (l.foff + l.len ≤ k.foff + k.len)))
      ⊎ (l.foff + n ≡ k.foff + k.len)
    → Adjusted k l (record { foff = add64 l.foff n; moff = add64 l.moff n; len = sub64 l.len n })
trimmed_lem k l n g le c =
    let f : add64 l.foff n ≡ l.foff + n = omega (arith, g, le) in
    let m : add64 l.moff n ≡ l.moff + n = omega (arith, g, le) in
    let r : sub64 l.len n ≡ l.len - n = omega (arith, g, le) in
    rw (f, m, r)
      (omega (arith, le), omega arith, ground (arith, c), ground (arith, c), omega (arith, g, le))

-- A piece keeps its end, and what is left of it is behind the piece in front.
adjusted-cases :
    (k l : ReadPiece) → Bounded k → Bounded l → NotBefore k l → Adjusted k l (adjusted k l)
unfolding adjusted trim_later
adjusted-cases k l h g n = elim (Bool-cases (ltb l.foff (add64 k.foff k.len))) [
  | inl e ↦
      let lt : l.foff < k.foff + k.len = ground (arith, e, h) in
      elim (overlap-cases k l h g n lt) [
        | inl (all, part) ↦
            rw e (trimmed_lem k l (overlap k l) g (omega (arith, all)) (inl (all, part)))
        | inr (end, part) ↦ rw e (trimmed_lem k l (overlap k l) g part (inr end))
      ]
  | inr e ↦ rw e (refl, omega arith, inr (ground (arith, e, h)), inl refl, g)
]

-- Two pieces behind `k` stay in their order.
adjusted-pair :
    (k l m : ReadPiece)
    → Bounded k
    → Bounded l
    → Bounded m
    → NotBefore k l
    → NotBefore k m
    → NotBefore l m
    → NotBefore (adjusted k l) (adjusted k m)
adjusted-pair k l m hk hl hm kl km lm =
    let (e, le, beh, from, b) = adjusted-cases k l hk hl kl in
    let (e', le', beh', from', b') = adjusted-cases k m hk hm km in
    ground (arith, e, le, from, e', le', beh', lm)

adjusted_all : (k : ReadPiece) → List ReadPiece → List ReadPiece
adjusted_all k [] = []
adjusted_all k (l ∷ ls) = adjusted k l ∷ adjusted_all k ls

adjust_for-all : (k : ReadPiece) (ls : List ReadPiece) → (adjust_for k ls).0 ≡ adjusted_all k ls
unfolding adjust_for adjusted_all adjusted
adjust_for-all k [] = refl
adjust_for-all k (l ∷ ls) = elim (Bool-cases (ltb l.foff (add64 k.foff k.len))) [
  | inl e ↦ rw e (ap (λ r. trim_later k l ∷ r) (adjust_for-all k ls))
  | inr e ↦ rw e (ap (λ r. l ∷ r) (adjust_for-all k ls))
]

module _ (k : ReadPiece) (hk : Bounded k) where
  pairs-NotBefore :
      (l : ReadPiece) (ls : List ReadPiece)
      → Bounded l
      → NotBefore k l
      → All Bounded ls
      → All (NotBefore k) ls
      → All (NotBefore l) ls
      → All (NotBefore (adjusted k l)) (adjusted_all k ls)
  unfolding adjusted_all
  pairs-NotBefore l [] hl kl bs ks ps = tt
  pairs-NotBefore l (m ∷ ms) hl kl (b, bs) (n, ks) (p, ps) =
      (adjusted-pair k l m hk hl b kl n p, pairs-NotBefore l ms hl kl bs ks ps)

  All-kept :
      (ls : List ReadPiece)
      → All Bounded ls
      → All (NotBefore k) ls
      → EachPair NotBefore ls
      → All Bounded (adjusted_all k ls)
        × All (Behind k) (adjusted_all k ls)
        × EachPair NotBefore (adjusted_all k ls)
        × (length (adjusted_all k ls) ≡ length ls)
  unfolding adjusted_all
  All-kept [] bs ns ps = (tt, tt, tt, refl)
  All-kept (l ∷ ls) (b, bs) (n, ns) (p, ps) =
      let (e, le, beh, from, b') = adjusted-cases k l hk b n in
      let (bs', behs, ps', size) = All-kept ls bs ns ps in
      ((b', bs'), (beh, behs), (pairs-NotBefore l ls b n bs ns p, ps'), ap suc size)

-- A former piece keeps its end behind later adjustments, which move offsets only upwards.
Behind-kept :
    (k l m : ReadPiece)
    → Bounded l
    → Bounded m
    → NotBefore l m
    → Behind k m
    → Behind k (adjusted l m)
Behind-kept k l m hl hm n b =
    let (e, le, beh, from, b') = adjusted-cases l m hl hm n in ground (arith, e, le, b)

All-Behind :
    (k l : ReadPiece) (ls : List ReadPiece)
    → Bounded l
    → All Bounded ls
    → All (NotBefore l) ls
    → All (Behind k) ls
    → All (Behind k) (adjusted_all l ls)
unfolding adjusted_all
All-Behind k l [] hl bs ns hs = tt
All-Behind k l (m ∷ ms) hl (b, bs) (n, ns) (h, hs) =
    (Behind-kept k l m hl b n h, All-Behind k l ms hl bs ns hs)

adjust-Behind :
    (n : ℕ) (k : ReadPiece) (ls : List ReadPiece)
    → All Bounded ls
    → EachPair NotBefore ls
    → All (Behind k) ls
    → All (Behind k) (adjust n ls).0
unfolding adjust
adjust-Behind zero k ls bs ps hs = hs
adjust-Behind (suc n) k [] bs ps hs = tt
adjust-Behind (suc n) k (l ∷ ls) (b, bs) (p, ps) (h, hs) =
    let (bs', behs, ps', size) = All-kept l b ls bs p ps in
    (
      h,
      rw (adjust_for-all l ls)
          (adjust-Behind n k (adjusted_all l ls) bs' ps' (All-Behind k l ls b bs p hs)),
    )

-- For pieces in the order of their offsets, all below 2 ^ 63: with a turn for each piece, the
-- adjustment leaves as many pieces, of which each begins behind the end of those in front of it or
-- is empty.
pub adjust-EachPair :
    (n : ℕ) (ls : List ReadPiece)
    → length ls ≡ n
    → All Bounded ls
    → EachPair NotBefore ls
    → EachPair Behind (adjust n ls).0 × (length (adjust n ls).0 ≡ n)
unfolding adjust
adjust-EachPair zero [] e bs ps = (tt, refl)
adjust-EachPair zero (k ∷ ls) e bs ps = absurd (omega (arith, e))
adjust-EachPair (suc n) [] e bs ps = absurd (omega (arith, e))
adjust-EachPair (suc n) (k ∷ ls) e (b, bs) (p, ps) =
    let (bs', behs, ps', size) = All-kept k b ls bs p ps in
    let (rest, count) = adjust-EachPair n (adjusted_all k ls) (omega (arith, e, size)) bs' ps' in
    rw (adjust_for-all k ls)
      ((adjust-Behind n k (adjusted_all k ls) bs' ps' behs, rest), ap suc count)

-- For a piece that overlaps a former one, both below 2 ^ 63: the copy takes the bytes that the
-- former piece has at the later one's offset exactly when the later one does not end first.
pub copy_ctx_iff :
    (k l : ReadPiece)
    → Bounded k
    → Bounded l
    → k.foff ≤ l.foff
    → l.foff < k.foff + k.len
    → ((copy_ctx k l).src ≡ k.moff + (l.foff - k.foff)) ↔ (k.foff + k.len ≤ l.foff + l.len)
unfolding copy_ctx
copy_ctx_iff k l h g le lt = elim (overlap-cases k l h g (inr le) lt) [
  | inl (all, part) ↦
      let small : overlap k l ≤ k.len = ground (arith, all, part, le) in
      let src : add64 (sub64 k.moff (overlap k l)) k.len ≡ k.moff + k.len - overlap k l =
        omega (arith, h, small) in
      rw src (ground (arith, all, part, le, lt, small))
  | inr (end, part) ↦
      let small : overlap k l ≤ k.len = omega (arith, end, le) in
      let src : add64 (sub64 k.moff (overlap k l)) k.len ≡ k.moff + k.len - overlap k l =
        omega (arith, h, small) in
      rw src (λ e. omega (arith, end, part), λ e. omega (arith, end, le, small))
]
