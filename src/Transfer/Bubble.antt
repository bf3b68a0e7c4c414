-- ===== src/Transfer/Bubble.antt =====
-- src/H5VL_log_dataseti.cpp: the short sort of `sortoffsets`.
use vol_log_based.Prelude.{
  ℕ, zero, suc, ◌+◌, ◌-◌, ◌≤◌, ◌<◌, ◌≡◌, refl, arith, Bool-cases, inl, inr, ◌⊎◌,
}
use vol_log_based.Prelude.{Bool, true, false, Option, none, some, ltb, ltb→lt, if◌then◌else◌, min}
use vol_log_based.Transfer.Sort.{Offsets, oswap, bubble_pass, bubble}
use vol_log_based.Transfer.Exchange.{Exchanged, same, swapped, Exchanged-join}

-- The offsets from `lo` on and in front of `hi` ascend.
abbrev pub Ascends : ℕ → ℕ → Offsets → Type 0
Ascends lo hi a = (p q : ℕ) → lo ≤ p → p ≤ q → q < hi → (a p).foff ≤ (a q).foff

-- Each offset from `t` on is as great as those in front of it.
abbrev TailAscends : ℕ → ℕ → ℕ → Offsets → Type 0
TailAscends lo hi t a = (p q : ℕ) → lo ≤ p → p ≤ q → t ≤ q → q < hi → (a p).foff ≤ (a q).foff

-- The offset at `m` is as great as those in front of it.
abbrev IsTop : ℕ → ℕ → Offsets → Type 0
IsTop lo m a = (p : ℕ) → lo ≤ p → p ≤ m → (a p).foff ≤ (a m).foff

-- A turn of the loop.
turn : ℕ → Offsets → Offsets
turn i a = if ltb (a (suc i)).foff (a i).foff then oswap i (suc i) a else a

turn-Exchanged : (lo hi i : ℕ) (a : Offsets) → lo ≤ i → suc i < hi → Exchanged lo hi a (turn i a)
unfolding turn
turn-Exchanged lo hi i a h k = elim (Bool-cases (ltb (a (suc i)).foff (a i).foff)) [
  | inl e ↦ rw e (swapped i (suc i) same h (omega arith) (omega arith) k)
  | inr e ↦ rw e same
]

-- Behind a turn, the greater of the two offsets comes second.
turn-cases :
    (i : ℕ) (a : Offsets)
    → ((turn i a ≡ a) × ((a i).foff ≤ (a (suc i)).foff))
      ⊎ ((turn i a ≡ oswap i (suc i) a) × ((a (suc i)).foff < (a i).foff))
unfolding turn
turn-cases i a = elim (Bool-cases (ltb (a (suc i)).foff (a i).foff)) [
  | inl e ↦ inr (rw e refl, ltb→lt (a (suc i)).foff (a i).foff e)
  | inr e ↦ inl (rw e refl, ground (arith, e))
]

pass-Exchanged :
    (lo hi n i : ℕ) (a : Offsets) (j : Bool)
    → lo ≤ i
    → i + n < hi
    → Exchanged lo hi a (bubble_pass n i a j).0
unfolding bubble_pass turn
pass-Exchanged lo hi zero i a j h k = same
pass-Exchanged lo hi (suc n) i a j h k =
    Exchanged-join (turn-Exchanged lo hi i a h (omega (arith, k))) (
      pass-Exchanged lo hi n (suc i) (turn i a)
        (if ltb (a (suc i)).foff (a i).foff then true else j) (omega (arith, h)) (omega (arith, k)))

-- A pass that exchanges nothing has found neighbours in order.
pass-false :
    (n i : ℕ) (a : Offsets) (j : Bool)
    → (bubble_pass n i a j).1 ≡ false
    → (j ≡ false)
      × ((bubble_pass n i a j).0 ≡ a)
      × ((p : ℕ) → i ≤ p → p < i + n → (a p).foff ≤ (a (suc p)).foff)
unfolding bubble_pass
pass-false zero i a j h = (h, refl, λ p l u. absurd (omega (arith, l, u)))
pass-false (suc n) i a j h = elim (Bool-cases (ltb (a (suc i)).foff (a i).foff)) [
  | inl e ↦
      let (f, g, k) = pass-false n (suc i) (oswap i (suc i) a) true (rw (e, bubble_pass) at h) in
      cc f
  | inr e ↦
      let (f, g, k) = pass-false n (suc i) a j (rw (e, bubble_pass) at h) in
      (
        f,
        rw (e, bubble_pass) g,
        λ p l u. elim (Bool-cases (ltb i p)) [
          | inl later ↦ k p (ground (arith, later)) (omega (arith, u))
          | inr here ↦ let at : p ≡ i = ground (arith, here, l) in rw at (ground (arith, e))
        ],
      )
]

Ascends-neighbours :
    (lo n : ℕ) (a : Offsets)
    → ((p : ℕ) → lo ≤ p → p < lo + n → (a p).foff ≤ (a (suc p)).foff)
    → (p d : ℕ) → lo ≤ p
    → p + d ≤ lo + n
    → (a p).foff ≤ (a (p + d)).foff
Ascends-neighbours lo n a h p zero l u = let e : p + 0 ≡ p = omega arith in rw e (omega arith)
Ascends-neighbours lo n a h p (suc d) l u =
    let e : p + suc d ≡ suc (p + d) = omega arith in
    let before = Ascends-neighbours lo n a h p d l (omega (arith, u)) in
    let next = h (p + d) (omega (arith, l)) (omega (arith, u)) in rw e (omega (arith, before, next))

swap-tail :
    (lo hi t i : ℕ) (a : Offsets)
    → lo ≤ i
    → i < t
    → TailAscends lo hi (suc t) a
    → TailAscends lo hi (suc t) (oswap i (suc i) a)
unfolding oswap
swap-tail lo hi t i a h f tail p q l m n u = ground (
  arith,
  tail p q l m n u,
  tail i q h (omega arith) n u,
  tail (suc i) q (omega arith) (omega arith) n u,
)

swap-IsTop :
    (lo i : ℕ) (a : Offsets)
    → (a (suc i)).foff < (a i).foff
    → IsTop lo i a
    → IsTop lo (suc i) (oswap i (suc i) a)
unfolding oswap
swap-IsTop lo i a lt top p l u = ground (arith, top p l)

stay-IsTop :
    (lo i : ℕ) (a : Offsets) → (a i).foff ≤ (a (suc i)).foff → IsTop lo i a → IsTop lo (suc i) a
stay-IsTop lo i a le top p l u = elim (Bool-cases (ltb i p)) [
  | inl e ↦ let at : p ≡ suc i = ground (arith, e, u) in rw at (omega arith)
  | inr e ↦ let before = top p l (ground (arith, e)) in omega (arith, before, le)
]

-- A turn keeps the tail behind `t`, and the greatest offset moves on with it.
turn-tail :
    (lo hi t i : ℕ) (a : Offsets)
    → lo ≤ i
    → suc i < hi
    → TailAscends lo hi (suc t) a
    → IsTop lo (min i t) a
    → TailAscends lo hi (suc t) (turn i a) × IsTop lo (min (suc i) t) (turn i a)
turn-tail lo hi t i a h k tail top = elim (turn-cases i a) [
  | inl (e, le) ↦ rw e (
    tail,
    elim (Bool-cases (ltb i t)) [
      | inl f ↦
          let m : min i t ≡ i = ground (arith, f) in
          let m' : min (suc i) t ≡ suc i = ground (arith, f) in
          rw m' (stay-IsTop lo i a le (rw m at top))
      | inr f ↦
          let m : min i t ≡ t = ground (arith, f) in
          let m' : min (suc i) t ≡ t = ground (arith, f) in rw m' (rw m at top)
    ],
  )
  | inr (e, lt) ↦ elim (Bool-cases (ltb i t)) [
    | inl f ↦
        let m : min i t ≡ i = ground (arith, f) in
        let m' : min (suc i) t ≡ suc i = ground (arith, f) in
        rw (e, m') (swap-tail lo hi t i a h (ltb→lt i t f) tail, swap-IsTop lo i a lt (rw m at top))
    | inr f ↦
        let le = tail i (suc i) h (omega arith) (ground (arith, f)) k in
        absurd (omega (arith, le, lt))
  ]
]

-- Behind a whole pass, the tail begins one element earlier.
pass-tail :
    (lo hi t n i : ℕ) (a : Offsets) (j : Bool)
    → lo ≤ i
    → suc (i + n) ≡ hi
    → t < hi
    → TailAscends lo hi (suc t) a
    → IsTop lo (min i t) a
    → TailAscends lo hi t (bubble_pass n i a j).0
unfolding bubble_pass turn
pass-tail lo hi t zero i a j h k u tail top = λ p q l m n v.
    let end : min i t ≡ t = ground (arith, k) in
    elim (Bool-cases (ltb t q)) [
      | inl e ↦ tail p q l m (ground (arith, e)) v
      | inr e ↦
          let at : q ≡ t = ground (arith, e, n) in
          rw at (rw end at (top p l (omega (arith, at, m, end))))
    ]
pass-tail lo hi t (suc n) i a j h k u tail top =
    let (tail', top') = turn-tail lo hi t i a h (omega (arith, k)) tail top in
    pass-tail lo hi t n (suc i) (turn i a) (if ltb (a (suc i)).foff (a i).foff then true else j)
      (omega (arith, h)) (omega (arith, k)) u tail' top'

-- A pass over ascending offsets finds nothing to exchange.
pass_stops :
    (lo hi n i : ℕ) (a : Offsets)
    → lo ≤ i
    → i + n < hi
    → Ascends lo hi a
    → (bubble_pass n i a false).1 ≡ false
unfolding bubble_pass
pass_stops lo hi zero i a h k asc = refl
pass_stops lo hi (suc n) i a h k asc =
    let le = asc i (suc i) h (omega arith) (omega (arith, k)) in
    let in_order : ltb (a (suc i)).foff (a i).foff ≡ false = ground (arith, le) in
    rw (in_order, bubble_pass)
      (pass_stops lo hi n (suc i) a (omega (arith, h)) (omega (arith, k)) asc)

-- What a sort has done when it ends.
abbrev pub IsSortOf : ℕ → ℕ → Offsets → Option Offsets → Type 0
IsSortOf lo hi a none = ⊥
IsSortOf lo hi a (some b) = Exchanged lo hi a b × Ascends lo hi b

IsSortOf-join :
    (lo hi : ℕ) (a b : Offsets) (r : Option Offsets)
    → Exchanged lo hi a b
    → IsSortOf lo hi b r
    → IsSortOf lo hi a r
IsSortOf-join lo hi a b none x s = s
IsSortOf-join lo hi a b (some c) x (y, asc) = (Exchanged-join x y, asc)

-- A pass that exchanges nothing has found the pieces sorted.
pass-Ascends :
    (lo len : ℕ) (a : Offsets)
    → (bubble_pass (len - 1) lo a false).1 ≡ false
    → Ascends lo (lo + len) (bubble_pass (len - 1) lo a false).0
pass-Ascends lo len a h =
    let (f, g, k) = pass-false (len - 1) lo a false h in
    rw g (λ p q l m u.
      let apart : p + (q - p) ≡ q = omega (arith, m) in
      rw apart at (Ascends-neighbours lo (len - 1) a k p (q - p) l (omega (arith, apart, u))))

-- A pass that leaves a longer ascending tail, or one behind which all ascends.
first-tail :
    (lo len t : ℕ) (a : Offsets)
    → t < len
    → TailAscends lo (lo + len) (lo + suc t) a
    → TailAscends lo (lo + len) (lo + t) (bubble_pass (len - 1) lo a false).0
first-tail lo len t a small tail =
    let start : min lo (lo + t) ≡ lo = ground arith in
    let next : lo + suc t ≡ suc (lo + t) = omega arith in
    pass-tail lo (lo + len) (lo + t) (len - 1) lo a false (omega arith) (omega (arith, small))
      (omega (arith, small)) (rw next at tail)
      (rw start (λ p l u. let at : p ≡ lo = omega (arith, l, u) in rw at (omega arith)))

-- The loop ends sorted, with a turn for each element in front of the tail and one more.
bubble-tail :
    (fuel lo len t : ℕ) (a : Offsets)
    → 0 < len
    → t ≤ len
    → t ≤ fuel
    → TailAscends lo (lo + len) (lo + t) a
    → IsSortOf lo (lo + len) a (bubble (suc fuel) lo len a)
unfolding bubble
bubble-tail fuel lo len zero a pos small enough tail =
    let start : lo + 0 ≡ lo = omega arith in
    let asc : Ascends lo (lo + len) a = λ p q l m u. tail p q l m (omega (arith, l, m, start)) u in
    let moved =
      pass-Exchanged lo (lo + len) (len - 1) lo a false (omega arith) (omega (arith, pos)) in
    let e = pass_stops lo (lo + len) (len - 1) lo a (omega arith) (omega (arith, pos)) asc in
    rw (e, bubble) (moved, pass-Ascends lo len a e)
bubble-tail zero lo len (suc t) a pos small enough tail = absurd (omega (arith, enough))
bubble-tail (suc fuel) lo len (suc t) a pos small enough tail =
    let moved =
      pass-Exchanged lo (lo + len) (len - 1) lo a false (omega arith) (omega (arith, pos)) in
    let b = (bubble_pass (len - 1) lo a false).0 in
    let rest =
      bubble-tail fuel lo len t b pos (omega (arith, small)) (omega (arith, enough))
        (first-tail lo len t a small tail) in
    elim (Bool-cases (bubble_pass (len - 1) lo a false).1) [
      | inr e ↦ rw (e, bubble) (moved, pass-Ascends lo len a e)
      | inl e ↦
          rw (e, bubble) (IsSortOf-join lo (lo + len) a b (bubble (suc fuel) lo len b) moved rest)
    ]

pub bubble-IsSortOf :
    (lo len : ℕ) (a : Offsets) → IsSortOf lo (lo + len) a (bubble (suc len) lo len a)
unfolding bubble bubble_pass
bubble-IsSortOf lo zero a = (same, λ p q l m u. absurd (omega (arith, l, m, u)))
bubble-IsSortOf lo (suc n) a =
    bubble-tail (suc n) lo (suc n) (suc n) a (omega arith) (omega arith) (omega arith)
      (λ p q l m t u. absurd (omega (arith, t, u)))
