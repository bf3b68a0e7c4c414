-- ===== src/Transfer/Nested.antt =====
-- src/H5VL_log_dataseti.cpp: the breakdown into rows is a loop in each dimension.
use vol_log_based.Prelude.{
  ℕ, zero, suc, ◌-◌, ◌*◌, ◌≤◌, ◌<◌, ◌≡◌, refl, sym, ap, ◌∙◌, arith, Bool-cases, inl, inr, ◌⊎◌,
}
use vol_log_based.Prelude.{
  Bool, true, false, List, [], ◌∷◌, ◌++◌, map, some, ltb, leb, lt→ltb, le→leb, if◌then◌else◌, hd,
  tl, replicate, length, length-append, length-map,
}
use vol_log_based.Transfer.Rows.{
  ReadBlock, row_piece, carry, next_position, each_row, positions, break_down,
}
use mathlib.Core.Option

-- Each of the numbers from `i` on, `len` of them, in front of each of the positions behind.
abbrev pub span : ℕ → ℕ → List (List ℕ) → List (List ℕ)
span i zero behind = []
span i (suc len) behind = map (λ r. i ∷ r) behind ++ span (suc i) len behind

-- The positions of nested loops over `n` dimensions, in order.
abbrev pub nested : ℕ → List ℕ → List (List ℕ)
nested zero count = [] ∷ []
nested (suc n) count = span 0 (hd count) (nested n (tl count))

-- The positions of the nested loops from `ctr` on.
abbrev from : ℕ → List ℕ → List ℕ → List (List ℕ)
from zero count ctr = [] ∷ []
from (suc n) count [] = []
from (suc n) count (c ∷ cs) =
    map (λ r. c ∷ r) (from n (tl count) cs) ++ span (suc c) (hd count - suc c) (nested n (tl count))

abbrev Within : ℕ → List ℕ → List ℕ → Type 0
Within zero count ctr = ctr ≡ []
Within (suc n) count [] = ⊥
Within (suc n) count (c ∷ cs) = (c < hd count) × Within n (tl count) cs

leb-lt : (a b : ℕ) → b < a → leb a b ≡ false
leb-lt a b h = ground arith

-- Each of `n` counts is positive.
abbrev pub Positive : ℕ → List ℕ → Type 0
Positive zero count = Unit
Positive (suc n) count = (0 < hd count) × Positive n (tl count)

zeros-Within : (n : ℕ) (count : List ℕ) → Positive n count → Within n count (replicate n 0)
zeros-Within zero count h = refl
zeros-Within (suc n) count (h, k) = (h, zeros-Within n (tl count) k)

from-zeros :
    (n : ℕ) (count : List ℕ) → Positive n count → from n count (replicate n 0) ≡ nested n count
from-zeros zero count h = refl
from-zeros (suc n) count (h, k) =
    let one : hd count ≡ suc (hd count - 1) = omega (arith, h) in
    rw (from-zeros n (tl count) k) (ap (λ m. span 0 m (nested n (tl count))) (sym one))

-- What a step leads to, which carries `r.1` out of the first position.
abbrev Stepped : ℕ → List ℕ → List ℕ → List ℕ × Bool → Type 0
Stepped n count ctr r =
    ((r.1 ≡ true) × (r.0 ≡ replicate n 0) × (from n count ctr ≡ ctr ∷ []))
    ⊎ ((r.1 ≡ false) × Within n count r.0 × (from n count ctr ≡ ctr ∷ from n count r.0))

-- The first position goes on when those behind carry.
first-cases :
    (n : ℕ) (count : List ℕ) (c : ℕ) (cs : List ℕ) (later : List ℕ × Bool)
    → Positive n (tl count)
    → c < hd count
    → Within n (tl count) cs
    → Stepped n (tl count) cs later
    → let c' = if later.1 then suc c else c in
      ((hd count ≤ c') × (later.0 ≡ replicate n 0) × (from (suc n) count (c ∷ cs) ≡ (c ∷ cs) ∷ []))
      ⊎ ((c' < hd count)
          × Within n (tl count) later.0
          × (from (suc n) count (c ∷ cs) ≡ (c ∷ cs) ∷ from (suc n) count (c' ∷ later.0)))
first-cases n count c cs later pos h w (inr (e, w', f)) = rw (e, f) (inr (h, w', refl))
first-cases n count c cs later pos h w (inl (e, z, f)) =
    elim (Bool-cases (ltb (suc c) (hd count))) [
      | inl more ↦
          let one : hd count - suc c ≡ suc (hd count - suc (suc c)) = ground (arith, more) in
          rw (e, f, z, one, from-zeros n (tl count) pos)
            (inr (ground (arith, more), zeros-Within n (tl count) pos, refl))
      | inr last ↦
          let none_left : hd count - suc c ≡ 0 = ground (arith, last) in
          rw (e, f, z, none_left) (inl (ground (arith, last), refl, refl))
    ]

carry-cases :
    (n : ℕ) (count ctr : List ℕ)
    → Positive n count
    → Within n count ctr
    → Stepped n count ctr (carry n count ctr)
unfolding carry
carry-cases zero count ctr h w = inl (refl, refl, rw w refl)
carry-cases (suc n) count [] h w = absurd w
carry-cases (suc n) count (c ∷ cs) (h, k) (w, v) =
    elim (first-cases n count c cs (carry n (tl count) cs) k w v
      (carry-cases n (tl count) cs k v)) [
        | inl (le, z, f) ↦
            let full = le→leb (hd count) (if (carry n (tl count) cs).1 then suc c else c) le in
            rw full (inl (refl, ap (λ r. 0 ∷ r) z, f))
        | inr (lt, w', f) ↦
            let room = leb-lt (hd count) (if (carry n (tl count) cs).1 then suc c else c) lt in
            rw room (inr (refl, (lt, w'), f))
      ]

each_row-suc :
    (fuel m : ℕ) (b : ReadBlock) (ctr : List ℕ)
    → each_row (suc fuel) (suc (suc m)) b ctr ≡ (
        if ltb (hd ctr) (hd b.hit.count)
        then Option.map
            (λ ps. row_piece (suc (suc m)) b ctr ∷ ps)
            (each_row fuel (suc (suc m)) b (next_position m b.hit.count ctr))
        else some [])
unfolding each_row
each_row-suc fuel m b ctr =
    let two : suc (suc m) - 2 ≡ m = omega arith in
    let deep : ltb (suc (suc m)) 2 ≡ false = ground arith in rw (two, deep) refl

each_row-end :
    (fuel m : ℕ) (b : ReadBlock) (ctr : List ℕ)
    → 0 < fuel
    → hd b.hit.count ≤ hd ctr
    → each_row fuel (suc (suc m)) b ctr ≡ some []
each_row-end zero m b ctr h le = absurd (omega (arith, h))
each_row-end (suc fuel) m b ctr h le =
    let full : ltb (hd ctr) (hd b.hit.count) ≡ false = ground (arith, le) in
    rw (each_row-suc fuel m b ctr, full) refl

-- From a position on, the loop makes the rows of the nested loops, in their order.
each_row-from :
    (fuel m : ℕ) (b : ReadBlock) (ctr : List ℕ)
    → Positive m (tl b.hit.count)
    → Within (suc m) b.hit.count ctr
    → length (from (suc m) b.hit.count ctr) < fuel
    → each_row fuel (suc (suc m)) b ctr
      ≡ some (map (row_piece (suc (suc m)) b) (from (suc m) b.hit.count ctr))
unfolding next_position
each_row-from zero m b ctr pos w enough = absurd (omega (arith, enough))
each_row-from (suc fuel) m b [] pos w enough = absurd w
each_row-from (suc fuel) m b (c ∷ cs) pos (lt, w) enough =
    let later = carry m (tl b.hit.count) cs in
    let next = (if later.1 then suc c else c) ∷ later.0 in
    let inside = lt→ltb c (hd b.hit.count) lt in
    elim (first-cases m b.hit.count c cs later pos lt w (carry-cases m (tl b.hit.count) cs pos w)) [
      | inr (lt', w', f) ↦
          let shorter = rw f at enough in
          let ih = each_row-from fuel m b next pos (lt', w') (omega (arith, shorter)) in
          rw (each_row-suc fuel m b (c ∷ cs), inside, f)
            (ap (Option.map (λ ps. row_piece (suc (suc m)) b (c ∷ cs) ∷ ps)) ih)
      | inl (le, z, f) ↦
          let shorter = rw f at enough in
          let end = each_row-end fuel m b next (omega (arith, shorter)) le in
          rw (each_row-suc fuel m b (c ∷ cs), inside, f)
            (ap (Option.map (λ ps. row_piece (suc (suc m)) b (c ∷ cs) ∷ ps)) end)
    ]

length-span :
    (i len : ℕ) (behind : List (List ℕ)) → length (span i len behind) ≡ len * length behind
length-span i zero behind = grind arith
length-span i (suc len) behind =
    let first = length-append (map (λ r. i ∷ r) behind) (span (suc i) len behind) in
    let size = length-map (λ (r : List ℕ). i ∷ r) behind in
    let rest = length-span (suc i) len behind in grind (arith, first, size, rest)

pub length-nested : (n : ℕ) (count : List ℕ) → length (nested n count) ≡ positions n count
unfolding positions
length-nested zero count = refl
length-nested (suc n) count =
    length-span 0 (hd count) (nested n (tl count))
    ∙ ap (λ k. hd count * k) (length-nested n (tl count))

Positive-fewer : (n : ℕ) (count : List ℕ) → Positive (suc n) count → Positive n count
Positive-fewer zero count h = tt
Positive-fewer (suc n) count (h, k) = (h, Positive-fewer n (tl count) k)

one_row :
    (b : ReadBlock)
    → 0 < hd b.hit.count
    → each_row (suc (positions 0 b.hit.count)) 1 b [] ≡ some (row_piece 1 b [] ∷ [])
unfolding each_row
one_row b h = let inside = lt→ltb 0 (hd b.hit.count) h in rw inside refl

-- For a block of one or more dimensions whose counts are positive: the loop over rows ends, and the
-- rows are those of nested loops over all dimensions but the last, in their order.
pub break_down-nested :
    (n : ℕ) (b : ReadBlock)
    → Positive (suc n) b.hit.count
    → break_down (suc n) b ≡ some (map (row_piece (suc n) b) (nested n b.hit.count))
unfolding break_down
break_down-nested zero b (h, k) =
    let inside = lt→ltb 0 (hd b.hit.count) h in
    let single : suc zero - 1 ≡ 0 = omega arith in rw single (one_row b h)
break_down-nested (suc m) b (h, k) =
    let pos = Positive-fewer (suc m) b.hit.count (h, k) in
    let less : suc (suc m) - 1 ≡ suc m = omega arith in
    let zeros = from-zeros (suc m) b.hit.count pos in
    let size = length-nested (suc m) b.hit.count in
    let enough : length (from (suc m) b.hit.count (replicate (suc m) 0))
        < suc (positions (suc m) b.hit.count) =
      rw (zeros, size) (omega arith) in
    rw less (
      each_row-from (suc (positions (suc m) b.hit.count)) m b (replicate (suc m) 0) pos.1
        (zeros-Within (suc m) b.hit.count pos) enough
      ∙ ap (λ ts. some (map (row_piece (suc (suc m)) b) ts)) zeros)
