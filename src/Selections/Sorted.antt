-- ===== src/Selections/Sorted.antt =====
-- src/H5VL_logi_dataspace.cpp: the blocks behind `sortblocks`.
use vol_log_based.Prelude.{
  ℕ, zero, suc, ◌+◌, ◌-◌, ◌≤◌, ◌<◌, ◌≡◌, ◌≢◌, refl, ap, sym, subst, ◌∙◌, arith,
}
use vol_log_based.Prelude.{Bool, false, ◌==◌, if◌then◌else◌, Bool-cases, ==_iff, inl, inr}
use vol_log_based.Prelude.{List, [], length, get_or}
use vol_log_based.Selections.{Block, lessthan}
use vol_log_based.Selections.Sort.{
  Arrays, move, swap_cycle, reorder, from_list, to_list, sortblocks,
}
use vol_log_based.Selections.Cycles.{
  eq-cases, undone, undone-le, undone-update, Between, Within, close, go_on, update-same,
  update-other,
}

-- A finished element stays finished.
move-keeps : (j p : ℕ) (b : Block) (s : Arrays) → s.idx p ≡ p → (move j b s).idx p ≡ p
unfolding move
move-keeps j p b s h = elim (eq-cases p j) [
  | inl same ↦ rw (same, update-same s.idx j j) refl
  | inr other ↦ update-other s.idx j j p other ∙ h
]

cycle-keeps :
    (fuel i j p : ℕ) (b : Block) (s : Arrays) → s.idx p ≡ p → (swap_cycle fuel i b j s).idx p ≡ p
unfolding swap_cycle
cycle-keeps zero i j p b s h = h
cycle-keeps (suc fuel) i j p b s h = elim (Bool-cases (s.idx j == i)) [
  | inl e ↦ rw (e, swap_cycle) (move-keeps j p b s h)
  | inr e ↦
      rw (e, swap_cycle)
        (cycle-keeps fuel i (s.idx j) p b (move j (s.blocks (s.idx j)) s)
          (move-keeps j p (s.blocks (s.idx j)) s h))
]

move_fixes : (j : ℕ) (b : Block) (s : Arrays) → (move j b s).idx j ≡ j
unfolding move
move_fixes j b s = update-same s.idx j j

cycle_fixes : (fuel i j : ℕ) (b : Block) (s : Arrays) → (swap_cycle (suc fuel) i b j s).idx j ≡ j
unfolding swap_cycle
cycle_fixes fuel i j b s = elim (Bool-cases (s.idx j == i)) [
  | inl e ↦ rw (e, swap_cycle) (move_fixes j b s)
  | inr e ↦
      rw (e, swap_cycle)
        (cycle-keeps fuel i (s.idx j) j b (move j (s.blocks (s.idx j)) s)
          (move_fixes j (s.blocks (s.idx j)) s))
]

module _ (len : ℕ) (old : ℕ → Block) (place : ℕ → ℕ) (inside : (p : ℕ) → p < len → place p < len)
    (injective : (p q : ℕ) → p < len → q < len → place p ≡ place q → p ≡ q) where
  -- With as much fuel as elements are out of their places, a cycle closes.
  cycle_closes :
      (fuel i j : ℕ) (s : Arrays)
      → j < len
      → Within len old place inside injective i j s
      → undone len s.idx ≤ fuel
      → Between len old place inside injective (swap_cycle fuel i (old i) j s)
  unfolding swap_cycle move
  cycle_closes zero i j s h w enough =
      absurd (omega (arith, undone-update len j s.idx h w.moving, enough))
  cycle_closes (suc fuel) i j s h w enough = elim (Bool-cases (s.idx j == i)) [
    | inl e ↦
        rw (e, swap_cycle)
          (close len old place inside injective i j s h w ((==_iff (s.idx j) i).0 e))
    | inr e ↦
        let ne : s.idx j ≢ i = λ f. ground (arith, e, f) in
        rw (e, swap_cycle)
          (cycle_closes fuel i (s.idx j) (move j (s.blocks (s.idx j)) s)
            (subst (λ q. q < len) (sym w.here) (inside j h))
            (go_on len old place inside injective i j s h w ne)
            (omega (arith, undone-update len j s.idx h w.moving, enough)))
  ]

  -- One turn of the outer loop.
  turn : ℕ → Arrays → Arrays
  turn i s = if s.idx i == i then s else swap_cycle len i (s.blocks i) i s

  opened :
      (i : ℕ) (s : Arrays)
      → i < len
      → Between len old place inside injective s
      → s.idx i ≢ i
      → Within len old place inside injective i i s × (s.blocks i ≡ old i)
  opened i s h b ne = elim (b.each i h) [
    | inl f ↦ absurd (ne f.0)
    | inr u ↦ (
      record {
        others = λ p hp np. b.each p hp;
        here = u.0;
        moving = ne;
        taken = λ p hp fix np. b.taken p hp fix;
        before = inl refl;
      },
      u.2,
    )
  ]

  turn_lem :
      (i : ℕ) (s : Arrays)
      → i < len
      → Between len old place inside injective s
      → ((p : ℕ) → p < i → s.idx p ≡ p)
      → Between len old place inside injective (turn i s)
        × ((p : ℕ) → p < suc i → (turn i s).idx p ≡ p)
  unfolding turn
  turn_lem i s h b front = elim (Bool-cases (s.idx i == i)) [
    | inl e ↦
        rw (e, turn)
          (
            b,
            λ p hp. elim (eq-cases p i) [
              | inl same ↦ subst (λ x. s.idx x ≡ x) (sym same) ((==_iff (s.idx i) i).0 e)
              | inr ne ↦ front p (ground (arith, hp, ne))
            ],
          )
    | inr e ↦
        let ne : s.idx i ≢ i = λ f. ground (arith, e, f) in
        let (w, pulled) = opened i s h b ne in
        let is : turn i s ≡ swap_cycle len i (old i) i s =
          rw (e, turn) (ap (λ x. swap_cycle len i x i s) pulled) in
        let some : len ≡ suc (len - 1) = omega (arith, h) in
        rw is (
          cycle_closes len i i s h w (undone-le len s.idx),
          λ p hp. elim (eq-cases p i) [
            | inl same ↦
                subst (λ x. (swap_cycle len i (old i) i s).idx x ≡ x) (sym same)
                  (subst (λ n. (swap_cycle n i (old i) i s).idx i ≡ i) (sym some)
                    (cycle_fixes (len - 1) i i (old i) s))
            | inr np ↦ cycle-keeps len i i p (old i) s (front p (ground (arith, hp, np)))
          ],
        )
  ]

  reordered :
      (n i : ℕ) (s : Arrays)
      → i + n ≡ len
      → Between len old place inside injective s
      → ((p : ℕ) → p < i → s.idx p ≡ p)
      → (p : ℕ) → p < len
      → (reorder len n i s).blocks p ≡ old (place p)
  unfolding reorder turn
  reordered zero i s e b front p h = elim (b.each p h) [
    | inl f ↦ f.1
    | inr u ↦ absurd (u.1 (front p (omega (arith, e, h))))
  ]
  reordered (suc n) i s e b front p h =
      let (b', front') = turn_lem i s (omega (arith, e)) b front in
      reordered n (suc i) (turn i s) (omega (arith, e)) b' front' p h

  -- The cyclic swaps of `sortblocks`, for an array of indexes below the length that holds none
  -- twice, end, and leave at every place the block that the index there names.
  pub reorder-place :
      (p : ℕ)
      → p < len
      → (reorder len len 0 (record { blocks = old; idx = place })).blocks p ≡ old (place p)
  reorder-place p h =
      reordered len 0 (record { blocks = old; idx = place }) (omega arith)
        (record {
          each = λ q hq. elim (eq-cases (place q) q) [
            | inl same ↦ inl (same, ap old (sym same))
            | inr ne ↦ inr (refl, ne, refl)
          ];
          taken = λ q hq fix. (q, hq, fix, fix);
        })
        (λ q hq. absurd (omega (arith, hq))) p h

get_or-to_list {u} :
    {A : Type u} (n i : ℕ) (f : ℕ → A) (d : A) → i < n → get_or (to_list n f) i d ≡ f i
get_or-to_list zero i f d h = elim h [ ]
get_or-to_list (suc n) zero f d h = refl
get_or-to_list (suc n) (suc i) f d h = get_or-to_list n i (λ j. f (suc j)) d (omega arith)

length-to_list {u} : {A : Type u} (n : ℕ) (f : ℕ → A) → length (to_list n f) ≡ n
length-to_list zero f = refl
length-to_list (suc n) f = ap suc (length-to_list n (λ j. f (suc j)))

-- What `std::sort` gives for an array of the indexes below `len`: each of them once, in an order
-- that the comparison does not contradict.
pub record Sorts (len : ℕ) (less : ℕ → ℕ → Bool) (idx : ℕ → ℕ) : Type 0 where
  pub inside : (p : ℕ) → p < len → idx p < len
  pub injective : (p q : ℕ) → p < len → q < len → idx p ≡ idx q → p ≡ q
  pub ordered : (p q : ℕ) → p < q → q < len → less (idx q) (idx p) ≡ false

abbrev pub less_at : ℕ → List Block → ℕ → ℕ → Bool
less_at ndim bs l r = lessthan ndim (from_list bs l).start (from_list bs r).start

abbrev pub sorted_idx : ((ℕ → ℕ → Bool) → List ℕ → List ℕ) → ℕ → List Block → ℕ → ℕ
sorted_idx sort ndim bs i = get_or (sort (less_at ndim bs) (to_list (length bs) (λ j. j))) i 0

-- Where `std::sort` sorts the indexes, `sortblocks` gives as many blocks, at every place the block
-- that the sorted indexes name there, each block of the argument once, and no block starts before
-- one in front of it.
pub sortblocks-Sorts :
    (sort : (ℕ → ℕ → Bool) → List ℕ → List ℕ) (ndim : ℕ) (bs : List Block)
    → Sorts (length bs) (less_at ndim bs) (sorted_idx sort ndim bs)
    → (length (sortblocks sort ndim bs) ≡ length bs)
      × ((p : ℕ)
          → p < length bs
          → from_list (sortblocks sort ndim bs) p ≡ from_list bs (sorted_idx sort ndim bs p))
      × ((p q : ℕ) → p < q → q < length bs → less_at ndim (sortblocks sort ndim bs) q p ≡ false)
unfolding sortblocks
sortblocks-Sorts sort ndim bs s =
    let n = length bs in
    let idx = sorted_idx sort ndim bs in
    let moved = λ (p : ℕ) (h : p < n).
      get_or-to_list n p (reorder n n 0 (record { blocks = from_list bs; idx = idx })).blocks
        (record { start = []; count = [] }) h
      ∙ reorder-place n (from_list bs) idx s.inside s.injective p h in
    (
      length-to_list n (reorder n n 0 (record { blocks = from_list bs; idx = idx })).blocks,
      moved,
      λ p q lt h. rw (moved p (omega (arith, lt, h)), moved q h) (s.ordered p q lt h),
    )
