-- ===== src/Selections/Cycles.antt =====
-- src/H5VL_logi_dataspace.cpp: lemmas on the cycles by which `sortblocks` moves the blocks.
use vol_log_based.Prelude.{ℕ, zero, suc, ◌+◌, ◌≤◌, ◌<◌, ◌≡◌, ◌≢◌, refl, ap, sym, subst, ◌∙◌, arith}
use vol_log_based.Prelude.{false, ◌==◌, if◌then◌else◌, Bool-cases, ==_iff, ==-self, ◌⊎◌, inl, inr}
use vol_log_based.Selections.{Block}
use vol_log_based.Selections.Sort.{update, Arrays, move}

pub eq-cases : (a b : ℕ) → (a ≡ b) ⊎ (a ≢ b)
eq-cases a b = elim (Bool-cases (a == b)) [
  | inl e ↦ inl ((==_iff a b).0 e)
  | inr e ↦ inr (λ h. ground (arith, e, h))
]

pub eq_false : (a b : ℕ) → a ≢ b → (a == b) ≡ false
eq_false a b h = ground (arith, h)

module _ {u} {A : Type u} (f : ℕ → A) (k : ℕ) (v : A) where
  pub update-same : update f k v k ≡ v
  update-same = rw (==-self k) refl

  pub update-other : (i : ℕ) → i ≢ k → update f k v i ≡ f i
  update-other i h = elim (Bool-cases (i == k)) [
    | inl e ↦ absurd (h ((==_iff i k).0 e))
    | inr e ↦ rw e refl
  ]

-- The elements below `n` that do not stand in their places.
abbrev pub undone : ℕ → (ℕ → ℕ) → ℕ
undone zero idx = 0
undone (suc n) idx = (if idx n == n then 0 else 1) + undone n idx

pub undone-le : (n : ℕ) (idx : ℕ → ℕ) → undone n idx ≤ n
undone-le zero idx = omega arith
undone-le (suc n) idx = ground (arith, undone-le n idx)

undone-above : (n j : ℕ) (idx : ℕ → ℕ) → n ≤ j → undone n (update idx j j) ≡ undone n idx
undone-above zero j idx h = refl
undone-above (suc n) j idx h =
    rw (update-other idx j j n (λ e. absurd (omega (arith, e, h))))
      (ap (λ t. (if idx n == n then 0 else 1) + t) (undone-above n j idx (omega arith)))

pub undone-update :
    (n j : ℕ) (idx : ℕ → ℕ) → j < n → idx j ≢ j → undone n (update idx j j) + 1 ≡ undone n idx
undone-update zero j idx h ne = elim h [ ]
undone-update (suc n) j idx h ne = elim (eq-cases n j) [
  | inl e ↦
      let now : ◌≡◌ {A = ℕ} (if update idx j j n == n then 0 else 1) 0 =
        rw (e, update-same idx j j, ==-self j) refl in
      let before : ◌≡◌ {A = ℕ} (if idx n == n then 0 else 1) 1 =
        rw (e, eq_false (idx j) j ne) refl in
      omega (arith, now, before, undone-above n j idx (omega (arith, e)))
  | inr e ↦
      let same : ◌≡◌ {A = ℕ} (if update idx j j n == n then 0 else 1)
          (if idx n == n then 0 else 1) =
        rw (update-other idx j j n e) refl in
      omega (arith, same, undone-update n j idx (ground (arith, h, e)) ne)
]

-- The blocks and the places that they are taken from, at the start.
module _ (len : ℕ) (old : ℕ → Block) (place : ℕ → ℕ) (inside : (p : ℕ) → p < len → place p < len)
    (injective : (p q : ℕ) → p < len → q < len → place p ≡ place q → p ≡ q) where
  -- An element that is finished, and one that is untouched.
  abbrev pub Finished : Arrays → ℕ → Type 0
  Finished s p = (s.idx p ≡ p) × (s.blocks p ≡ old (place p))

  abbrev pub Untouched : Arrays → ℕ → Type 0
  Untouched s p = (s.idx p ≡ place p) × (s.idx p ≢ p) × (s.blocks p ≡ old p)

  -- A finished element whose block came from `p`.
  abbrev pub Taken : Arrays → ℕ → Type 0
  Taken s p = (q : ℕ) × (q < len) × (s.idx q ≡ q) × (place q ≡ p)

  pub record Between (s : Arrays) : Type 0 where
    pub each : (p : ℕ) → p < len → Finished s p ⊎ Untouched s p
    pub taken : (p : ℕ) → p < len → s.idx p ≡ p → Taken s p

  -- In a cycle that began at `i` and stands at `j`.
  pub record Within (i j : ℕ) (s : Arrays) : Type 0 where
    pub others : (p : ℕ) → p < len → p ≢ j → Finished s p ⊎ Untouched s p
    pub here : s.idx j ≡ place j
    pub moving : s.idx j ≢ j
    pub taken : (p : ℕ) → p < len → s.idx p ≡ p → p ≢ i → Taken s p
    pub before : (j ≡ i) ⊎ Taken s j

  -- What has been taken stays taken when `j` is finished.
  Taken-move : (j p : ℕ) (b : Block) (s : Arrays) → Taken s p → Taken (move j b s) p
  unfolding move
  Taken-move j p b s (q, hq, fix, e) = elim (eq-cases q j) [
    | inl same ↦ (q, hq, rw (same, update-same s.idx j j) refl, e)
    | inr other ↦ (q, hq, update-other s.idx j j q other ∙ fix, e)
  ]

  Taken-here : (j : ℕ) (b : Block) (s : Arrays) → j < len → Taken (move j b s) (place j)
  unfolding move
  Taken-here j b s h = (j, h, update-same s.idx j j, refl)

  -- Elsewhere nothing changes when `j` is finished.
  move-other :
      (j p : ℕ) (b : Block) (s : Arrays)
      → p ≢ j
      → Finished s p ⊎ Untouched s p
      → Finished (move j b s) p ⊎ Untouched (move j b s) p
  unfolding move
  move-other j p b s ne (inl (a, c)) =
      inl (update-other s.idx j j p ne ∙ a, update-other s.blocks j b p ne ∙ c)
  move-other j p b s ne (inr (a, n, c)) =
      let e = update-other s.idx j j p ne in
      inr (e ∙ a, (λ h. n (sym e ∙ h)), update-other s.blocks j b p ne ∙ c)

  move-here : (j : ℕ) (b : Block) (s : Arrays) → b ≡ old (place j) → Finished (move j b s) j
  unfolding move
  move-here j b s e = (update-same s.idx j j, update-same s.blocks j b ∙ e)

  move-each :
      (i j : ℕ) (b : Block) (s : Arrays)
      → Within i j s
      → b ≡ old (place j)
      → (p : ℕ) → p < len
      → Finished (move j b s) p ⊎ Untouched (move j b s) p
  move-each i j b s w e p h = elim (eq-cases p j) [
    | inl same ↦ inl (subst (Finished (move j b s)) (sym same) (move-here j b s e))
    | inr other ↦ move-other j p b s other (w.others p h other)
  ]

  -- What was finished before, or is `j`.
  was_finished : (j p : ℕ) (b : Block) (s : Arrays) → p ≢ j → (move j b s).idx p ≡ p → s.idx p ≡ p
  unfolding move
  was_finished j p b s ne h = sym (update-other s.idx j j p ne) ∙ h

  move-Taken :
      (i j : ℕ) (b : Block) (s : Arrays)
      → Within i j s
      → (p : ℕ) → p < len
      → (move j b s).idx p ≡ p
      → p ≢ i
      → Taken (move j b s) p
  move-Taken i j b s w p h fix ne = elim (eq-cases p j) [
    | inl same ↦ elim w.before [
      | inl at ↦ absurd (ne (same ∙ at))
      | inr t ↦ subst (Taken (move j b s)) (sym same) (Taken-move j j b s t)
    ]
    | inr other ↦ Taken-move j p b s (w.taken p h (was_finished j p b s other fix) ne)
  ]

  -- The cycle closes.
  pub close :
      (i j : ℕ) (s : Arrays) → j < len → Within i j s → s.idx j ≡ i → Between (move j (old i) s)
  close i j s h w at =
      let to_i : place j ≡ i = sym w.here ∙ at in
      record {
        each = move-each i j (old i) s w (ap old (sym to_i));
        taken = λ p hp fix. elim (eq-cases p i) [
          | inl same ↦ subst (Taken (move j (old i) s)) (to_i ∙ sym same) (Taken-here j (old i) s h)
          | inr ne ↦ move-Taken i j (old i) s w p hp fix ne
        ];
      }

  -- The element that `j` takes its block from is untouched.
  next_untouched :
      (i j : ℕ) (s : Arrays) → j < len → Within i j s → s.idx j ≢ i → Untouched s (s.idx j)
  next_untouched i j s h w ne =
      let k = s.idx j in
      let hk : k < len = subst (λ q. q < len) (sym w.here) (inside j h) in
      elim (w.others k hk w.moving) [
        | inr u ↦ u
        | inl f ↦
            let (q, hq, fix, e) = w.taken k hk f.0 ne in
            let same : q ≡ j = injective q j hq h (e ∙ w.here) in
            absurd (w.moving (subst (λ x. s.idx x ≡ x) same fix))
      ]

  pub go_on :
      (i j : ℕ) (s : Arrays)
      → j < len
      → Within i j s
      → s.idx j ≢ i
      → Within i (s.idx j) (move j (s.blocks (s.idx j)) s)
  unfolding move
  go_on i j s h w ne =
      let k = s.idx j in
      let (a, n, c) = next_untouched i j s h w ne in
      let e : s.blocks k ≡ old (place j) = c ∙ ap old w.here in
      let t = move j (s.blocks k) s in
      let same : t.idx k ≡ s.idx k = update-other s.idx j j k w.moving in
      record {
        others = λ p hp nk. move-each i j (s.blocks k) s w e p hp;
        here = same ∙ a;
        moving = λ f. n (sym same ∙ f);
        taken = move-Taken i j (s.blocks k) s w;
        before = inr (subst (Taken t) (sym w.here) (Taken-here j (s.blocks k) s h));
      }
