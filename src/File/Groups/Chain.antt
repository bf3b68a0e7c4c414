-- ===== src/File/Groups/Chain.antt =====
-- src/H5VL_log_filei.cpp: the neighbours of the processes that share a storage target.
use vol_log_based.Prelude.{
  ℕ, zero, suc, ◌+◌, ◌-◌, ◌≤◌, ◌<◌, ◌≡◌, ◌↔◌, refl, ap, sym, arith, Bool-cases, inl, inr,
}
use vol_log_based.Prelude.{true, false, Option, some, ◌==◌, ==_iff, if◌then◌else◌, ltb}
use native.Mathlib.Nat.{add-mod_right}
use vol_log_based.File.Groups.{roots, find_prev, find_next, Place, calc_node_rank}

some_inj : (a b : ℕ) → ◌≡◌ {A = Option ℕ} (some a) (some b) → a ≡ b
some_inj a b h = cc h

module _ (g : ℕ → ℕ) where
  roots-suc : (n : ℕ) → roots g (suc n) ≡ (if g n == 0 then suc (roots g n) else roots g n)
  unfolding roots
  roots-suc n = refl

  roots_mono : (d n : ℕ) → roots g n ≤ roots g (n + d)
  roots_mono zero n = let e : n + 0 ≡ n = omega arith in rw e (omega arith)
  roots_mono (suc d) n =
      let e : n + suc d ≡ suc (n + d) = omega arith in
      let before = roots_mono d n in rw e (ground (arith, roots-suc (n + d), before))

  -- A root in front of another has a smaller number.
  roots_strict : (r q : ℕ) → g r ≡ 0 → r < q → roots g r < roots g q
  roots_strict r q h lt =
      let e : suc r + (q - suc r) ≡ q = omega (arith, lt) in
      let le = rw e at (roots_mono (q - suc r) (suc r)) in ground (arith, roots-suc r, le)

  roots_inj : (r q : ℕ) → g r ≡ 0 → g q ≡ 0 → roots g r ≡ roots g q → r ≡ q
  roots_inj r q h k e = elim (Bool-cases (ltb r q)) [
    | inl lt ↦ let s = roots_strict r q h (ground (arith, lt)) in absurd (omega (arith, s, e))
    | inr ge ↦ elim (Bool-cases (ltb q r)) [
      | inl lt ↦ let s = roots_strict q r k (ground (arith, lt)) in absurd (omega (arith, s, e))
      | inr le ↦ ground (arith, ge, le)
    ]
  ]

  behind :
      (i q j : ℕ)
      → (g i == 0) ≡ true
      → (j - 1 == 0) ≡ false
      → i ≤ q
      → suc (roots g q) ≡ roots g i + j
      → suc i ≤ q
  behind i q j e f le c = elim (Bool-cases (i == q)) [
    | inl at ↦ let same = (==_iff i q).0 at in absurd (ground (arith, rw same at c, f))
    | inr apart ↦ ground (arith, apart, le)
  ]

  elsewhere : (i q : ℕ) → (g i == 0) ≡ false → i ≤ q → g q ≡ 0 → suc i ≤ q
  elsewhere i q e le z = elim (Bool-cases (i == q)) [
    | inl at ↦ let same = (==_iff i q).0 at in absurd (ground (arith, rw same at e, z))
    | inr apart ↦ ground (arith, apart, le)
  ]

  before :
      (i r j : ℕ)
      → (j - 1 == 0) ≡ false
      → r < suc i
      → roots g r + j ≡ roots g (suc i)
      → roots g (suc i) ≡ suc (roots g i)
      → r < i
  before i r j f lt c count = elim (Bool-cases (i == r)) [
    | inl at ↦
        let same = (==_iff i r).0 at in absurd (ground (arith, rw same at count, rw same at c, f))
    | inr apart ↦ ground (arith, apart, lt)
  ]

  elsewhere_below : (i r : ℕ) → (g i == 0) ≡ false → r < suc i → g r ≡ 0 → r < i
  elsewhere_below i r e lt z = elim (Bool-cases (i == r)) [
    | inl at ↦ let same = (==_iff i r).0 at in absurd (ground (arith, rw same at e, z))
    | inr apart ↦ ground (arith, apart, lt)
  ]

  -- The loop up finds the root whose number is `j - 1` behind that of the roots in front of `i`.
  find_next_iff :
      (n i j q : ℕ)
      → 0 < j
      → (find_next g n i j ≡ some q)
        ↔ ((i ≤ q) × (q < i + n) × (g q ≡ 0) × (suc (roots g q) ≡ roots g i + j))
  unfolding find_next
  find_next_iff zero i j q pos = (λ e. cc e, λ h. absurd (omega (arith, h)))
  find_next_iff (suc n) i j q pos = elim (Bool-cases (g i == 0)) [
    | inl e ↦ elim (Bool-cases (j - 1 == 0)) [
      | inl f ↦
          rw (e, f, find_next)
            (
              λ h.
                  let at = some_inj i q h in
                  rw (sym at)
                    (omega arith, omega arith, (==_iff (g i) 0).0 e, ground (arith, f, pos)),
              λ h.
                  let same = roots_inj i q ((==_iff (g i) 0).0 e) h.2 (ground (arith, f, h.3)) in
                  ap some same,
            )
      | inr f ↦
          let (to, from) = find_next_iff n (suc i) (j - 1) q (ground (arith, f)) in
          let count : roots g (suc i) ≡ suc (roots g i) = ground (arith, roots-suc i, e) in
          rw (e, f, find_next)
            (
              λ h.
                  let (l, u, z, r) = to h in
                  (omega (arith, l), omega (arith, u), z, ground (arith, r, count, f)),
              λ h. from (
                behind i q j e f h.0 h.3,
                omega (arith, h.1),
                h.2,
                ground (arith, h.3, count, f),
              ),
            )
    ]
    | inr e ↦
        let (to, from) = find_next_iff n (suc i) j q pos in
        let count : roots g (suc i) ≡ roots g i = ground (arith, roots-suc i, e) in
        rw (e, find_next)
          (
            λ h.
                let (l, u, z, r) = to h in
                (omega (arith, l), omega (arith, u), z, omega (arith, r, count)),
            λ h. from (elsewhere i q e h.0 h.2, omega (arith, h.1), h.2, omega (arith, h.3, count)),
          )
  ]

  -- The loop down finds the root whose number is `j` in front of that of `i`.
  find_prev_iff :
      (i j r : ℕ)
      → 0 < j
      → (find_prev g i j ≡ some r) ↔ ((r < i) × (g r ≡ 0) × (roots g r + j ≡ roots g i))
  unfolding find_prev
  find_prev_iff zero j r pos = (λ e. cc e, λ h. absurd (omega (arith, h)))
  find_prev_iff (suc i) j r pos = elim (Bool-cases (g i == 0)) [
    | inl e ↦
        let count : roots g (suc i) ≡ suc (roots g i) = ground (arith, roots-suc i, e) in
        elim (Bool-cases (j - 1 == 0)) [
          | inl f ↦
              rw (e, f, find_prev)
                (
                  λ h.
                      let at = some_inj i r h in
                      rw (sym at)
                        (omega arith, (==_iff (g i) 0).0 e, ground (arith, f, pos, count)),
                  λ h.
                      let same =
                        roots_inj i r ((==_iff (g i) 0).0 e) h.1
                          (ground (arith, f, pos, h.2, count)) in
                      ap some same,
                )
          | inr f ↦
              let (to, from) = find_prev_iff i (j - 1) r (ground (arith, f)) in
              rw (e, f, find_prev)
                (
                  λ h. let (l, z, c) = to h in (omega (arith, l), z, ground (arith, c, count, f)),
                  λ h. from (before i r j f h.0 h.2 count, h.1, ground (arith, h.2, count, f)),
                )
        ]
    | inr e ↦
        let (to, from) = find_prev_iff i j r pos in
        let count : roots g (suc i) ≡ roots g i = ground (arith, roots-suc i, e) in
        rw (e, find_prev)
          (
            λ h. let (l, z, c) = to h in (omega (arith, l), z, omega (arith, c, count)),
            λ h. from (elsewhere_below i r e h.0 h.1, h.1, omega (arith, h.2, count)),
          )
  ]

-- For two roots of groups, aligned data and one storage target or more: each is the next of the
-- other exactly when the other is the previous of it, and the two then have the same target.
pub calc_node_rank-Chained :
    (g id : ℕ → ℕ) (scount np r q : ℕ) (old : Place)
    → 0 < scount
    → r < np
    → q < np
    → g r ≡ 0
    → g q ≡ 0
    → ((n : ℕ) → id n ≡ n)
    → ((calc_node_rank g id true scount np r old).next_rank ≡ some q
        ↔ (calc_node_rank g id true scount np q old).prev_rank ≡ some r)
      × ((calc_node_rank g id true scount np r old).next_rank ≡ some q
          → (calc_node_rank g id true scount np r old).target_ost
            ≡ (calc_node_rank g id true scount np q old).target_ost)
unfolding calc_node_rank
calc_node_rank-Chained g id scount np r q old pos hr hq zr zq own =
    let (to, from) = find_next_iff g (np - suc r) (suc r) scount q pos in
    let (to', from') = find_prev_iff g q scount r pos in
    let count : roots g (suc r) ≡ suc (roots g r) = ground (arith, roots-suc g r, zr) in
    (
      (
        λ h. let (l, u, z, c) = to h in from' (l, zr, omega (arith, c, count)),
        λ h.
            let (l, z, c) = to' h in
            from (omega (arith, l), omega (arith, l, hq), zq, omega (arith, c, count)),
      ),
      λ h.
          let (l, u, z, c) = to h in
          let ids : roots g q ≡ roots g r + scount = omega (arith, c, count) in
          rw (own (roots g r), own (roots g q), ids) (sym (add-mod_right (roots g r) scount)),
    )
