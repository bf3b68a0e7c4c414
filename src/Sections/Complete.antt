-- ===== src/Sections/Complete.antt =====
-- src/H5VL_logi_nb.cpp, src/H5VL_log_filei_meta.cpp: the search of all metadata in parts.
use vol_log_based.Prelude.{Result-cases}
use vol_log_based.Prelude.{ℕ, zero, suc, ◌+◌, ◌-◌, ◌≤◌, ◌<◌, ◌≡◌, refl, ap, ap₂, sym, ◌∙◌}
use vol_log_based.Prelude.{List, [], ◌∷◌, ◌++◌, length, drop, arith, leb, All}
use vol_log_based.Prelude.{Option, none, some, false, if◌then◌else◌, Error}
use vol_log_based.Prelude.{Result, ok, err, Bool-cases, inl, inr}
use vol_log_based.Prelude.{append_assoc, append-nil, take-drop, drop-drop, drop_all}
use vol_log_based.Sections.Update.{Under, IdxState, next_part}
use vol_log_based.Sections.Search.{search_parts, after_part, read_idx_search}
use vol_log_based.Sections.Layout.{join_all}
use vol_log_based.Sections.Cover.{Holds}
use vol_log_based.Sections.Parts.{IsPart, part, stop, stop_lem, image_fits, metaupdate_part_lem}
use vol_log_based.Sections.Searched.{
  sections_of, flat, count_of, search_each, ℕ-cases, next_end, next_dataset, next_section, singles,
  flat-singles, singles-IsPart,
}

module _ {I H : Type 0} (under : Under) (parse_block : List ℕ → I → Result I) (clear : I → I)
    (flush : IdxState I → IdxState I) (limit : ℕ) (search : I → H → H) {n : ℕ}
    {files : ℕ → List (List ℕ)} (holds : Holds under n files) where
  -- The loop from section `sec` of dataset `md` on, which `k` datasets follow.
  abbrev Covered : ℕ → ℕ → ℕ → ℕ → IdxState I → H → Type 0
  Covered fuel k md sec s hits =
      (parts : List (List (List ℕ))) × (flat parts
        ≡ drop sec (files md) ++ sections_of files k (suc md))
      × All (IsPart limit) parts
      × (search_parts under parse_block clear flush limit search fuel md sec s hits
          ≡ some (search_each parse_block clear search parts s hits))

  -- A turn of the loop, by what its part is parsed to and where the next begins.
  turn_err :
      (fuel md sec : ℕ) (s : IdxState I) (hits : H) {e : Error}
      → md < n
      → sec < length (files md)
      → s.metadirty ≡ false
      → parse_block (join_all (part limit sec (files md))) (clear s.idx) ≡ err e
      → search_parts under parse_block clear flush limit search (suc fuel) md sec s hits
        ≡ some (err e)
  unfolding search_parts
  turn_err fuel md sec s hits h here clean f =
      rw (metaupdate_part_lem under parse_block clear flush limit holds s md sec h here clean, f)
        refl

  turn_ok :
      (fuel md sec : ℕ) (s : IdxState I) (hits : H) {x : I} (next : Option (ℕ × ℕ))
      → md < n
      → sec < length (files md)
      → s.metadirty ≡ false
      → parse_block (join_all (part limit sec (files md))) (clear s.idx) ≡ ok x
      → next_part s.nmdset (length (files md)) md (stop limit sec (files md)) ≡ next
      → search_parts under parse_block clear flush limit search (suc fuel) md sec s hits
        ≡ after_part under parse_block clear flush limit search
            (search_parts under parse_block clear flush limit search fuel)
            hits
            (ok (record s { idx = x }, next))
  unfolding search_parts
  turn_ok fuel md sec s hits next h here clean f g =
      rw (metaupdate_part_lem under parse_block clear flush limit holds s md sec h here clean, f, g)
        refl

  cover :
      (fuel k md sec : ℕ) (s : IdxState I) (hits : H)
      → s.metadirty ≡ false
      → s.nmdset ≡ n
      → md + suc k ≡ n
      → sec < length (files md)
      → length (files md) - sec + count_of files k (suc md) ≤ fuel
      → Covered fuel k md sec s hits
  unfolding after_part
  cover zero k md sec s hits clean count at here enough = absurd (omega (arith, here, enough))
  cover (suc fuel) k md sec s hits clean count at here enough =
      let h : md < n = omega (arith, at) in
      let cs = files md in
      let (lo, hi, is_part) =
        stop_lem limit sec cs here (image_fits under parse_block clear flush limit holds md h) in
      let i = stop limit sec cs in
      let p = part limit sec cs in
      let e : sec + (i - sec) ≡ i = omega (arith, lo) in
      let behind = rw e at (drop-drop (i - sec) sec cs) in
      let front = take-drop (i - sec) (drop sec cs) in
      elim (Result-cases (parse_block (join_all p) (clear s.idx))) [
        | inl f ↦
            let rest = drop i cs ++ sections_of files k (suc md) in
            (
              p ∷ singles rest,
              rw (flat-singles rest) (
                  sym (append_assoc p (drop i cs) (sections_of files k (suc md)))
                  ∙ ap (λ t. t ++ sections_of files k (suc md)) (rw behind at front)),
              (is_part, singles-IsPart limit rest),
              turn_err fuel md sec s hits h here clean f.1 ∙ rw f.1 refl,
            )
        | inr f ↦ elim (Bool-cases (leb (length cs) i)) [
          | inl last ↦
              let all : i ≡ length cs = ground (arith, last, hi) in
              let whole : p ≡ drop sec cs =
                sym (append-nil p)
                ∙ ap (λ t. p ++ t) (sym (rw all (drop_all cs)))
                ∙ rw behind at front in
              elim (ℕ-cases k) [
                | inl z ↦
                    let end =
                      next_end s.nmdset (length cs) md i last (ground (arith, count, at, z)) in
                    (
                      p ∷ [],
                      rw (z, append-nil p, append-nil (drop sec cs)) whole,
                      (is_part, tt),
                      turn_ok fuel md sec s hits none h here clean f.1 end ∙ rw f.1 refl,
                    )
                | inr w ↦
                    let (j, kj) = w in
                    let next =
                      next_dataset s.nmdset (length cs) md i last (ground (arith, count, at, kj)) in
                    let some_more = holds.some_section (suc md) (omega (arith, at, kj)) in
                    let c = rw kj at enough in
                    let (ps, fl, are, run) =
                      cover fuel j (suc md) 0 (record s { idx = f.0 }) (search f.0 hits) clean count
                        (omega (arith, at, kj)) some_more (omega (arith, c, here)) in
                    (
                      p ∷ ps,
                      ap₂ (λ a b. a ++ b) whole
                          (fl ∙ ap (λ m. sections_of files m (suc md)) (sym kj)),
                      (is_part, are),
                      turn_ok fuel md sec s hits (some (suc md, 0)) h here clean f.1 next
                          ∙ run
                          ∙ rw f.1 refl,
                    )
              ]
          | inr more ↦
              let next = next_section s.nmdset (length cs) md i more (ground (arith, count, at)) in
              let (ps, fl, are, run) =
                cover fuel k md i (record s { idx = f.0 }) (search f.0 hits) clean count at
                  (ground (arith, more, hi)) (omega (arith, lo, enough, here)) in
              (
                p ∷ ps,
                ap (λ t. p ++ t) fl
                    ∙ (sym (append_assoc p (drop i cs) (sections_of files k (suc md)))
                        ∙ ap (λ t. t ++ sections_of files k (suc md)) (rw behind at front)),
                (is_part, are),
                turn_ok fuel md sec s hits (some (md, i)) h here clean f.1 next ∙ run ∙ rw f.1 refl,
              )
        ]
      ]

  -- With a limit on the metadata in memory and as much fuel as the file has sections, the search
  -- of a file that is not dirty and has metadata datasets, which hold their sections, ends: it
  -- reads and searches parts that together are all sections of all datasets in order, none twice
  -- and none left out, each a single section or no larger than the limit; an exception of the
  -- index ends it.
  pub read_idx_search-covers :
      (fuel : ℕ) (s : IdxState I) (hits : H)
      → s.metadirty ≡ false
      → s.nmdset ≡ n
      → 0 < n
      → count_of files n 0 ≤ fuel
      → (parts : List (List (List ℕ))) × (flat parts ≡ sections_of files n 0)
        × All (IsPart limit) parts
        × (read_idx_search under parse_block clear flush limit search false fuel s hits
            ≡ some (search_each parse_block clear search parts s hits))
  unfolding read_idx_search
  read_idx_search-covers fuel s hits clean count nonempty enough = elim (ℕ-cases n) [
    | inl z ↦ absurd (omega (arith, z, nonempty))
    | inr w ↦
        let (j, e) = w in
        let c = rw e at enough in
        let (ps, fl, are, run) =
          cover fuel j 0 0 s hits clean count (omega (arith, e)) (holds.some_section 0 nonempty)
            (omega (arith, c)) in
        let all = fl ∙ ap (λ m. sections_of files m 0) (sym e) in
        (
          ps,
          all,
          are,
          ap
                (λ b.
                  search_parts under parse_block clear flush limit search fuel 0 0
                    (if b then flush s else s) hits)
                clean
              ∙ run,
        )
  ]
