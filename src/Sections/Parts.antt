-- ===== src/Sections/Parts.antt =====
-- src/H5VL_log_filei_meta.cpp: lemmas on the part of a metadata dataset that one call of
-- `H5VL_log_filei_metaupdate_part` reads.
use vol_log_based.Prelude.{ℕ, zero, suc, ◌+◌, ◌-◌, ◌*◌, ◌^◌, ◌≤◌, ◌<◌, ◌≡◌, refl, ap, ap₂, ◌∙◌}
use vol_log_based.Prelude.{List, [], ◌∷◌, length, take, drop, get_or, arith, ltb, leb}
use vol_log_based.Prelude.{false, if◌then◌else◌, sub64, mul64}
use vol_log_based.Prelude.{Result, ok, ◌>>=◌, Bool-cases, inl, inr, ◌⊎◌}
use vol_log_based.Prelude.{length-take, length-drop}
use vol_log_based.Sections.Update.{
  Under, IdxState, read_part, metaupdate_part, ready, fitting, next_part, section_begin,
}
use vol_log_based.Sections.Layout.{
  size, ends, map_end, length-image, first_word, end_words, length-ends, size-split, get_or-ends,
  section_begin_lem, range-sections, join_all,
}
use vol_log_based.Sections.Cover.{Holds, count_read}

-- The count of sections that fit: none more, or some whose last end is within the limit.
fitting_lem :
    (limit start i : ℕ) (os : List ℕ)
    → (fitting limit start i os ≡ i)
      ⊎ ((j : ℕ) × (fitting limit start i os ≡ i + suc j)
          × (j < length os)
          × (sub64 (get_or os j 0) start ≤ limit))
unfolding fitting
fitting_lem limit start i [] = inl refl
fitting_lem limit start i (o ∷ os) = elim (Bool-cases (ltb limit (sub64 o start))) [
  | inl e ↦ inl (rw e refl)
  | inr e ↦ elim (fitting_lem limit start (suc i) os) [
    | inl f ↦ inr (0, rw e (omega (arith, f)), omega arith, ground (arith, e))
    | inr f ↦ inr (suc f.0, rw e (omega (arith, f.1)), omega (arith, f.2), f.3)
  ]
]

get_or-drop : (k j : ℕ) (os : List ℕ) → get_or (drop k os) j 0 ≡ get_or os (k + j) 0
get_or-drop zero j os = let e : 0 + j ≡ j = omega arith in rw e refl
get_or-drop (suc k) j [] = refl
get_or-drop (suc k) j (o ∷ os) =
    let e : suc k + j ≡ suc (k + j) = omega arith in rw e (get_or-drop k j os)

size-take-le : (k : ℕ) (cs : List (List ℕ)) → size (take k cs) ≤ size cs
size-take-le zero cs = omega arith
size-take-le (suc k) [] = omega arith
size-take-le (suc k) (c ∷ cs) = omega (arith, size-take-le k cs)

-- The sections that a call with this limit reads, from number `sec` of a dataset on.
abbrev pub IsPart : ℕ → List (List ℕ) → Type 0
IsPart limit cs = (length cs ≡ 1) ⊎ (size cs ≤ limit)

-- The number behind the last section that a call reads from `sec` on, and what it reads.
abbrev pub stop : ℕ → ℕ → List (List ℕ) → ℕ
stop limit sec cs =
    fitting limit (section_begin (length cs) (ends (map_end cs) cs) sec) (suc sec)
      (drop (suc sec) (ends (map_end cs) cs))

abbrev pub part : ℕ → ℕ → List (List ℕ) → List (List ℕ)
part limit sec cs = take (stop limit sec cs - sec) (drop sec cs)

module _ (limit sec : ℕ) (cs : List (List ℕ)) (here : sec < length cs)
    (fits : map_end cs + size cs < 2 ^ 63) where
  start_lem : section_begin (length cs) (ends (map_end cs) cs) sec ≡ map_end cs + size (take sec cs)
  start_lem = section_begin_lem sec cs (omega (arith, fits)) (omega (arith, here))

  -- Bytes from the begin of `sec` to the end of section `i`.
  between :
      (i : ℕ)
      → sec ≤ i
      → i < length cs
      → sub64
          (get_or (ends (map_end cs) cs) i 0)
          (section_begin (length cs) (ends (map_end cs) cs) sec)
        ≡ size (take (suc i - sec) (drop sec cs))
  between i h1 h2 =
      let e : sec + (suc i - sec) ≡ suc i = omega (arith, h1) in
      let cut = rw e at (size-split sec (suc i - sec) cs) in
      omega (arith, get_or-ends (map_end cs) i cs h2, start_lem, cut, size-take-le (suc i) cs, fits)

  -- At least one section is read, none behind the last, and more than one only within the limit.
  pub stop_lem :
      (sec < stop limit sec cs) × (stop limit sec cs ≤ length cs) × IsPart limit (part limit sec cs)
  stop_lem =
      let offs = ends (map_end cs) cs in
      let rest = length-drop (suc sec) offs in
      let all = length-ends (map_end cs) cs in
      let left = length-drop sec cs in
      elim (fitting_lem limit (section_begin (length cs) offs sec) (suc sec)
        (drop (suc sec) offs)) [
          | inl f ↦
              let one : stop limit sec cs - sec ≡ 1 = omega (arith, f) in
              (
                omega (arith, f),
                omega (arith, f, here),
                inl (rw one (length-take 1 (drop sec cs) (omega (arith, left, here)))),
              )
          | inr f ↦
              let (j, e, short, within) = f in
              let last : suc (suc sec + j) ≡ stop limit sec cs = omega (arith, e) in
              let w = rw (get_or-drop (suc sec) j offs) at within in
              let b =
                rw last at
                  (between (suc sec + j) (omega arith) (omega (arith, short, rest, all))) in
              (omega (arith, e), omega (arith, e, short, rest, all), inr (omega (arith, w, b)))
        ]

module _ {u} {I : Type u} (under : Under) (parse_block : List ℕ → I → Result I) (clear : I → I)
    (flush : IdxState I → IdxState I) (limit : ℕ) {n : ℕ} {files : ℕ → List (List ℕ)}
    (holds : Holds under n files) where
  ready_lem :
      (s : IdxState I)
      → s.metadirty ≡ false
      → ready under parse_block clear flush s ≡ record s { idx = clear s.idx }
  unfolding ready
  ready_lem s e = ap (λ b. let t = if b then flush s else s in record t { idx = clear t.idx }) e

  pub image_fits : (md : ℕ) → md < n → map_end (files md) + size (files md) < 2 ^ 63
  image_fits md h = omega (arith, length-image (files md), holds.fits md h)

  read_part_lem :
      (s : IdxState I) (md sec : ℕ)
      → md < n
      → sec < length (files md)
      → read_part under parse_block clear flush limit s md sec ≡ (
          parse_block (join_all (part limit sec (files md))) s.idx >>= λ idx. ok (
            record s { idx = idx },
            next_part s.nmdset (length (files md)) md (stop limit sec (files md)),
          ))
  unfolding read_part
  read_part_lem s md sec h here =
      let cs = files md in
      let fit = image_fits md h in
      let i = stop limit sec cs in
      let p = part limit sec cs in
      let (lo, hi, _) = stop_lem limit sec cs here fit in
      let len = length-image cs in
      let eight : mul64 8 (length cs) ≡ 8 * length cs = omega (arith, fit) in
      let in_range : leb (length cs) sec ≡ false = ground (arith, here) in
      let some_read : leb i sec ≡ false = ground (arith, lo) in
      let last : suc (i - 1) ≡ i = omega (arith, lo) in
      let count =
        rw last at
          (between limit sec cs here fit (i - 1) (omega (arith, lo)) (omega (arith, lo, hi))) in
      let e : sec + (i - sec) ≡ i = omega (arith, lo) in
      let cut = rw e at (size-split sec (i - sec) cs) in
      let at_start = start_lem limit sec cs here fit in
      let reading =
        ap₂ (under.read md) at_start count
        ∙ holds.reads md (map_end cs + size (take sec cs)) (size p) h
            (omega (arith, len, cut, size-take-le i cs))
        ∙ ap ok (range-sections sec (i - sec) cs) in
      rw
        (
          holds.sizes md h,
          count_read under parse_block clear flush holds md h,
          first_word cs (omega (arith, fit)),
          eight,
          holds.reads md 8 (8 * length cs) h (omega (arith, len)),
          end_words cs (omega (arith, fit)),
          in_range,
          some_read,
          reading,
        )
        refl

  -- One call reads a part into an empty index and advances to the section behind it.
  pub metaupdate_part_lem :
      (s : IdxState I) (md sec : ℕ)
      → md < n
      → sec < length (files md)
      → s.metadirty ≡ false
      → metaupdate_part under parse_block clear flush limit s md sec ≡ (
          parse_block (join_all (part limit sec (files md))) (clear s.idx) >>= λ idx. ok (
            record s { idx = idx },
            next_part s.nmdset (length (files md)) md (stop limit sec (files md)),
          ))
  unfolding metaupdate_part
  metaupdate_part_lem s md sec h here clean =
      ap (λ t. read_part under parse_block clear flush limit t md sec) (ready_lem s clean)
      ∙ read_part_lem (record s { idx = clear s.idx }) md sec h here
