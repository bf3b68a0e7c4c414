-- ===== src/Transfer/Perform/Assigned.antt =====
-- src/H5VL_logi_nb.cpp: the buffers that `H5VL_log_nb_perform_read` allocates for filtered data.
use vol_log_based.Prelude.{
  ℕ, suc, ◌<◌, ◌≡◌, inl, inr, refl, ap, ◌∙◌, sym, arith, Bool, true, false, List, [], ◌∷◌, ◌++◌,
  none, some, ltb, Bool-cases, Option-cases, if◌then◌else◌, length, All, ◌==◌,
}
use vol_log_based.Prelude.{ok}
use vol_log_based.File.Registry.{put}
use vol_log_based.File.Registry.Live.{put-cases}
use vol_log_based.Transfer.Rows.{ReadBlock}
use vol_log_based.Transfer.Types.{
  Part, single, newgroup, make_types, count_types, mark_groups, gen_rtypes,
}
use vol_log_based.Transfer.Perform.{UnfilterBuffers, UnfilterCalls, assign_buffer, assign_buffers}
use vol_log_based.Transfer.Perform.Events.{CanUnfilter}

-- What a turn of the loop does that does not fail.
unfoldable pub assigned :
    (ℕ → List ℕ) → (ℕ → ℕ → ℕ) → ReadBlock → UnfilterBuffers → ReadBlock × UnfilterBuffers
assigned filters malloc b s = elim (ltb 0 (length (filters b.hit.info))) [
  | false ↦ (b, s)
  | true ↦ elim (s.bufs b.hit.foff) [
    | none ↦
        let size = if ltb b.hit.xsize b.hit.fsize then b.hit.fsize else b.hit.xsize in
        let z = malloc s.allocated size in
        (
          record b { zbuf = some z },
          record {
            bufs = put s.bufs b.hit.foff (some z);
            allocated = suc s.allocated;
            tbsize = if ltb s.tbsize b.hit.xsize then b.hit.xsize else s.tbsize;
          },
        )
    | some z ↦ (record b { zbuf = some z; hit = record b.hit { fsize = 0 } }, s)
  ]
]

unfoldable pub assigned_all :
    (ℕ → List ℕ) → (ℕ → ℕ → ℕ) → List ReadBlock → UnfilterBuffers → List ReadBlock × UnfilterBuffers
unfolding assigned
assigned_all filters malloc [] s = ([], s)
assigned_all filters malloc (b ∷ bs) s =
    let first = assigned filters malloc b s in
    let later = assigned_all filters malloc bs first.1 in (first.0 ∷ later.0, later.1)

-- A block that the search found of a filtered dataset, whose filters can be undone.
abbrev pub IsFiltered : (ℕ → List ℕ) → UnfilterCalls → ReadBlock → Type 0
IsFiltered filters u b =
    (0 < length (filters b.hit.info)) × (0 < b.hit.fsize) × CanUnfilter filters u b

-- The buffers that the map has are unfiltered, and these are allocated.
abbrev pub IsCurrent : (ℕ → ℕ → ℕ) → UnfilterBuffers → (ℕ → Bool) → Type 0
IsCurrent malloc s clear =
    ((foff z : ℕ) → s.bufs foff ≡ some z → clear z ≡ true)
    × ((z : ℕ) → clear z ≡ true → (k : ℕ) × (n : ℕ) × (k < s.allocated) × (z ≡ malloc k n))

-- No address is given twice.
abbrev pub IsFresh : (ℕ → ℕ → ℕ) → Type 0
IsFresh malloc = (i j m n : ℕ) → malloc i m ≡ malloc j n → i ≡ j

-- The first block of an entry: the size of its buffer, and the buffers behind it.
abbrev pub buffer_size : ReadBlock → ℕ
buffer_size b = if ltb b.hit.xsize b.hit.fsize then b.hit.fsize else b.hit.xsize

abbrev pub buffers_behind : ReadBlock → ℕ → UnfilterBuffers → UnfilterBuffers
buffers_behind b z s = record {
  bufs = put s.bufs b.hit.foff (some z);
  allocated = suc s.allocated;
  tbsize = if ltb s.tbsize b.hit.xsize then b.hit.xsize else s.tbsize;
}

pub assign_buffer_new :
    (filters : ℕ → List ℕ) (malloc : ℕ → ℕ → ℕ) (b : ReadBlock) (s : UnfilterBuffers) (z : ℕ)
    → 0 < length (filters b.hit.info)
    → s.bufs b.hit.foff ≡ none
    → malloc s.allocated (buffer_size b) ≡ z
    → assigned filters malloc b s ≡ (record b { zbuf = some z }, buffers_behind b z s)
unfolding assigned
assign_buffer_new filters malloc b s z has new e = ground (arith, new, e)

pub assign_buffer_old :
    (filters : ℕ → List ℕ) (malloc : ℕ → ℕ → ℕ) (b : ReadBlock) (s : UnfilterBuffers) (z : ℕ)
    → 0 < length (filters b.hit.info)
    → s.bufs b.hit.foff ≡ some z
    → assigned filters malloc b s
      ≡ (record b { zbuf = some z; hit = record b.hit { fsize = 0 } }, s)
unfolding assigned
assign_buffer_old filters malloc b s z has old = ground (arith, old)

pub none≢some : {z : ℕ} → none ≡ some z → ⊥
none≢some e = cc e

pub false≢true : false ≡ true → ⊥
false≢true e = cc e

some_eq : {v w : ℕ} → some w ≡ some v → w ≡ v
some_eq {v = v} e = ap (λ o. elim o [ none ↦ v | some x ↦ x ]) e

-- The state behind a first block is current where its buffer is unfiltered.
pub buffers_behind-IsCurrent :
    (malloc : ℕ → ℕ → ℕ) (b : ReadBlock) (s : UnfilterBuffers) (clear : ℕ → Bool)
    → IsCurrent malloc s clear
    → let z = malloc s.allocated (buffer_size b) in
      IsCurrent malloc (buffers_behind b z s) (put clear z true)
buffers_behind-IsCurrent malloc b s clear now = (
  λ foff w e.
      let z = malloc s.allocated (buffer_size b) in
      elim (put-cases clear z true w) [
        | inl (same, set) ↦ set
        | inr (other, set) ↦ elim (put-cases s.bufs b.hit.foff (some z) foff) [
          | inl (here, got) ↦ absurd (other (some_eq (sym e ∙ got)))
          | inr (there, got) ↦ set ∙ now.0 foff w (sym got ∙ e)
        ]
      ],
  λ w e.
      let z = malloc s.allocated (buffer_size b) in
      elim (put-cases clear z true w) [
        | inl (same, set) ↦ (s.allocated, buffer_size b, omega arith, same)
        | inr (other, set) ↦ let (k, n, lt, at) = now.1 w (sym set ∙ e) in (k, n, omega arith, at)
      ],
)

pub unfilter_fresh :
    (malloc : ℕ → ℕ → ℕ) (s : UnfilterBuffers) (clear : ℕ → Bool) (n : ℕ)
    → IsFresh malloc
    → IsCurrent malloc s clear
    → clear (malloc s.allocated n) ≡ false
unfilter_fresh malloc s clear n fresh now = elim (Bool-cases (clear (malloc s.allocated n))) [
  | inr dirty ↦ dirty
  | inl held ↦
      let (k, m, lt, at) = now.1 (malloc s.allocated n) held in
      let same = fresh s.allocated k n m at in absurd (omega (arith, lt, same))
]

-- A block that has a buffer.
abbrev pub HasBuffer : ReadBlock → Type 0
HasBuffer b = (z : ℕ) × (b.zbuf ≡ some z)

assign_buffer-HasBuffer :
    (filters : ℕ → List ℕ) (malloc : ℕ → ℕ → ℕ) (b : ReadBlock) (s : UnfilterBuffers)
    → 0 < length (filters b.hit.info)
    → HasBuffer (assigned filters malloc b s).0
assign_buffer-HasBuffer filters malloc b s has = elim (Option-cases (s.bufs b.hit.foff)) [
  | inl new ↦
      let z = malloc s.allocated (buffer_size b) in
      (z, rw (assign_buffer_new filters malloc b s z has new refl) refl)
  | inr (z, old) ↦ (z, rw (assign_buffer_old filters malloc b s z has old) refl)
]

pub assign_buffers-HasBuffer :
    (filters : ℕ → List ℕ) (malloc : ℕ → ℕ → ℕ) (u : UnfilterCalls) (bs : List ReadBlock)
    (s : UnfilterBuffers)
    → All (IsFiltered filters u) bs
    → All HasBuffer (assigned_all filters malloc bs s).0
unfolding assigned_all
assign_buffers-HasBuffer filters malloc u [] s all = tt
assign_buffers-HasBuffer filters malloc u (b ∷ bs) s (hb, all) = (
  assign_buffer-HasBuffer filters malloc b s hb.0,
  assign_buffers-HasBuffer filters malloc u bs (assigned filters malloc b s).1 all,
)

-- Blocks with buffers are not grouped.
pub make_types-HasBuffer :
    (j : ReadBlock) (bs : List ReadBlock)
    → All HasBuffer bs
    → (parts : List Part) × (make_types [] bs (newgroup j bs) ≡ ok (parts, []))
unfolding make_types newgroup
make_types-HasBuffer j [] all = ([], refl)
make_types-HasBuffer j (b ∷ []) all = (single b ++ [], refl)
make_types-HasBuffer j (b ∷ (c ∷ rest)) ((z, e), all) =
    let (parts, made) = make_types-HasBuffer c (c ∷ rest) all in
    (single b ++ parts, rw (e, newgroup) (rw made refl))

-- The types of a read of such blocks, which stay in their order.
pub gen_rtypes-HasBuffer :
    (sort : List ReadBlock → List ReadBlock) (b : ReadBlock) (bs blocks : List ReadBlock)
    → sort (b ∷ bs) ≡ blocks
    → All HasBuffer blocks
    → (room : ℕ) × (parts : List Part) × (gen_rtypes sort (b ∷ bs) ≡ some (room, ok (parts, [])))
unfolding gen_rtypes mark_groups count_types make_types
gen_rtypes-HasBuffer sort b bs [] e all = (0, [], rw e refl)
gen_rtypes-HasBuffer sort b bs (c ∷ cs) e all =
    let (parts, made) = make_types-HasBuffer c (c ∷ cs) all in
    (count_types [] (c ∷ cs) (mark_groups (c ∷ cs)) 0, parts, rw e (rw made refl))

-- Allocations that do not fail.
abbrev pub IsGiven : (ℕ → ℕ → ℕ) → Type 0
IsGiven malloc = (i n : ℕ) → (malloc i n == 0) ≡ false

assign_buffer_ok :
    (filters : ℕ → List ℕ) (malloc : ℕ → ℕ → ℕ) (u : UnfilterCalls) (b : ReadBlock)
    (s : UnfilterBuffers)
    → IsGiven malloc
    → assign_buffer filters malloc u b s ≡ ok (assigned filters malloc b s)
unfolding assign_buffer assigned
assign_buffer_ok filters malloc u b s given =
    elim (Bool-cases (ltb 0 (length (filters b.hit.info)))) [
      | inr e ↦ rw (e, assign_buffer, assigned) refl
      | inl e ↦ elim (Option-cases (s.bufs b.hit.foff)) [
        | inl n ↦ rw (e, n, given s.allocated (buffer_size b), assign_buffer, assigned) refl
        | inr (z, o) ↦ rw (e, o, assign_buffer, assigned) refl
      ]
    ]

pub assign_buffers_ok :
    (filters : ℕ → List ℕ) (malloc : ℕ → ℕ → ℕ) (u : UnfilterCalls) (bs : List ReadBlock)
    (s : UnfilterBuffers)
    → IsGiven malloc
    → assign_buffers filters malloc u bs s ≡ ok (assigned_all filters malloc bs s)
unfolding assign_buffers assigned_all
assign_buffers_ok filters malloc u [] s given = refl
assign_buffers_ok filters malloc u (b ∷ bs) s given =
    rw (assign_buffer_ok filters malloc u b s given, assign_buffers)
      (rw (assign_buffers_ok filters malloc u bs (assigned filters malloc b s).1 given) refl)

-- The blocks keep their bytes and filters.
pub assign_buffers-CanUnfilter :
    (filters : ℕ → List ℕ) (malloc : ℕ → ℕ → ℕ) (u : UnfilterCalls) (bs : List ReadBlock)
    (s : UnfilterBuffers)
    → All (IsFiltered filters u) bs
    → All (CanUnfilter filters u) (assigned_all filters malloc bs s).0
unfolding assigned_all
assign_buffers-CanUnfilter filters malloc u [] s all = tt
assign_buffers-CanUnfilter filters malloc u (b ∷ bs) s (hb, all) = (
  elim (Option-cases (s.bufs b.hit.foff)) [
    | inl new ↦
        rw (assign_buffer_new filters malloc b s (malloc s.allocated (buffer_size b)) hb.0 new refl)
          hb.2
    | inr (z, old) ↦ rw (assign_buffer_old filters malloc b s z hb.0 old) hb.2
  ],
  assign_buffers-CanUnfilter filters malloc u bs (assigned filters malloc b s).1 all,
)
