-- ===== src/Transfer/Perform/Unordered.antt =====
-- src/H5VL_logi_nb.cpp: two blocks of one log entry that `std::sort` exchanges in
-- `H5VL_log_nb_perform_read`.
use vol_log_based.Prelude.{
  ℕ, ◌<◌, ◌≡◌, refl, sym, true, false, List, [], ◌∷◌, none, some, length, ok, ap, ◌∙◌, ◌>>=◌, ◌++◌,
}
use vol_log_based.Index.Ordering.{precedes}
use vol_log_based.File.Registry.Live.{put_self}
use vol_log_based.Transfer.Rows.{ReadBlock}
use vol_log_based.Transfer.Types.{Part}
use vol_log_based.Transfer.Perform.{
  no_buffers, UnfilterCalls, Delivery, Event, read_at, pack_elements, post_process_all, read_blocks,
  perform_read,
}
use vol_log_based.Transfer.Perform.Events.{in_order, unfiltered_all, CanUnfilter}
use vol_log_based.Transfer.Perform.Assigned.{
  assigned_all, assign_buffers_ok, IsGiven, buffer_size, buffers_behind, assign_buffer_new,
  assign_buffer_old, gen_rtypes-HasBuffer,
}
use vol_log_based.Transfer.Perform.Ordered.{read_blocks_made}

-- The buffers of two blocks of one entry.
assign_two :
    (filters : ℕ → List ℕ) (malloc : ℕ → ℕ → ℕ) (b c : ReadBlock)
    → 0 < length (filters b.hit.info)
    → 0 < length (filters c.hit.info)
    → b.hit.foff ≡ c.hit.foff
    → let z = malloc 0 (buffer_size b) in
      (assigned_all filters malloc (b ∷ (c ∷ [])) no_buffers).0
      ≡ record b { zbuf = some z }
        ∷ (record c { zbuf = some z; hit = record c.hit { fsize = 0 } } ∷ [])
unfolding assigned_all
assign_two filters malloc b c hb hc same =
    let z = malloc 0 (buffer_size b) in
    let s = buffers_behind b z no_buffers in
    let first = assign_buffer_new filters malloc b no_buffers z hb refl refl in
    let found : s.bufs c.hit.foff ≡ some z =
      rw (sym same) (put_self (λ foff. none) b.hit.foff (some z)) in
    let second = assign_buffer_old filters malloc c s z hc found in rw first (rw second refl)

-- For two filtered blocks of one log entry, of which the second found comes first in the order of
-- the sort, where allocations succeed and the filters can be undone: the read ends, and the first
-- call behind the reading of the file packs the second block from the entry's buffer, so that the
-- calls are not in order.
pub perform_read_exchanged :
    (filters : ℕ → List ℕ) (malloc : ℕ → ℕ → ℕ) (u : UnfilterCalls) (type_size : ℕ → ℕ)
    (sort : List ReadBlock → List ReadBlock) (reqs : List Delivery) (b c : ReadBlock)
    → IsGiven malloc
    → 0 < length (filters b.hit.info)
    → 0 < length (filters c.hit.info)
    → CanUnfilter filters u b
    → CanUnfilter filters u c
    → b.hit.foff ≡ c.hit.foff
    → precedes c.info.ndim c.hit b.hit ≡ true
    → ((x y : ReadBlock)
        → precedes y.info.ndim y.hit x.hit ≡ true
        → sort (x ∷ (y ∷ [])) ≡ y ∷ (x ∷ []))
    → let z = malloc 0 (buffer_size b) in
      let c' = record c { zbuf = some z; hit = record c.hit { fsize = 0 } } in
      (parts : List Part) × (rest : List Event) × (perform_read filters malloc u type_size sort reqs
          (b ∷ (c ∷ []))
        ≡ ok (read_at parts ∷ (pack_elements z c.hit.doff 1 c' ∷ rest)))
      × (in_order (λ x. false) (read_at parts ∷ (pack_elements z c.hit.doff 1 c' ∷ rest)) ≡ false)
unfolding perform_read in_order unfiltered_all precedes
perform_read_exchanged filters malloc u type_size sort reqs b c given hb hc ub uc same before
      sorts =
    let z = malloc 0 (buffer_size b) in
    let b' = record b { zbuf = some z } in
    let c' = record c { zbuf = some z; hit = record c.hit { fsize = 0 } } in
    let exchanged : sort (b' ∷ (c' ∷ [])) ≡ c' ∷ (b' ∷ []) = sorts b' c' before in
    let (room, parts, made) =
      gen_rtypes-HasBuffer sort b' (c' ∷ []) (c' ∷ (b' ∷ [])) exchanged
        ((z, refl), ((z, refl), tt)) in
    let assigns = assign_buffers_ok filters malloc u (b ∷ (c ∷ [])) no_buffers given in
    (
      parts,
      unfiltered_all (b' ∷ []) ++ post_process_all type_size reqs,
      ap (λ r. r >>= λ p. read_blocks filters malloc u type_size sort reqs p.0) assigns
          ∙ ap (read_blocks filters malloc u type_size sort reqs)
              (assign_two filters malloc b c hb hc same)
          ∙ read_blocks_made filters malloc u type_size sort reqs (b' ∷ (c' ∷ [])) (c' ∷ (b' ∷ []))
              room parts exchanged made (uc, (ub, tt)),
      refl,
    )
