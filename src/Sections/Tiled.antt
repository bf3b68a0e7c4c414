-- ===== src/Sections/Tiled.antt =====
-- src/H5VL_log_filei_meta.cpp: the metadata dataset that a group of processes writes.
use vol_log_based.Prelude.{ℕ, suc, ◌+◌, ◌/◌, ◌^◌, ◌<◌, ◌≡◌, refl, ap, ap₂, sym, ◌∙◌}
use vol_log_based.Prelude.{List, [], ◌∷◌, ◌++◌, length, All, map, ◌==◌, arith}
use vol_log_based.Prelude.{Option, some, false, lt→ltb, to_int, add64, sub64}
use vol_log_based.Prelude.{length-append}
use vol_log_based.Meta.Codec.{put_words}
use vol_log_based.Request.Write.{WReq}
use vol_log_based.Sections.Flush.{sizes_from, flush_from, flush_group, cleared}
use vol_log_based.Sections.Flush.{
  MetaState, to_file, metaflush, mem_blocks, map_size, mdoffs_snd, section_map, hindexed,
  local_mdsize, add_lens, md_output, found, widen,
}
use vol_log_based.Sections.Layout.{length-map, map_end, join_all, size, ends, image, length-image}
use vol_log_based.Sections.Written.{
  IsSized, section, sections, AllSized, flatten, chunks, tiles, starts, to_pairs, take_all,
  hindexed-entries, add_lens-entries, length-sections, join_all-chunks, accumulate-lengths, snd_lem,
}

first_size :
    (np : ℕ) (rs : List WReq)
    → All IsSized rs
    → map_size np < 2 ^ 31
    → map_size np + length (section rs) < 2 ^ 63
    → local_mdsize np 0 rs ≡ map_size np + length (section rs)
unfolding local_mdsize mem_blocks add_lens
first_size np rs sized small fits =
    let e : add64 0 (widen (to_int (map_size np))) ≡ map_size np = ground (arith, small) in
    rw (add_lens, e) (add_lens-entries (map_size np) rs sized fits)

not_first : (k : ℕ) → (suc k == 0) ≡ false
not_first k = ground arith

other_size :
    (np k : ℕ) (rs : List WReq)
    → All IsSized rs
    → length (section rs) < 2 ^ 63
    → local_mdsize np (suc k) rs ≡ length (section rs)
unfolding local_mdsize mem_blocks
other_size np k rs sized fits =
    let e = add_lens-entries 0 rs sized (omega (arith, fits)) in
    rw (not_first k, local_mdsize) (omega (arith, e))

other_sizes :
    (np k : ℕ) (ss : List MetaState)
    → AllSized ss
    → size (sections ss) < 2 ^ 63
    → sizes_from np (suc k) ss ≡ map length (sections ss)
other_sizes np k [] sized fits = refl
other_sizes np k (s ∷ ss) (h, hs) fits =
    ap₂ (λ n t. n ∷ t) (other_size np k s.queue.wreqs h (omega (arith, fits)))
      (other_sizes np (suc k) ss hs (omega (arith, fits)))

section_map_lem :
    (n : ℕ) (c : List ℕ) (cs : List (List ℕ))
    → n ≡ length (c ∷ cs)
    → map_size n < 2 ^ 31
    → size (chunks (c ∷ cs)) < 2 ^ 64
    → section_map n (map length (chunks (c ∷ cs)))
      ≡ length (c ∷ cs) ∷ ends (map_end (c ∷ cs)) (c ∷ cs)
unfolding section_map
section_map_lem n c cs hn small fits =
    let all = c ∷ cs in
    let front = put_words (length all ∷ ends (map_end all) all) in
    let count : sub64 (to_int (map_size n) / 8) 1 ≡ length all = omega (arith, hn, small) in
    let here : 0 + length (front ++ c) ≡ map_end all + length c =
      omega (arith, length-append front c, length-map all) in
    rw (count, accumulate-lengths 0 (chunks all) (omega (arith, fits)), here) refl

-- The processes behind the first.
others :
    (at : Option ℕ × Option ℕ) (d : ℕ) (np : ℕ) (sizes : List ℕ) (total k off : ℕ)
    (ss : List MetaState)
    → found at.0 at.1 ≡ some d
    → AllSized ss
    → map_size np < total
    → flush_from at np sizes (suc k) (to_pairs total (starts off (sections ss))) ss
      ≡ tiles total (d + off) ss (sections ss)
unfolding metaflush md_output mem_blocks
others at d np sizes total k off [] at_d sized more = refl
others at d np sizes total k off (s ∷ ss) at_d (h, hs) more =
    let c = section s.queue.wreqs in
    let e : d + off + length c ≡ d + (off + length c) = omega arith in
    rw
      (
        lt→ltb (map_size np) total more,
        at_d,
        md_output,
        not_first k,
        mem_blocks,
        hindexed-entries s.queue.wreqs h,
        e,
      )
      (ap (λ t. (cleared (record s { nmdset = suc s.nmdset }), some total, to_file (d + off) c) ∷ t)
        (others at d np sizes total (suc k) (off + length c) ss at_d hs more))

-- The bytes of rank 0: the map, then its section.
first_bytes :
    (np : ℕ) (c : List ℕ) (cs : List (List ℕ)) (rs : List WReq)
    → np ≡ length (c ∷ cs)
    → All IsSized rs
    → c ≡ section rs
    → map_size np < 2 ^ 31
    → size (chunks (c ∷ cs)) < 2 ^ 64
    → hindexed (mem_blocks np 0 (put_words (section_map np (map length (chunks (c ∷ cs))))) rs)
      ≡ put_words (length (c ∷ cs) ∷ ends (map_end (c ∷ cs)) (c ∷ cs)) ++ c
unfolding mem_blocks hindexed
first_bytes np c cs rs count h is_c small fits =
    let front = put_words (length (c ∷ cs) ∷ ends (map_end (c ∷ cs)) (c ∷ cs)) in
    let len : to_int (map_size np) ≡ length front =
      omega (arith, length-map (c ∷ cs), count, small) in
    rw (section_map_lem np c cs count small fits, len, take_all front, hindexed-entries rs h)
      (ap (λ t. front ++ t) (sym is_c))

first :
    (at : Option ℕ × Option ℕ) (d np : ℕ) (sizes : List ℕ) (total : ℕ) (bytes : List ℕ)
    (s : MetaState)
    → found at.0 at.1 ≡ some d
    → map_size np < total
    → hindexed (mem_blocks np 0 (put_words (section_map np sizes)) s.queue.wreqs) ≡ bytes
    → metaflush
        (record {
          passthru = false;
          group_np = np;
          group_rank = 0;
          sizes = sizes;
          rbuf = (0, total);
          mdoff = at.0;
          mdoff_again = at.1;
          fresh = λ n. [];
        })
        s
      ≡ (cleared (record s { nmdset = suc s.nmdset }), some total, to_file d bytes)
unfolding metaflush
first at d np sizes total bytes s at_d more e =
    let next : d + 0 ≡ d = omega arith in
    rw (lt→ltb (map_size np) total more, md_output, at_d, e, next) refl

-- In a flush in MPI mode whose processes together have an entry, the requests' header sizes being
-- right and the whole below 2 ^ 63 bytes, with fewer than 2 ^ 28 processes: every process creates
-- a dataset of as many bytes as the image of the processes' sections has, writes its bytes at the
-- dataset's file offset behind those of the processes of lower rank, and has no request left; and
-- the bytes written one behind the other are the image.
pub flush_group-image :
    (gather : List ℕ → List ℕ) (scatter : List ℕ → List (ℕ × ℕ))
    (gathers : (xs : List ℕ) → gather xs ≡ xs)
    (scatters : (ps : List (ℕ × ℕ)) → scatter (flatten ps) ≡ ps) (at : Option ℕ × Option ℕ) (d : ℕ)
    (s : MetaState) (ss : List MetaState)
    → found at.0 at.1 ≡ some d
    → AllSized (s ∷ ss)
    → 0 < size (sections (s ∷ ss))
    → length (s ∷ ss) + 1 < 2 ^ 28
    → length (image (sections (s ∷ ss))) < 2 ^ 63
    → (flush_group gather scatter at (s ∷ ss)
        ≡ tiles (length (image (sections (s ∷ ss)))) d (s ∷ ss) (chunks (sections (s ∷ ss))))
      × (join_all (chunks (sections (s ∷ ss))) ≡ image (sections (s ∷ ss)))
unfolding flush_group metaflush md_output mem_blocks
flush_group-image gather scatter gathers scatters at d s ss at_d (h, hs) some_entry few fits =
    let c = section s.queue.wreqs in
    let cs = sections ss in
    let np = length (s ∷ ss) in
    let M = map_end (c ∷ cs) in
    let front = put_words (length (c ∷ cs) ∷ ends M (c ∷ cs)) in
    let count : np ≡ length (c ∷ cs) = ap suc (sym (length-sections ss)) in
    let all = length-image (c ∷ cs) in
    let front_len = length-append front c in
    let map_len = length-map (c ∷ cs) in
    let own : local_mdsize np 0 s.queue.wreqs ≡ length (front ++ c) =
      first_size np s.queue.wreqs h (omega (arith, few)) (omega (arith, few, all, count, fits))
      ∙ omega (arith, front_len, map_len, count) in
    let sizes_are : sizes_from np 0 (s ∷ ss) ≡ map length (chunks (c ∷ cs)) =
      ap₂ (λ n t. n ∷ t) own (other_sizes np 0 ss hs (omega (arith, all, fits))) in
    let total : size (chunks (c ∷ cs)) ≡ length (image (c ∷ cs)) =
      omega (arith, all, front_len, map_len) in
    let sent = snd_lem np (chunks (c ∷ cs)) count (omega (arith, total, fits)) in
    let the_map = section_map_lem np c cs count (omega (arith, few)) (omega (arith, total, fits)) in
    let more : map_size np < length (image (c ∷ cs)) = omega (arith, all, count, some_entry) in
    let bytes =
      first_bytes np c cs s.queue.wreqs count h refl (omega (arith, few))
        (omega (arith, total, fits)) in
    let step : 0 + length (front ++ c) ≡ length (front ++ c) = omega arith in
    let recv : scatter (mdoffs_snd np (map length (chunks (c ∷ cs)))) ≡ _ =
      ap scatter sent
      ∙ scatters (to_pairs (size (chunks (c ∷ cs))) (starts 0 (chunks (c ∷ cs))))
      ∙ ap₂ (λ n m. to_pairs n (0 ∷ starts m cs)) total step in
    let sizes = map length (chunks (c ∷ cs)) in
    let total_size = length (image (c ∷ cs)) in
    let behind = others at d np sizes total_size 0 (length (front ++ c)) ss at_d hs more in
    let head = first at d np sizes total_size (front ++ c) s at_d more bytes in
    let written = ap₂ (λ x t. x ∷ t) head behind in
    (
      ap (λ ns. flush_from at np ns 0 (scatter (mdoffs_snd np ns)) (s ∷ ss))
            (gathers (sizes_from np 0 (s ∷ ss)) ∙ sizes_are)
          ∙ ap (λ ps. flush_from at np (map length (chunks (c ∷ cs))) 0 ps (s ∷ ss)) recv
          ∙ written,
      join_all-chunks c cs,
    )
