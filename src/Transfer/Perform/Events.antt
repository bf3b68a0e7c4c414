-- ===== src/Transfer/Perform/Events.antt =====
-- src/H5VL_logi_nb.cpp: the order of unfiltering and packing in `H5VL_log_nb_perform_read`.
use vol_log_based.Prelude.{
  ℕ, ◌<◌, ◌≡◌, inl, inr, refl, ◌∙◌, arith, Bool, true, false, not, ◌&&◌, List, [], ◌∷◌, ◌++◌, some,
  ◌==◌, Bool-cases, Option-cases, All, none, ltb, ok, if◌then◌else◌,
}
use vol_log_based.File.Registry.{put}
use vol_log_based.File.Registry.Live.{put_self}
use vol_log_based.Transfer.Rows.{ReadBlock}
use vol_log_based.Filter.{unfilter}
use vol_log_based.Transfer.Perform.{
  Delivery, Event, read_at, overlap_copy, unfilter_in, pack_elements, convert, unpack, copy_out,
  release, unfilter_block, unfilter_blocks, UnfilterCalls, post_process, post_process_all,
}

-- The events of a turn that does not fail.
unfoldable pub unfiltered : ReadBlock → List Event
unfiltered b = elim b.zbuf [
  | none ↦ []
  | some z ↦
      (if ltb 0 b.hit.fsize then unfilter_in z b.hit.fsize ∷ [] else [])
      ++ (pack_elements z b.hit.doff 1 b ∷ [])
]

unfoldable pub unfiltered_all : List ReadBlock → List Event
unfolding unfiltered
unfiltered_all [] = []
unfiltered_all (b ∷ bs) = unfiltered b ++ unfiltered_all bs

-- The events unfilter each buffer at most once, and pack only from buffers that are unfiltered;
-- `clear` tells which are.
unfoldable pub in_order : (ℕ → Bool) → List Event → Bool
in_order clear [] = true
in_order clear (unfilter_in z n ∷ es) = not (clear z) && in_order (put clear z true) es
in_order clear (pack_elements z off n b ∷ es) = clear z && in_order clear es
in_order clear (read_at parts ∷ es) = in_order clear es
in_order clear (overlap_copy c ∷ es) = in_order clear es
in_order clear (convert d m n x ∷ es) = in_order clear es
in_order clear (unpack x n u t ∷ es) = in_order clear es
in_order clear (copy_out u x n ∷ es) = in_order clear es
in_order clear (release x ∷ es) = in_order clear es

post_process-in_order :
    (type_size : ℕ → ℕ) (clear : ℕ → Bool) (r : Delivery) (es : List Event)
    → in_order clear (post_process type_size r ++ es) ≡ in_order clear es
unfolding in_order post_process
post_process-in_order type_size clear r es = elim (Bool-cases (r.dtype == r.mtype)) [
  | inl s ↦ elim (Bool-cases (r.xbuf == r.ubuf)) [
    | inl t ↦ rw (s, t) refl
    | inr t ↦ elim (Option-cases r.ptype) [
      | inl n ↦ rw (s, t, n) refl
      | inr (p, n) ↦ rw (s, t, n) refl
    ]
  ]
  | inr s ↦ elim (Bool-cases (r.xbuf == r.ubuf)) [
    | inl t ↦ rw (s, t) refl
    | inr t ↦ elim (Option-cases r.ptype) [
      | inl n ↦ rw (s, t, n) refl
      | inr (p, n) ↦ rw (s, t, n) refl
    ]
  ]
]

pub post_process_all-in_order :
    (type_size : ℕ → ℕ) (clear : ℕ → Bool) (rs : List Delivery)
    → in_order clear (post_process_all type_size rs) ≡ true
unfolding in_order post_process_all
post_process_all-in_order type_size clear [] = refl
post_process_all-in_order type_size clear (r ∷ rs) =
    post_process-in_order type_size clear r (post_process_all type_size rs)
    ∙ post_process_all-in_order type_size clear rs

-- A turn with data to unfilter, and one without.
pub in_order_first :
    (b : ReadBlock) (z : ℕ) (clear : ℕ → Bool) (es : List Event)
    → 0 < b.hit.fsize
    → clear z ≡ false
    → in_order clear (unfiltered (record b { zbuf = some z }) ++ es)
      ≡ in_order (put clear z true) es
unfolding in_order unfiltered
in_order_first b z clear es pos dirty = let after = put_self clear z true in ground (arith, after)

pub in_order_later :
    (b : ReadBlock) (z : ℕ) (clear : ℕ → Bool) (es : List Event)
    → clear z ≡ true
    → in_order clear
        (unfiltered (record b { zbuf = some z; hit = record b.hit { fsize = 0 } }) ++ es)
      ≡ in_order clear es
unfolding in_order unfiltered
in_order_later b z clear es held = rw held refl

-- The filters of a block can be undone on the bytes that the file has.
abbrev pub CanUnfilter : (ℕ → List ℕ) → UnfilterCalls → ReadBlock → Type 0
CanUnfilter filters u b =
    (out : List ℕ) × (unfilter u.deflate_id u.deflate (filters b.hit.info) (u.bytes b.hit.foff) []
      ≡ ok out)

unfilter_block_ok :
    (filters : ℕ → List ℕ) (malloc : ℕ → ℕ → ℕ) (u : UnfilterCalls) (b : ReadBlock)
    → CanUnfilter filters u b
    → unfilter_block filters malloc u b ≡ ok (unfiltered b)
unfolding unfilter_block unfiltered
unfilter_block_ok filters malloc u b (out, e) = elim (Option-cases b.zbuf) [
  | inl n ↦ rw (n, unfilter_block, unfiltered) refl
  | inr (z, h) ↦ elim (Bool-cases (ltb 0 b.hit.fsize)) [
    | inl l ↦ rw (h, l, e, unfilter_block, unfiltered) refl
    | inr l ↦ rw (h, l, unfilter_block, unfiltered) refl
  ]
]

pub unfilter_blocks_ok :
    (filters : ℕ → List ℕ) (malloc : ℕ → ℕ → ℕ) (u : UnfilterCalls) (bs : List ReadBlock)
    → All (CanUnfilter filters u) bs
    → unfilter_blocks filters malloc u bs ≡ ok (unfiltered_all bs)
unfolding unfilter_blocks unfiltered_all
unfilter_blocks_ok filters malloc u [] all = refl
unfilter_blocks_ok filters malloc u (b ∷ bs) (hb, all) =
    rw (unfilter_block_ok filters malloc u b hb, unfilter_blocks)
      (rw (unfilter_blocks_ok filters malloc u bs all) refl)
