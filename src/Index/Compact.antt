-- ===== src/Index/Compact.antt =====
-- src/H5VL_logi_idx_compact.cpp: the index that keeps, of each entry, the encoded blocks only.
use vol_log_based.Prelude.{ℕ, zero, suc, ◌+◌, ◌-◌, ◌%◌, ◌^◌, List, [], ◌∷◌, ◌++◌, map, Bool, not}
use vol_log_based.Prelude.{Option, none, some, ltb, ◌||◌, if◌then◌else◌, length, drop, get_or, set}
use vol_log_based.Prelude.{replicate, hd, tl, memcpy, extent, add64, mul64, sub64, to_int}
use vol_log_based.Selections.{Block, extent_of}
use vol_log_based.Meta.{MetaSel, MetaEntry, rec, has_flag}
use vol_log_based.Index.{ReadReq, SearchRet, intersect, int_diffs, ints, push_hit}
use mathlib.Core.Option

-- `blocks` with `nsel`: an array of starts and counts, or the entry that is referred to. That
-- entry does not change after it is made, so its array stands here; `dangling` is a null pointer.
pub data Blocks : Type 0 where
  own : ℕ → List ℕ → Blocks
  shared : ℕ → List ℕ → Blocks
  dangling : Blocks

-- `H5VL_logi_compact_idx_entry_t`. `rec` is the bit pattern of a 64-bit integer, -1 for none.
pub record CompactEntry : Type 0 where
  pub rec : ℕ
  pub blocks : Blocks
  pub foff : ℕ
  pub fsize : ℕ
  pub dsize : ℕ

abbrev pub minus_one : ℕ
minus_one = 2 ^ 64 - 1

-- The constructor for a reference.
unfoldable pub ref_entry : ℕ → ℕ → Blocks → CompactEntry
ref_entry foff fsize ref = record {
  rec = minus_one;
  blocks = ref;
  foff = foff;
  fsize = fsize;
  dsize = 0;
}

-- The start of the first selection in the first dimension.
abbrev pub first_start : List MetaSel → ℕ
first_start [] = 0
first_start (m ∷ ms) = hd m.start

-- The copy loop of the other constructor: `skip` is 1 for a record entry, whose first dimension
-- is left out.
unfoldable pub pack : ℕ → ℕ → List MetaSel → List ℕ
pack skip n [] = []
pack skip n (m ∷ ms) =
    memcpy n (drop skip m.start) ++ (memcpy n (drop skip m.count) ++ pack skip n ms)

-- The constructor for a decoded entry.
unfoldable pub own_entry : ℕ → MetaEntry → CompactEntry
unfolding pack
own_entry ndim meta =
    if has_flag meta.hdr.flag rec
    then record {
      rec = first_start meta.sels;
      blocks = own (length meta.sels) (pack 1 (ndim - 1) meta.sels);
      foff = meta.hdr.foff;
      fsize = meta.hdr.fsize;
      dsize = meta.dsize;
    }
    else record {
      rec = minus_one;
      blocks = own (length meta.sels) (pack 0 ndim meta.sels);
      foff = meta.hdr.foff;
      fsize = meta.hdr.fsize;
      dsize = meta.dsize;
    }

abbrev pub CompactIdx : Type 0
CompactIdx = List (List CompactEntry)

unfoldable pub clear : CompactIdx → CompactIdx
clear idxs = map (λ (i : List CompactEntry). []) idxs

unfoldable pub reserve : CompactIdx → ℕ → CompactIdx
reserve idxs size =
    if ltb (length idxs) size then idxs ++ replicate (size - length idxs) [] else idxs

-- `insert`; `ndim` is that of the entry's dataset.
unfoldable pub insert : CompactIdx → ℕ → MetaEntry → CompactIdx
insert idxs ndim meta =
    set idxs meta.hdr.did (get_or idxs meta.hdr.did [] ++ (own_entry ndim meta ∷ []))

-- The comparison of two `int` patterns.
abbrev pub int_ltb : ℕ → ℕ → Bool
int_ltb a b = ltb ((a + 2 ^ 31) % 2 ^ 32) ((b + 2 ^ 31) % 2 ^ 32)

module _ (req : ReadReq) (esize soff : ℕ) (b : Block) where
  -- The loop over the blocks of a record entry, at `start`, with `nsel` left to do. `n` is
  -- `req->ndim - 1`, and the first dimension of a hit comes from the record number.
  unfoldable pub search_rec : CompactEntry → ℕ → ℕ → List ℕ → ℕ → List SearchRet → List SearchRet
  search_rec ent n zero start doff later = later
  search_rec ent n (suc nsel) start doff later =
      let count = drop n start in
      push_hit
        (Option.map
          (λ (p : List ℕ × List ℕ). record {
            info = req.info;
            dsize = 1 ∷ ints n count;
            dstart = 0 ∷ int_diffs n p.0 start;
            msize = to_int (hd b.count) ∷ ints n (tl b.count);
            mstart = to_int (sub64 ent.rec (hd b.start)) ∷ int_diffs n p.0 (tl b.start);
            count = 1 ∷ ints n p.1;
            xsize = ent.dsize;
            doff = doff;
            xbuf = req.xbuf + soff;
            foff = ent.foff;
            fsize = ent.fsize;
          })
          (intersect n start count (tl b.start) (tl b.count)))
        (search_rec ent n nsel (drop n count) (add64 doff (extent n esize count)) later)

  -- The loop over the blocks of any other entry.
  unfoldable pub search_plain : CompactEntry → ℕ → ℕ → List ℕ → ℕ → List SearchRet → List SearchRet
  search_plain ent n zero start doff later = later
  search_plain ent n (suc nsel) start doff later =
      let count = drop n start in
      push_hit
        (Option.map
          (λ (p : List ℕ × List ℕ). record {
            info = req.info;
            dsize = ints n count;
            dstart = int_diffs n p.0 start;
            msize = ints n b.count;
            mstart = int_diffs n p.0 b.start;
            count = ints n p.1;
            xsize = ent.dsize;
            doff = doff;
            xbuf = req.xbuf + soff;
            foff = ent.foff;
            fsize = ent.fsize;
          })
          (intersect n start count b.start b.count))
        (search_plain ent n nsel (drop n count) (add64 doff (extent n esize count)) later)

  -- What the loop over the entries does with an entry whose array is at hand.
  unfoldable pub search_array : CompactEntry → ℕ → List ℕ → List SearchRet → List SearchRet
  unfolding search_rec search_plain
  search_array ent nsel start later =
      if ltb ent.rec (2 ^ 63)
      then (let mstart = to_int (sub64 ent.rec (hd b.start)) in
          if int_ltb mstart 0 || not (int_ltb mstart (to_int (hd b.count)))
          then later
          else search_rec ent (req.ndim - 1) nsel start 0 later)
      else search_plain ent req.ndim nsel start 0 later

  -- The choice of the array by `nsel`; `none` is the read through a null pointer.
  unfoldable pub search_entry : CompactEntry → Blocks → List SearchRet → Option (List SearchRet)
  unfolding search_array
  search_entry e (own n start) later = some (search_array e n start later)
  search_entry e (shared n start) later = some (search_array e n start later)
  search_entry e dangling later = none

  unfoldable pub search_ents : List CompactEntry → List SearchRet → Option (List SearchRet)
  unfolding search_entry
  search_ents [] later = some later
  search_ents (e ∷ es) later =
      Option.bind (search_ents es later) (λ (r : List SearchRet). search_entry e e.blocks r)

unfoldable pub search_blocks :
    ReadReq → ℕ → List CompactEntry → ℕ → List Block → Option (List SearchRet)
unfolding search_ents
search_blocks req esize ents soff [] = some []
search_blocks req esize ents soff (b ∷ bs) =
    Option.bind
      (search_blocks req esize ents (add64 soff (mul64 (extent_of req.sels.ndim b) req.esize)) bs)
      (λ (r : List SearchRet). search_ents req esize soff b ents r)

-- `search`. `esizes` gives the element size of a dataset that is linked, `fp->dsets_info`.
unfoldable pub search :
    (ℕ → Option ℕ) → CompactIdx → ReadReq → List SearchRet → Option (List SearchRet)
unfolding search_blocks
search esizes idxs req ret = elim (esizes req.did) [
  | none ↦ some ret
  | some esize ↦
      Option.map (λ (r : List SearchRet). ret ++ r)
        (search_blocks req esize (get_or idxs req.did []) 0 req.sels.blocks)
]
