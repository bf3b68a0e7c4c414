-- ===== src/Index/Array.antt =====
-- src/H5VL_logi_idx_list.cpp: the index that keeps every decoded entry, a list for each dataset.
use vol_log_based.Prelude.{ℕ, ◌+◌, List, [], ◌∷◌, ◌++◌, map, ltb, if◌then◌else◌, length}
use vol_log_based.Prelude.{get_or, set, replicate, add64, mul64, ◌-◌}
use vol_log_based.Selections.{Block, extent_of}
use vol_log_based.Meta.{MetaSel, MetaEntry}
use vol_log_based.Index.{ReadReq, SearchRet, intersect, int_diffs, ints, push_hit}
use mathlib.Core.Option

-- `idxs`: the entries of dataset `did` stand at position `did`.
abbrev pub ArrayIdx : Type 0
ArrayIdx = List (List MetaEntry)

unfoldable pub clear : ArrayIdx → ArrayIdx
clear idxs = map (λ (i : List MetaEntry). []) idxs

unfoldable pub reserve : ArrayIdx → ℕ → ArrayIdx
reserve idxs size =
    if ltb (length idxs) size then idxs ++ replicate (size - length idxs) [] else idxs

unfoldable pub insert : ArrayIdx → MetaEntry → ArrayIdx
insert idxs meta = set idxs meta.hdr.did (get_or idxs meta.hdr.did [] ++ (meta ∷ []))

module _ (req : ReadReq) (soff : ℕ) (b : Block) where
  -- The body of the innermost loop of `search`, for block `b` of the request.
  unfoldable pub search_sel : MetaEntry → MetaSel → List SearchRet → List SearchRet
  search_sel ent msel later =
      push_hit
        (Option.map
          (λ (p : List ℕ × List ℕ). record {
            info = req.info;
            dsize = ints req.ndim msel.count;
            dstart = int_diffs req.ndim p.0 msel.start;
            msize = ints req.ndim b.count;
            mstart = int_diffs req.ndim p.0 b.start;
            count = ints req.ndim p.1;
            xsize = ent.dsize;
            doff = msel.doff;
            xbuf = req.xbuf + soff;
            foff = ent.hdr.foff;
            fsize = ent.hdr.fsize;
          })
          (intersect req.ndim msel.start msel.count b.start b.count))
        later

  unfoldable pub search_sels : MetaEntry → List MetaSel → List SearchRet → List SearchRet
  unfolding search_sel
  search_sels ent [] later = later
  search_sels ent (m ∷ ms) later = search_sel ent m (search_sels ent ms later)

  unfoldable pub search_ents : List MetaEntry → List SearchRet → List SearchRet
  unfolding search_sels
  search_ents [] later = later
  search_ents (e ∷ es) later = search_sels e e.sels (search_ents es later)

-- The outer loop over the blocks of the request; `soff` is the offset in the user's data.
unfoldable pub search_blocks : ReadReq → List MetaEntry → ℕ → List Block → List SearchRet
unfolding search_ents
search_blocks req ents soff [] = []
search_blocks req ents soff (b ∷ bs) =
    search_ents req soff b ents
      (search_blocks req ents (add64 soff (mul64 (extent_of req.sels.ndim b) req.esize)) bs)

unfoldable pub search : ArrayIdx → ReadReq → List SearchRet → List SearchRet
unfolding search_blocks
search idxs req ret = ret ++ search_blocks req (get_or idxs req.did []) 0 req.sels.blocks
