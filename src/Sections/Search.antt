-- ===== src/Sections/Search.antt =====
-- src/H5VL_logi_nb.cpp: `H5VL_log_read_idx_search`, which searches the metadata of a file, read at
-- once or in parts.
use vol_log_based.Prelude.{ℕ, zero, suc, List, Option, none, some, Bool, Result, ok, err}
use vol_log_based.Prelude.{◌>>=◌, if◌then◌else◌}
use vol_log_based.Sections.Update.{Under, IdxState, metaupdate, metaupdate_part}

-- `search` appends what all requests find in the index to the hits.
module _ {u v} {I : Type u} {H : Type v} (under : Under) (parse_block : List ℕ → I → Result I)
    (clear : I → I) (flush : IdxState I → IdxState I) (mbuf_size : ℕ) (search : I → H → H) where
  -- The end of a turn: the search, and the rest of the loop from the place of the next part.
  unfoldable pub after_part :
      (ℕ → ℕ → IdxState I → H → Option (Result (IdxState I × H)))
      → H
      → Result (IdxState I × Option (ℕ × ℕ))
      → Option (Result (IdxState I × H))
  after_part rest hits (err e) = some (err e)
  after_part rest hits (ok (t, none)) = some (ok (t, search t.idx hits))
  after_part rest hits (ok (t, some (md, sec))) = rest md sec t (search t.idx hits)

  -- `while (md != -1)`, on fuel; the result is `none` when it runs out.
  unfoldable pub search_parts : ℕ → ℕ → ℕ → IdxState I → H → Option (Result (IdxState I × H))
  unfolding metaupdate_part after_part
  search_parts zero md sec s hits = none
  search_parts (suc fuel) md sec s hits =
      after_part (search_parts fuel) hits
        (metaupdate_part under parse_block clear flush mbuf_size s md sec)

  -- `unlimited` says that the limit is `LOG_VOL_BSIZE_UNLIMITED`.
  unfoldable pub read_idx_search : Bool → ℕ → IdxState I → H → Option (Result (IdxState I × H))
  unfolding search_parts metaupdate
  read_idx_search unlimited fuel s hits =
      let t = if s.metadirty then flush s else s in
      if unlimited
      then some (
          (if t.idxvalid then ok t else metaupdate under parse_block clear flush t) >>= λ r.
          ok (r, search r.idx hits))
      else search_parts fuel 0 0 t hits
