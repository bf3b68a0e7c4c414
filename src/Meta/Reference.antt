-- ===== src/Meta/Reference.antt =====
-- src/H5VL_logi_meta.cpp: decoding a metadata entry that refers to the selections of another.
use vol_log_based.Prelude.{ℕ, List, [], ◌∷◌, if◌then◌else◌, drop, map, tl}
use vol_log_based.Prelude.{
  Result, ok, err, ◌>>◌, throw_if, invalid_entry, undefined_behaviour, add64, ◌==◌,
}
use vol_log_based.Prelude.Bytes.{get_le}
use vol_log_based.Dataset.{DsetInfo}
use vol_log_based.Meta.Entry.{MetaHdr, MetaSel, MetaEntry, has_flag, rec}
use vol_log_based.Meta.Codec.{get_hdr, hdr_size}
use vol_log_based.Meta.Decode.{not_positive, data_size}

-- `bcache`: the selections of the entries decoded so far, by their place in the block. A missing
-- key reads as no selections.
unfoldable pub cached : ℕ → List (ℕ × List MetaSel) → List MetaSel
cached pos [] = []
cached pos ((k, sels) ∷ cs) = if pos == k then sels else cached pos cs

-- The first dimension is overwritten for a record entry.
abbrev pub in_record : ℕ → MetaSel → MetaSel
in_record recnum s = record s { start = recnum ∷ tl s.start; count = 1 ∷ tl s.count }

-- The size of the data, which is read from the last selection.
unfoldable pub ref_entry_of : DsetInfo → MetaHdr → List MetaSel → Result MetaEntry
unfolding data_size
ref_entry_of dset hdr [] = err undefined_behaviour
ref_entry_of dset hdr (s ∷ ss) =
    ok (record { hdr = hdr; sels = s ∷ ss; dsize = data_size dset.ndim dset.esize (s ∷ ss) })

-- `H5VL_logi_metaentry_ref_decode` of the entry with bytes `ent` at `pos`.
unfoldable pub metaentry_ref_decode :
    DsetInfo → ℕ → List ℕ → List (ℕ × List MetaSel) → Result MetaEntry
unfolding get_hdr cached ref_entry_of
metaentry_ref_decode dset pos ent bcache =
    let hdr = get_hdr ent in
    let isrec = has_flag hdr.flag rec in
    let recnum = get_le 8 (drop hdr_size ent) in
    let bufp = if isrec then drop 8 (drop hdr_size ent) else drop hdr_size ent in
    let sels = cached (add64 pos (get_le 8 bufp)) bcache in
    do
      throw_if (not_positive hdr.meta_size) invalid_entry
      ref_entry_of dset hdr (if isrec then map (in_record recnum) sels else sels)
