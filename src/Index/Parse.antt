-- ===== src/Index/Parse.antt =====
-- src/H5VL_logi_idx_list.cpp and src/H5VL_logi_idx_compact.cpp: `parse_block` of both index
-- classes, which decodes a block of metadata entries into the index.
use vol_log_based.Prelude.{ℕ, zero, suc, ◌+◌, ◌-◌, ◌^◌}
use vol_log_based.Prelude.{
  List, [], ◌∷◌, ◌++◌, Option, none, some, Bool, true, false, if◌then◌else◌,
}
use vol_log_based.Prelude.{Result, ok, err, ◌>>=◌, drop, length, set, get_or, ltb, ◌==◌, add64}
use vol_log_based.Prelude.Bytes.{get_le}
use vol_log_based.Dataset.{DsetInfo}
use vol_log_based.Meta.{MetaSel, has_flag, rec, sel_ref}
use vol_log_based.Meta.Codec.{get_hdr, hdr_size}
use vol_log_based.Meta.Decode.{metaentry_decode}
use vol_log_based.Meta.Reference.{metaentry_ref_decode}
use vol_log_based.Index.Array.{ArrayIdx}
use vol_log_based.Index.Compact.{Blocks, own, shared, dangling, CompactEntry, CompactIdx, own_entry}
use vol_log_based.Index.Compact.{ref_entry, minus_one}
use vol_log_based.Index.Array
use vol_log_based.Index.Compact

-- `bufp += meta_size`, an `int` that may be negative. A place in front of the block reads as its
-- begin.
unfoldable pub advance : ℕ → ℕ → ℕ
advance pos meta_size = if ltb meta_size (2 ^ 31) then pos + meta_size else pos + meta_size - 2 ^ 32

-- The loop over the entries of a block. `linked` finds the dataset of an entry, `none` if it is
-- unlinked, and `step` handles an entry at a place. The number is fuel; the result is `none` when
-- it runs out.
module _ {S : Type 0} (linked : ℕ → Option DsetInfo)
    (step : DsetInfo → ℕ → List ℕ → S → Result S) where
  unfoldable pub parse_loop : ℕ → List ℕ → ℕ → S → Option (Result S)
  unfolding get_hdr advance
  parse_loop zero block pos s = none
  parse_loop (suc fuel) block pos s = elim (ltb pos (length block)) [
    | false ↦ some (ok s)
    | true ↦ elim (linked (get_hdr (drop pos block)).did) [
      | none ↦ parse_loop fuel block (advance pos (get_hdr (drop pos block)).meta_size) s
      | some dset ↦ elim (step dset pos (drop pos block) s) [
        | err e ↦ some (err e)
        | ok t ↦ parse_loop fuel block (advance pos (get_hdr (drop pos block)).meta_size) t
      ]
    ]
  ]

abbrev pub ArrayState : Type 0
ArrayState = ArrayIdx × List (ℕ × List MetaSel)

abbrev pub CompactState : Type 0
CompactState = CompactIdx × List (ℕ × Blocks)

-- The array index: without and with entries that refer to others.
module _ (zlib : Option (List ℕ → ℕ → List ℕ)) where
  unfoldable pub array_plain : DsetInfo → ℕ → List ℕ → ArrayIdx → Result ArrayIdx
  unfolding metaentry_decode Array.insert
  array_plain dset pos ent idxs =
      metaentry_decode zlib dset ent >>= λ entry. ok (Array.insert idxs entry)

  unfoldable pub array_shared : DsetInfo → ℕ → List ℕ → ArrayState → Result ArrayState
  unfolding metaentry_decode metaentry_ref_decode get_hdr Array.insert
  array_shared dset pos ent s =
      if has_flag (get_hdr ent).flag sel_ref
      then (metaentry_ref_decode dset pos ent s.1 >>= λ entry. ok (Array.insert s.0 entry, s.1))
      else (metaentry_decode zlib dset ent >>= λ entry.
          ok (Array.insert s.0 entry, (pos, entry.sels) ∷ s.1))

  -- The compact index.
  unfoldable pub compact_plain : DsetInfo → ℕ → List ℕ → CompactIdx → Result CompactIdx
  unfolding metaentry_decode Compact.insert
  compact_plain dset pos ent idxs =
      metaentry_decode zlib dset ent >>= λ entry. ok (Compact.insert idxs dset.ndim entry)

  -- The array of a cached entry, seen through a reference; a missing key is a null pointer.
  unfoldable pub referred : ℕ → List (ℕ × Blocks) → Blocks
  referred pos [] = dangling
  referred pos ((k, b) ∷ cs) = if pos == k then b else referred pos cs

  unfoldable pub as_shared : Blocks → Blocks
  as_shared (own n start) = shared n start
  as_shared (shared n start) = shared n start
  as_shared dangling = dangling

  unfoldable pub compact_shared : DsetInfo → ℕ → List ℕ → CompactState → Result CompactState
  unfolding metaentry_decode get_hdr Compact.insert ref_entry own_entry referred as_shared
  compact_shared dset pos ent s =
      let hdr = get_hdr ent in
      let isrec = has_flag hdr.flag rec in
      let fields = drop hdr_size ent in
      let roff = get_le 8 (if isrec then drop 8 fields else fields) in
      if has_flag hdr.flag sel_ref
      then (let centry = ref_entry hdr.foff hdr.fsize (as_shared (referred (add64 pos roff) s.1)) in
          let numbered = record centry { rec = if isrec then get_le 8 fields else minus_one } in
          ok (set s.0 hdr.did (get_or s.0 hdr.did [] ++ (numbered ∷ [])), s.1))
      else (metaentry_decode zlib dset ent >>= λ entry.
          ok (Compact.insert s.0 dset.ndim entry, (pos, (own_entry dset.ndim entry).blocks) ∷ s.1))

  -- `parse_block`, where `share` is the bit `H5VL_FILEI_CONFIG_METADATA_SHARE`.
  unfoldable pub array_parse_block :
      (ℕ → Option DsetInfo) → Bool → ℕ → List ℕ → ArrayIdx → Option (Result ArrayIdx)
  unfolding parse_loop array_plain array_shared
  array_parse_block linked share fuel block idxs =
      if share
      then elim (parse_loop linked array_shared fuel block 0 (idxs, [])) [
        | none ↦ none
        | some r ↦ some (r >>= λ (s : ArrayState). ok s.0)
      ]
      else parse_loop linked array_plain fuel block 0 idxs

  unfoldable pub compact_parse_block :
      (ℕ → Option DsetInfo) → Bool → ℕ → List ℕ → CompactIdx → Option (Result CompactIdx)
  unfolding parse_loop compact_plain compact_shared
  compact_parse_block linked share fuel block idxs =
      if share
      then elim (parse_loop linked compact_shared fuel block 0 (idxs, [])) [
        | none ↦ none
        | some r ↦ some (r >>= λ (s : CompactState). ok s.0)
      ]
      else parse_loop linked compact_plain fuel block 0 idxs
