-- ===== src/Meta/Decode.antt =====
-- src/H5VL_logi_meta.cpp: decoding a metadata entry. A read past the end of the bytes reads 0.
use vol_log_based.Prelude.{
  ℕ, zero, suc, ◌+◌, ◌-◌, ◌*◌, ◌^◌, List, [], ◌∷◌, ◌++◌, Option, none, some,
}
use vol_log_based.Prelude.{
  hd, tl, Bool, ◌&&◌, false, ◌||◌, ◌==◌, leb, if◌then◌else◌, extent, add64, take, drop,
}
use vol_log_based.Prelude.{
  Result, ok, err, ◌>>=◌, ◌>>◌, throw_if, invalid_entry, failed_call, undefined_behaviour,
}
use vol_log_based.Prelude.Bytes.{get_le}
use vol_log_based.Dataset.{DsetInfo}
use vol_log_based.Meta.Entry.{MetaHdr, MetaSel, MetaEntry, has_flag, mul_sel, sel_encode_flag}
use vol_log_based.Meta.Entry.{sel_deflate, rec}
use vol_log_based.Meta.Codec.{sel_decode, get_hdr, get_words, hdr_size}

-- `meta_size <= 0` on the pattern of an `int32_t`.
abbrev pub not_positive : ℕ → Bool
not_positive m = (m == 0) || leb (2 ^ 31) m

-- The loop that retrieves the starts, or the counts, and the bytes that follow them. With
-- `encoded`, each is an offset.
unfoldable pub get_vecs : Bool → List ℕ → ℕ → ℕ → List ℕ → List (List ℕ) × List ℕ
unfolding sel_decode get_words
get_vecs encoded dsteps encdim zero bp = ([], bp)
get_vecs encoded dsteps encdim (suc nsel) bp =
    let (vs, bp') =
      get_vecs encoded dsteps encdim nsel (drop (if encoded then 8 else 8 * encdim) bp) in
    ((if encoded then sel_decode encdim dsteps (get_le 8 bp) else get_words encdim bp) ∷ vs, bp')

-- The selections: `front` and `one` fill the first dimension of a record entry. The offset of
-- the data of the next selection is `doff`.
unfoldable pub make_sels :
    ℕ → ℕ → List ℕ → List ℕ → List (List ℕ) → List (List ℕ) → ℕ → List MetaSel
make_sels ndim esize front one (s ∷ ss) (c ∷ cs) doff =
    record { start = front ++ s; count = one ++ c; doff = doff }
    ∷ make_sels ndim esize front one ss cs (add64 (extent ndim esize (one ++ c)) doff)
make_sels ndim esize front one _ _ doff = []

-- The size of the last selection's data, over `dims` dimensions, and the offset of that data.
unfoldable pub data_size : ℕ → ℕ → List MetaSel → ℕ
data_size dims esize [] = esize
data_size dims esize (m ∷ []) = add64 (extent dims esize m.count) m.doff
data_size dims esize (m ∷ (k ∷ ms)) = data_size dims esize (k ∷ ms)

-- The entry of the starts and counts in `zbuf`.
unfoldable pub sels_entry : DsetInfo → MetaHdr → Bool → ℕ → ℕ → ℕ → List ℕ → MetaEntry
unfolding get_vecs make_sels data_size
sels_entry dset hdr isrec recnum encdim nsel zbuf =
    let encoded = has_flag hdr.flag sel_encode_flag in
    let dsteps = get_words (encdim - 1) zbuf ++ (1 ∷ []) in
    let bp = if encoded then drop (8 * (encdim - 1)) zbuf else zbuf in
    let starts = get_vecs encoded dsteps encdim nsel bp in
    let counts = get_vecs encoded dsteps encdim nsel starts.1 in
    let sels =
      make_sels dset.ndim dset.esize (if isrec then recnum ∷ [] else [])
        (if isrec then 1 ∷ [] else []) starts.0 counts.0 0 in
    record { hdr = hdr; sels = sels; dsize = data_size encdim dset.esize sels }

-- One of the first `n` steps is 0.
unfoldable pub has_zero : ℕ → List ℕ → Bool
has_zero zero ds = false
has_zero (suc n) ds = (hd ds == 0) || has_zero n (tl ds)

-- The part after the number of selections is known. A negative number makes `resize` throw; without
-- selections the data size is read in front of the first one, `H5VL_logi_sel_decode` divides by each
-- step, and the last step is written behind the others.
unfoldable pub decode_sels : DsetInfo → MetaHdr → Bool → ℕ → ℕ → ℕ → List ℕ → Result MetaEntry
unfolding sels_entry has_zero
decode_sels dset hdr isrec recnum encdim nsel zbuf =
    let encoded = has_flag hdr.flag sel_encode_flag in
    let dsteps = get_words (encdim - 1) zbuf ++ (1 ∷ []) in
    let undivided = encoded && ((encdim == 0) || has_zero encdim dsteps) in
    do
      throw_if (leb (2 ^ 31) nsel) failed_call
      throw_if (nsel == 0) undefined_behaviour
      throw_if undivided undefined_behaviour
      ok (sels_entry dset hdr isrec recnum encdim nsel zbuf)

-- `H5VL_logi_metaentry_decode`. `zlib` inflates bytes to a buffer of a given size; it is `none`
-- in a build without zlib.
module _ (zlib : Option (List ℕ → ℕ → List ℕ)) where
  -- The bytes of the starts and counts, which are the rest of the entry or compressed in it.
  unfoldable pub plain_bytes : MetaHdr → ℕ → List ℕ → Result (List ℕ)
  plain_bytes hdr bsize bufp =
      if has_flag hdr.flag sel_deflate
      then elim zlib [
        | none ↦ err invalid_entry
        | some inflate ↦ ok (inflate (take (hdr.meta_size - hdr_size - 4) bufp) bsize)
      ]
      else ok bufp

  -- What follows the header, given the header and the bytes behind it.
  unfoldable pub decode_body : DsetInfo → MetaHdr → List ℕ → Result MetaEntry
  unfolding plain_bytes decode_sels
  decode_body dset hdr rest =
      let isrec = has_flag hdr.flag rec in
      let encdim = if isrec then dset.ndim - 1 else dset.ndim in
      let recnum = get_le 8 rest in
      let bufp = if isrec then drop 8 rest else rest in
      let encoded = has_flag hdr.flag sel_encode_flag in
      let nsel = get_le 4 bufp in
      let esize = if encoded then 16 else 16 * encdim in
      let bsize = (if encoded then 8 * (encdim - 1) else 0) + esize * nsel in
      do
        throw_if (not_positive hdr.meta_size) invalid_entry
        if has_flag hdr.flag mul_sel
            then (plain_bytes hdr bsize (drop 4 bufp) >>= λ zbuf.
                decode_sels dset hdr isrec recnum encdim nsel zbuf)
            else decode_sels dset hdr isrec recnum encdim 1 bufp

  unfoldable pub metaentry_decode : DsetInfo → List ℕ → Result MetaEntry
  unfolding get_hdr decode_body
  metaentry_decode dset ent = decode_body dset (get_hdr ent) (drop hdr_size ent)
