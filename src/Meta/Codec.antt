-- ===== src/Meta/Codec.antt =====
-- src/H5VL_logi_meta.hpp and `encode` of src/H5VL_logi_dataspace.cpp: the bytes of a header and
-- of a selection. The integers are stored in little-endian order, as on the machines where the
-- code does not swap them (`WORDS_BIGENDIAN` undefined).
use vol_log_based.Prelude.{ℕ, zero, suc, ◌+◌, ◌-◌, ◌*◌, ◌/◌, ◌%◌, List, [], ◌∷◌, ◌++◌, map}
use vol_log_based.Prelude.{Option, none, some, if◌then◌else◌, hd, tl, drop, memcpy, add64, mul64}
use vol_log_based.Prelude.Bytes.{put_le, get_le}
use vol_log_based.Selections.{Block}
use vol_log_based.Meta.Entry.{MetaHdr, has_flag, mul_sel, sel_encode_flag}

-- `H5VL_logi_sel_decode`: the coordinate that an offset stands for.
unfoldable pub sel_decode : ℕ → List ℕ → ℕ → List ℕ
sel_decode zero dsteps off = []
sel_decode (suc n) dsteps off = (off / hd dsteps) ∷ sel_decode n (tl dsteps) (off % hd dsteps)

-- The loop of `H5VL_logi_sel_encode`, with the offset summed up so far.
unfoldable pub sel_encode_from : ℕ → List ℕ → List ℕ → ℕ → ℕ
sel_encode_from zero dsteps cord off = off
sel_encode_from (suc n) dsteps cord off =
    sel_encode_from n (tl dsteps) (tl cord) (add64 off (mul64 (hd cord) (hd dsteps)))

-- `H5VL_logi_sel_encode`.
unfoldable pub sel_encode : ℕ → List ℕ → List ℕ → ℕ
unfolding sel_encode_from
sel_encode n dsteps cord = sel_encode_from n dsteps cord 0

abbrev pub hdr_size : ℕ
hdr_size = 28

-- The packed header.
unfoldable pub put_hdr : MetaHdr → List ℕ
put_hdr h =
    put_le 4 h.meta_size
    ++ (put_le 4 h.did ++ (put_le 4 h.flag ++ (put_le 8 h.foff ++ put_le 8 h.fsize)))

unfoldable pub get_hdr : List ℕ → MetaHdr
get_hdr bs = record {
  meta_size = get_le 4 bs;
  did = get_le 4 (drop 4 bs);
  flag = get_le 4 (drop 8 bs);
  foff = get_le 8 (drop 12 bs);
  fsize = get_le 8 (drop 20 bs);
}

-- An array of 8-byte integers.
unfoldable pub put_words : List ℕ → List ℕ
put_words [] = []
put_words (w ∷ ws) = put_le 8 w ++ put_words ws

unfoldable pub get_words : ℕ → List ℕ → List ℕ
get_words zero bs = []
get_words (suc n) bs = get_le 8 bs ∷ get_words n (drop 8 bs)

-- What `encode` writes for one coordinate array: an offset if there are steps, else its elements.
unfoldable pub put_vec : Option (List ℕ) → ℕ → List ℕ → List ℕ
unfolding sel_encode put_words
put_vec none n v = put_words (memcpy n v)
put_vec (some dsteps) n v = put_le 8 (sel_encode n dsteps v)

unfoldable pub put_vecs : Option (List ℕ) → ℕ → List (List ℕ) → List ℕ
unfolding put_vec
put_vecs dsteps n [] = []
put_vecs dsteps n (v ∷ vs) = put_vec dsteps n v ++ put_vecs dsteps n vs

-- `H5VL_log_selections::encode`: all starts, then all counts, each without its first `dimoff`
-- dimensions.
unfoldable pub encode : ℕ → List Block → Option (List ℕ) → ℕ → List ℕ
unfolding put_vecs
encode ndim blocks none dimoff =
    put_vecs none (ndim - dimoff) (map (λ (b : Block). drop dimoff b.start) blocks)
    ++ put_vecs none (ndim - dimoff) (map (λ (b : Block). drop dimoff b.count) blocks)
encode ndim blocks (some dsteps) dimoff =
    put_vecs (some (drop dimoff dsteps)) (ndim - dimoff)
      (map (λ (b : Block). drop dimoff b.start) blocks)
    ++ put_vecs (some (drop dimoff dsteps)) (ndim - dimoff)
        (map (λ (b : Block). drop dimoff b.count) blocks)

-- `H5VL_logi_get_metaentry_size`.
unfoldable pub get_metaentry_size : ℕ → MetaHdr → ℕ → ℕ
get_metaentry_size ndim hdr nsel =
    hdr_size
    + (if has_flag hdr.flag mul_sel then 4 else 0)
    + (if has_flag hdr.flag sel_encode_flag
        then 8 * (ndim - 1 + nsel * 2)
        else 8 * (ndim * nsel * 2))
