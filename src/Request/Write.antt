-- ===== src/Request/Write.antt =====
-- src/H5VL_logi_nb.hpp, src/H5VL_logi_nb.cpp: a write request with its encoded metadata entry.
use vol_log_based.Prelude.{to_int}
use vol_log_based.Prelude.{ℕ, zero, suc, ◌+◌, ◌-◌, ◌*◌, List, [], ◌∷◌, ◌++◌, none, some}
use vol_log_based.Prelude.{
  Bool, true, false, ◌&&◌, ◌==◌, ltb, if◌then◌else◌, hd, drop, memcpy, length,
}
use vol_log_based.Prelude.{bit_or, bit_xor, take, ◌/◌}
use vol_log_based.Prelude.Bytes.{put_le, get_le}
use vol_log_based.Selections.{Block, Selections, nsel}
use vol_log_based.Dataset.{DsetInfo}
use vol_log_based.Meta.{MetaHdr, has_flag, mul_sel, sel_encode_flag, sel_deflate, rec}
use vol_log_based.Meta.Codec.{put_hdr, put_words, encode, hdr_size}
use vol_log_based.Config

-- `H5VL_log_req_data_block_t`; a pointer is its address.
pub record DataBlock : Type 0 where
  pub ubuf : ℕ
  pub xbuf : ℕ
  pub size : ℕ

-- `H5VL_log_wreq_t`. `meta_buf` is the packed header, the bytes between it and `sel_buf`, and
-- those from `sel_buf` on.
pub record WReq : Type 0 where
  pub hdr : MetaHdr
  pub record_field : List ℕ
  pub sel_buf : List ℕ
  pub nsel : ℕ
  pub meta_off : ℕ
  pub dbufs : List DataBlock

unfoldable pub meta_buf : WReq → List ℕ
unfolding put_hdr
meta_buf r = put_hdr r.hdr ++ (r.record_field ++ r.sel_buf)

-- The loop over the blocks of a record write: all are one record thick and in record `recnum`.
unfoldable pub all_in_record : ℕ → List Block → Bool
all_in_record recnum [] = true
all_in_record recnum (b ∷ bs) =
    (hd b.count == 1) && ((hd b.start == recnum) && all_in_record recnum bs)

-- The record number of a write, taken from its first block.
abbrev pub first_record : List Block → ℕ
first_record [] = 0
first_record (b ∷ bs) = hd b.start

-- Whether the write is encoded as a record write; `unlimited` is `H5S_UNLIMITED`.
unfoldable pub is_record : ℕ → DsetInfo → List Block → Bool
unfolding all_in_record
is_record unlimited dip blocks =
    (ltb 0 dip.ndim && (hd dip.mdims == unlimited))
    && (ltb 0 (length blocks) && all_in_record (first_record blocks) blocks)

abbrev pub flag_of : Bool → Bool → Bool → Bool → ℕ
flag_of isrec mul enc deflate =
    bit_or
      (bit_or (bit_or (if isrec then rec else 0) (if mul then mul_sel else 0))
        (if enc then sel_encode_flag else 0))
      (if deflate then sel_deflate else 0)

-- The bytes of a metadata entry with these flags, `encdim` encoded dimensions and `n` blocks.
abbrev pub entry_size : Bool → Bool → Bool → ℕ → ℕ → ℕ
entry_size isrec mul enc encdim n =
    hdr_size
    + (if isrec then 8 else 0)
    + (if mul then 4 else 0)
    + (if enc then 8 * (encdim - 1 + n * 2) else 8 * (encdim * n * 2))

-- What the constructor writes from `sel_buf` on.
unfoldable pub encode_sels : DsetInfo → Bool → Bool → Bool → ℕ → List Block → List ℕ
unfolding put_words encode
encode_sels dip isrec mul enc encdim blocks =
    (if mul then put_le 4 (length blocks) else [])
    ++ ((if enc then put_words (memcpy (encdim - 1) (drop (dip.ndim - encdim) dip.dsteps)) else [])
        ++ encode dip.ndim blocks (if enc then some dip.dsteps else none) (if isrec then 1 else 0))

-- The constructor from a selection, once the four flags are known. The entry's size is cut to an
-- `int32_t`. The header's `foff` and
-- `fsize` are not set yet; they stand as 0.
unfoldable pub make_with : DsetInfo → ℕ → ℕ → List Block → Bool → Bool → Bool → Bool → WReq
unfolding encode_sels
make_with dip did mdsize blocks isrec mul enc deflate =
    let encdim = if isrec then dip.ndim - 1 else dip.ndim in
    record {
      hdr = record {
        meta_size = to_int (entry_size isrec mul enc encdim (length blocks));
        did = did;
        flag = flag_of isrec mul enc deflate;
        foff = 0;
        fsize = 0;
      };
      record_field = if isrec then put_le 8 (first_record blocks) else [];
      sel_buf = encode_sels dip isrec mul enc encdim blocks;
      nsel = length blocks;
      meta_off = mdsize;
      dbufs = [];
    }

-- The constructor `H5VL_log_wreq_t (dset, sels)`. `zlib` says whether the build has zlib.
unfoldable pub make : ℕ → Bool → DsetInfo → ℕ → ℕ → ℕ → Selections → WReq
unfolding make_with is_record
make unlimited zlib dip did config mdsize sels =
    let isrec = is_record unlimited dip sels.blocks in
    let mul = ltb 1 (nsel sels) in
    let encdim = if isrec then dip.ndim - 1 else dip.ndim in
    let enc = mul && (ltb 1 encdim && has_flag config Config.sel_encode) in
    let deflate = mul && (zlib && has_flag config Config.sel_deflate) in
    make_with dip did mdsize sels.blocks isrec mul enc deflate

-- `resize`: the buffer is cut, or grows by bytes that are not set (0 here).
unfoldable pub resize : WReq → ℕ → WReq
resize r size = record r {
  hdr = record (r.hdr) { meta_size = size };
  sel_buf = take (size - hdr_size - length r.record_field) r.sel_buf;
}

-- `std::hash`: the exclusive or of the whole 8-byte words from `sel_buf` on.
unfoldable pub xor_words : ℕ → List ℕ → ℕ → ℕ
xor_words zero bs ret = ret
xor_words (suc n) bs ret = xor_words n (drop 8 bs) (bit_xor ret (get_le 8 bs))

unfoldable pub hash : WReq → ℕ
unfolding xor_words
hash r = xor_words (length r.sel_buf / 8) r.sel_buf 0

unfoldable pub bytes_eq : List ℕ → List ℕ → Bool
bytes_eq [] [] = true
bytes_eq [] (b ∷ bs) = false
bytes_eq (a ∷ as') [] = false
bytes_eq (a ∷ as') (b ∷ bs) = (a == b) && bytes_eq as' bs

-- `operator==`: entries of one size, compared from `sel_buf` on over the length of the first.
unfoldable pub wreq_eq : WReq → WReq → Bool
unfolding bytes_eq
wreq_eq a b =
    (a.hdr.meta_size == b.hdr.meta_size) && bytes_eq a.sel_buf (take (length a.sel_buf) b.sel_buf)
