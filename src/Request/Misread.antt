-- ===== src/Request/Misread.antt =====
-- src/H5VL_logi_nb.cpp and src/H5VL_logi_meta.cpp together: what decoding makes of the entry of
-- a merged request with two appends.
use vol_log_based.Prelude.{ℕ, ◌^◌, ◌≤◌, ◌<◌, ◌≡◌, ◌↔◌, sym, ap, ◌∙◌, arith}
use vol_log_based.Prelude.{List, [], ◌∷◌, ◌++◌, append_assoc, append-nil, Option, true, false, ok}
use vol_log_based.Prelude.Bytes.{put_le}
use vol_log_based.Selections.{Block}
use vol_log_based.Dataset.{DsetInfo}
use vol_log_based.Meta.{MetaHdr, has_flag, rec, mul_sel, sel_encode_flag, sel_deflate}
use vol_log_based.Meta.Codec.{put_hdr, put_vecs, encode}
use vol_log_based.Meta.Decode.{metaentry_decode}
use vol_log_based.Request.Write.{DataBlock}
use vol_log_based.Request.Fields.{IsHdr}
use vol_log_based.Request.RoundTrip.{entry_of, body_of, make_sels-plain, decode_plain}
use vol_log_based.Request.Decoded.{AreWords, plain_vecs, decode_fields}
use vol_log_based.Request.Merge.{coordinates}
use vol_log_based.Request.Made.{positive, metaentry_decode-put_hdr}

-- The blocks that decoding makes of two blocks appended one after the other.
abbrev pub mixed : Block → Block → List Block
mixed b c =
    record { start = b.start; count = c.start } ∷ (record { start = b.count; count = c.count } ∷ [])

abbrev first_count : List Block → List ℕ
first_count [] = []
first_count (x ∷ xs) = x.count

mixed_iff : (b c : Block) → (mixed b c ≡ b ∷ (c ∷ [])) ↔ (b.count ≡ c.start)
mixed_iff b c = (
  λ e. sym (ap first_count e),
  λ e.
      ap
        (λ v.
          record { start = b.start; count = v }
          ∷ (record { start = b.count; count = c.count } ∷ []))
        (sym e)
      ∙ ap (λ v. b ∷ (record { start = v; count = c.count } ∷ [])) e,
)

mixed_bytes :
    (dip : DsetInfo) (db dc : DataBlock) (b c : Block)
    → coordinates dip ((db, b ∷ []) ∷ ((dc, c ∷ []) ∷ []))
      ≡ body_of false dip dip.ndim 0 (mixed b c)
unfolding encode put_vecs
mixed_bytes dip db dc b c = simp (append-nil, append_assoc)

-- The entry of a merged request to which two selections of one block each, `b` and `c`, were
-- appended is decoded to other blocks: the first has the start of `b` and the start of `c` as
-- its size, the second has the size of `b` as its start and the size of `c`. These are `b` and `c`
-- only where the size of `b` is the start of `c`. The header marks several selections that are
-- neither a record, encoded nor compressed.
pub two_appends_misread :
    (zlib : Option (List ℕ → ℕ → List ℕ)) (dip : DsetInfo) (hdr : MetaHdr) (db dc : DataBlock)
    (b c : Block)
    → IsHdr hdr
    → 1 ≤ hdr.meta_size
    → hdr.meta_size < 2 ^ 31
    → has_flag hdr.flag rec ≡ false
    → has_flag hdr.flag mul_sel ≡ true
    → has_flag hdr.flag sel_encode_flag ≡ false
    → has_flag hdr.flag sel_deflate ≡ false
    → AreWords dip.ndim (mixed b c)
    → (metaentry_decode zlib dip
          (put_hdr hdr ++ (put_le 4 2 ++ coordinates dip ((db, b ∷ []) ∷ ((dc, c ∷ []) ∷ []))))
        ≡ ok (entry_of dip hdr dip.ndim (mixed b c)))
      × ((mixed b c ≡ b ∷ (c ∷ [])) ↔ (b.count ≡ c.start))
two_appends_misread zlib dip hdr db dc b c v pos size fr fm fe fd hw =
    let bs = mixed b c in
    let body = body_of false dip dip.ndim 0 bs in
    let (k, decoded, same) =
      decode_fields zlib dip hdr false true 0 2 body (positive hdr.meta_size pos size) fr fm fd
        (omega arith) (omega arith) in
    (
      rw (mixed_bytes dip db dc b c) (
          metaentry_decode-put_hdr zlib dip hdr (put_le 4 2 ++ body) v
          ∙ (decoded
              ∙ decode_plain false dip hdr k dip.ndim 0 bs (omega arith) (omega arith) fe
                  (omega arith) (plain_vecs dip.ndim bs hw)
                  (make_sels-plain dip.ndim dip.esize bs 0))),
      mixed_iff b c,
    )
