-- ===== src/Request/Made.antt =====
-- src/H5VL_logi_nb.cpp and src/H5VL_logi_meta.cpp together: the constructor of a write request and
-- the decoding of its entry.
use vol_log_based.Prelude.{ℕ, ◌-◌, ◌^◌, ◌≤◌, ◌<◌, ◌≡◌, ap₂}
use vol_log_based.Prelude.{List, ◌++◌, arith}
use vol_log_based.Prelude.{Option, Bool, false, if◌then◌else◌}
use vol_log_based.Selections.{Block, Selections}
use vol_log_based.Dataset.{DsetInfo}
use vol_log_based.Config
use vol_log_based.Meta.{MetaHdr}
use vol_log_based.Meta.Codec.{put_hdr}
use vol_log_based.Meta.Decode.{metaentry_decode, decode_body, not_positive}
use vol_log_based.Request.Write.{first_record}
use vol_log_based.Request.Fields.{IsHdr, get_hdr-put_hdr, drop-put_hdr}

-- The number of dimensions that are encoded.
abbrev pub encdim_of : Bool → DsetInfo → ℕ
encdim_of isrec dip = if isrec then dip.ndim - 1 else dip.ndim

pub positive : (m : ℕ) → 1 ≤ m → m < 2 ^ 31 → not_positive m ≡ false
positive m h k = ground arith

recnum_of : Bool → List Block → ℕ
recnum_of isrec bs = if isrec then first_record bs else 0

-- The header is read back, and what is behind it is decoded.
pub metaentry_decode-put_hdr :
    (zlib : Option (List ℕ → ℕ → List ℕ)) (dip : DsetInfo) (hdr : MetaHdr) (rest : List ℕ)
    → IsHdr hdr
    → metaentry_decode zlib dip (put_hdr hdr ++ rest) ≡ decode_body zlib dip hdr rest
unfolding metaentry_decode
metaentry_decode-put_hdr zlib dip hdr rest v =
    ap₂ (decode_body zlib dip) (get_hdr-put_hdr hdr rest v) (drop-put_hdr hdr rest)
