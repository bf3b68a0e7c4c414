-- ===== src/Meta/Entry.antt =====
-- src/H5VL_logi_meta.hpp: the header and the decoded form of a metadata entry. A field is the
-- bit pattern of its C type.
use vol_log_based.Prelude.{ℕ, List, Bool, not, bit_and, ◌==◌}

-- `H5VL_logi_meta_hdr`, 28 bytes when packed.
pub record MetaHdr : Type 0 where
  pub meta_size : ℕ
  pub did : ℕ
  pub flag : ℕ
  pub foff : ℕ
  pub fsize : ℕ

-- `H5VL_logi_metasel_t`: a selected block and its offset in the entry's data.
pub record MetaSel : Type 0 where
  pub start : List ℕ
  pub count : List ℕ
  pub doff : ℕ

-- `H5VL_logi_metaentry_t`.
pub record MetaEntry : Type 0 where
  pub hdr : MetaHdr
  pub sels : List MetaSel
  pub dsize : ℕ

-- The flags of an entry's header, `H5VL_LOGI_META_FLAG_*`.
abbrev pub mul_sel : ℕ
mul_sel = 0x01

abbrev pub sel_encode_flag : ℕ
sel_encode_flag = 0x04

abbrev pub sel_deflate : ℕ
sel_deflate = 0x08

abbrev pub sel_ref : ℕ
sel_ref = 0x10

abbrev pub rec : ℕ
rec = 0x20

-- `flag & f` as a condition.
abbrev pub has_flag : ℕ → ℕ → Bool
has_flag flag f = not (bit_and flag f == 0)
