-- ===== src/File/Settings.antt =====
-- src/H5VL_log_filei.cpp: the configuration of a file from property lists and the environment.
use vol_log_based.Prelude.{ℕ, ◌-◌, ◌^◌, Option, none, some}
use vol_log_based.Prelude.{Bool, ◌==◌, if◌then◌else◌, bit_and, bit_or, bit_xor}
use vol_log_based.Config

-- `config |= bit` and `config &= ~bit` on the 32 bits of an `int`.
abbrev pub with_bit : ℕ → ℕ → ℕ
with_bit bit config = bit_or config bit

abbrev pub without_bit : ℕ → ℕ → ℕ
without_bit bit config = bit_and config (bit_xor bit 0xffffffff)

-- One setting: the property list may set the bit, and an environment variable that is set
-- decides. The variable is known by the answer of the `strcmp` with the text that sets the bit.
unfoldable pub setting : ℕ → Bool → Option Bool → ℕ → ℕ
setting bit property env config =
    let listed = if property then with_bit bit config else config in
    elim env [
      | none ↦ listed
      | some on ↦ if on then with_bit bit listed else without_bit bit listed
    ]

-- What decides in the end.
abbrev pub chosen : Bool → Option Bool → Bool
chosen property none = property
chosen property (some on) = on

-- `H5VL_logi_idx_t` to use: `compact` or `list`.
pub data IndexType : Type 0 where
  compact list : IndexType

-- The answers of the access property list and of the environment, in the order of the code. For
-- the selection encoding `some true` is a text other than "canonical", for the index type a text
-- that is "compact".
pub record Fapl : Type 0 where
  pub merge : Bool
  pub merge_env : Option Bool
  pub share : Bool
  pub share_env : Option Bool
  pub zip : Bool
  pub zip_env : Option Bool
  pub encoding_offset : Bool
  pub encoding_env : Option Bool
  pub idx_buffer_size : ℕ
  pub idx_bsize_env : Option ℕ
  pub index_type_env : Option Bool
  pub single_subfile : Bool
  pub single_subfile_env : Option Bool
  pub passthru : Bool
  pub passthru_env : Option Bool

pub record Settings : Type 0 where
  pub config : ℕ
  pub mbuf_size : ℕ
  pub index_type : IndexType

-- `H5VL_log_filei_parse_fapl`.
unfoldable pub parse_fapl : Fapl → ℕ → Settings
unfolding setting
parse_fapl f config = record {
  config = setting Config.passthru f.passthru f.passthru_env (
      setting Config.single_subfile_read f.single_subfile f.single_subfile_env (
        setting Config.sel_encode f.encoding_offset f.encoding_env (
          setting Config.sel_deflate f.zip f.zip_env (
            setting Config.metadata_share f.share f.share_env
              (setting Config.metadata_merge f.merge f.merge_env config)))));
  mbuf_size = elim f.idx_bsize_env [ none ↦ f.idx_buffer_size | some n ↦ n ];
  index_type = elim f.index_type_env [ none ↦ compact | some b ↦ if b then compact else list ];
}

-- `H5VL_log_filei_parse_fcpl`. The layout's variable is known by whether it reads "align"; the
-- number of subfiles that the variable gives is `none` for an empty text.
unfoldable pub parse_fcpl : Bool → Option Bool → ℕ → Option (Option ℕ) → ℕ → ℕ × ℕ
parse_fcpl chunk_aligned layout_env subfiling nsubfiles_env config =
    let listed = if chunk_aligned then with_bit Config.data_align config else config in
    let layout : ℕ = elim layout_env [
      | none ↦ listed
      | some align ↦
          if align then without_bit Config.data_align listed else with_bit Config.data_align listed
    ] in
    let ngroup : ℕ = elim nsubfiles_env [
      | none ↦ subfiling
      | some text ↦ elim text [ none ↦ 2 ^ 32 - 1 | some n ↦ n ]
    ] in
    (if ngroup == 0 then layout else with_bit Config.subfiling layout, ngroup)
