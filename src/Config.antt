-- ===== src/Config.antt =====
-- src/H5VL_log_filei.hpp: the bits of the configuration of a file.
use vol_log_based.Prelude.{ℕ}

abbrev pub metadata_merge : ℕ
metadata_merge = 0x01

abbrev pub sel_encode : ℕ
sel_encode = 0x02

abbrev pub sel_deflate : ℕ
sel_deflate = 0x04

abbrev pub metadata_share : ℕ
metadata_share = 0x08

abbrev pub passthru : ℕ
passthru = 0x10

abbrev pub data_align : ℕ
data_align = 0x100

abbrev pub subfiling : ℕ
subfiling = 0x200

abbrev pub single_subfile_read : ℕ
single_subfile_read = 0x400
