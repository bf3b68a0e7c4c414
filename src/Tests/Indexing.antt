-- ===== src/Tests/Indexing.antt =====
-- Two entries of a dataset with one unlimited dimension, a record entry among them.
use vol_log_based.Prelude.{ℕ, zero, suc, ◌≡◌, refl, List, [], ◌∷◌, Option, none, some}
use vol_log_based.Prelude.{get_or, map}
use vol_log_based.Dataset.{DsetInfo}
use vol_log_based.Meta.{MetaEntry}
use vol_log_based.Index.{ReadReq}
use vol_log_based.Index.Array
use vol_log_based.Index.Compact
use vol_log_based.Index.Equiv.{Represents}

abbrev plain_entry : MetaEntry
plain_entry = record {
  hdr = record { meta_size = 60; did = 0; flag = 0; foff = 4096; fsize = 24 };
  sels = record { start = 1 ∷ 2 ∷ []; count = 2 ∷ 3 ∷ []; doff = 0 } ∷ [];
  dsize = 24;
}

abbrev record_entry : MetaEntry
record_entry = record {
  hdr = record { meta_size = 52; did = 0; flag = 0x20; foff = 8192; fsize = 20 };
  sels = record { start = 2 ∷ 0 ∷ []; count = 1 ∷ 5 ∷ []; doff = 0 } ∷ [];
  dsize = 20;
}

abbrev request : ReadReq
request = record {
  did = 0;
  info = 0;
  ndim = 2;
  sels = record {
    ndim = 2;
    dims = none;
    blocks = record { start = 2 ∷ 1 ∷ []; count = 1 ∷ 3 ∷ [] } ∷ [];
  };
  esize = 4;
  xbuf = 1000;
}

abbrev ndims : ℕ → ℕ
ndims did = 2

abbrev esizes : ℕ → Option ℕ
esizes did = some 4

start : Represents ndims [] []
start = (refl, λ did. refl)

abbrev array_two : Array.ArrayIdx
array_two = (plain_entry ∷ (record_entry ∷ [])) ∷ ([] ∷ [])

abbrev compact_one : Compact.CompactIdx
compact_one = (Compact.own_entry 2 plain_entry ∷ []) ∷ ([] ∷ [])

abbrev compact_two : Compact.CompactIdx
compact_two =
    (Compact.own_entry 2 plain_entry ∷ (Compact.own_entry 2 record_entry ∷ [])) ∷ ([] ∷ [])

one_packed :
    (did : ℕ)
    → get_or compact_one did []
      ≡ map (Compact.own_entry (ndims did)) (get_or ((plain_entry ∷ []) ∷ ([] ∷ [])) did [])
one_packed zero = refl
one_packed (suc zero) = refl
one_packed (suc (suc did)) = refl

one_each : Represents ndims ((plain_entry ∷ []) ∷ ([] ∷ [])) compact_one
one_each = (refl, one_packed)

-- The header of a plain entry of one element, its start and its count, in a dataset of one
-- dimension.
abbrev dset : DsetInfo
dset = record { ndim = 1; esize = 4; dims = 8 ∷ []; mdims = 8 ∷ []; dsteps = 1 ∷ [] }

abbrev linked : ℕ → Option DsetInfo
linked did = some dset

abbrev block : List ℕ
block =
    44 ∷ 0 ∷ 0 ∷ 0 ∷ 0 ∷ 0 ∷ 0 ∷ 0 ∷ 0 ∷ 0 ∷ 0 ∷ 0 ∷ 0 ∷ 0 ∷ 0 ∷ 0 ∷ 0 ∷ 0 ∷ 0 ∷ 0 ∷ 4 ∷ 0 ∷ 0 ∷ 0
    ∷ 0 ∷ 0 ∷ 0 ∷ 0 ∷ 3 ∷ 0 ∷ 0 ∷ 0 ∷ 0 ∷ 0 ∷ 0 ∷ 0 ∷ 1 ∷ 0 ∷ 0 ∷ 0 ∷ 0 ∷ 0 ∷ 0 ∷ 0 ∷ []
