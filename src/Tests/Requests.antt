-- ===== src/Tests/Requests.antt =====
-- A queue with one request and one merged request, in a file with 300 bytes in front of the
-- group's part.
use vol_log_based.Prelude.{◌↔◌, ℕ, ◌+◌, ◌≤◌, ◌≡◌, refl, arith, List, [], ◌∷◌, ◌++◌, none, some}
use vol_log_based.Prelude.{false, length, drop, Result, ok}
use vol_log_based.Prelude.Bytes.{put_le}
use vol_log_based.Dataset.{DsetInfo}
use vol_log_based.Meta.Codec.{hdr_size}
use vol_log_based.Request.Write.{DataBlock, WReq}
use vol_log_based.Request.Merged.{Merged, init, append_all}
use vol_log_based.Request.Merge.{Write, blocks_in, coordinates, data_in, append_all-init}
use vol_log_based.Request.Flush.{
  Queue, Layout, to_file, found, flush_write_reqs, get_num_pending_writes,
}
use vol_log_based.Request.Flush.{push_merged, to_push}
use vol_log_based.Request.Placed.{all_at}
use vol_log_based.Request.Written.{flush_write_reqs-at_foff}
use vol_log_based.Filter.{unfilter, chain, reversed, unfilter-chain}
use vol_log_based.Selections.{Block}
use vol_log_based.Meta.{MetaHdr}
use vol_log_based.Meta.Codec.{put_hdr}
use vol_log_based.Meta.Decode.{metaentry_decode}
use vol_log_based.Request.Fields.{IsHdr}
use vol_log_based.Request.RoundTrip.{entry_of}
use vol_log_based.Request.Misread.{mixed, two_appends_misread}
use vol_log_based.Notify.{succeed, canceled, fail, notify_all, overall, notify_all-overall}

abbrev dset : DsetInfo
dset = record { ndim = 2; esize = 4; dims = 4 ∷ 6 ∷ []; mdims = 4 ∷ 6 ∷ []; dsteps = 6 ∷ 1 ∷ [] }

abbrev first : DataBlock
first = record { ubuf = 1000; xbuf = 1000; size = 12 }

abbrev second : DataBlock
second = record { ubuf = 2000; xbuf = 5000; size = 8 }

abbrev writes : List Write
writes =
    (first, record { start = 0 ∷ 0 ∷ []; count = 1 ∷ 3 ∷ [] } ∷ [])
    ∷ ((second, record { start = 2 ∷ 1 ∷ []; count = 1 ∷ 2 ∷ [] } ∷ []) ∷ [])

abbrev merged : Merged
merged = append_all dset writes (init 3 dset 5 1)

append_all-init_example :
    (merged.sel_buf ≡ put_le 4 (blocks_in writes) ++ coordinates dset writes)
    × (merged.hdr.meta_size ≡ hdr_size + length merged.sel_buf)
    × (merged.hdr.meta_size ≤ merged.meta_size_alloc)
    × (merged.hdr.fsize ≡ data_in writes)
append_all-init_example =
    append_all-init 3 dset 5 1 writes (omega arith) (omega arith) (omega arith)

abbrev queued : WReq
queued = record {
  hdr = record { meta_size = 60; did = 1; flag = 0; foff = 0; fsize = 20 };
  record_field = [];
  sel_buf = [];
  nsel = 1;
  meta_off = 0;
  dbufs = first ∷ (second ∷ []);
}

abbrev waiting : Merged
waiting = record {
  hdr = record { meta_size = 96; did = 5; flag = 1; foff = 0; fsize = 8 };
  nsel = 1;
  sel_buf = [];
  meta_size_alloc = 1056;
  mbufp = 96;
  mbufe = 1056;
  dbufs = second ∷ [];
}

abbrev queue : Queue
queue = record {
  wreqs = queued ∷ [];
  mreqs = none ∷ (some waiting ∷ []);
  nflushed = 0;
  mdsize = 60;
  nldset = 0;
  metadirty = false;
  buffers = record { bsize = none; bused = 16; live = (5000, 8) ∷ [] };
}

abbrev layout : Layout
layout = record {
  fsize_all = 328;
  fsize_group = 328;
  foff_group = 300;
  doff = none;
  doff_again = some 4096;
}

flush_write_reqs-at_foff_example :
    ((flush_write_reqs false layout queue).1
      ≡ to_file (all_at (drop 0 (flush_write_reqs false layout queue).0.wreqs)))
    × ((flush_write_reqs false layout queue).0.nflushed
        ≡ length (flush_write_reqs false layout queue).0.wreqs)
    × (get_num_pending_writes (flush_write_reqs false layout queue).0 ≡ 0)
unfolding push_merged to_push found
flush_write_reqs-at_foff_example =
    flush_write_reqs-at_foff layout queue 4096 (omega arith) (omega arith) (omega arith) refl
      ((refl, (omega arith, (omega arith, tt))), ((refl, (omega arith, tt)), tt)) (omega arith)

-- A stand-in for the compression, which puts one byte in front.
abbrev marked : List ℕ → Result (List ℕ)
marked bytes = ok (7 ∷ bytes)

unfilter-chain_example :
    unfilter 1 marked (1 ∷ 2 ∷ []) (5 ∷ []) [] ≡ chain 1 marked (reversed (1 ∷ 2 ∷ []) []) (5 ∷ [])
unfilter-chain_example = unfilter-chain 1 marked (1 ∷ 2 ∷ []) (5 ∷ []) [] (omega arith)

abbrev row : Block
row = record { start = 0 ∷ 0 ∷ []; count = 1 ∷ 3 ∷ [] }

abbrev other_row : Block
other_row = record { start = 2 ∷ 1 ∷ []; count = 1 ∷ 2 ∷ [] }

abbrev merged_hdr : MetaHdr
merged_hdr = record { meta_size = 96; did = 5; flag = 1; foff = 4396; fsize = 20 }

merged_hdr-IsHdr : IsHdr merged_hdr
merged_hdr-IsHdr = record {
  meta_size_fits = omega arith;
  did_fits = omega arith;
  flag_fits = omega arith;
  foff_fits = omega arith;
  fsize_fits = omega arith;
}

two_appends_misread_example :
    (metaentry_decode none dset (
        put_hdr merged_hdr
        ++ (put_le 4 2 ++ coordinates dset ((first, row ∷ []) ∷ ((second, other_row ∷ []) ∷ []))))
      ≡ ok (entry_of dset merged_hdr 2 (mixed row other_row)))
    × ((mixed row other_row ≡ row ∷ (other_row ∷ [])) ↔ (row.count ≡ other_row.start))
two_appends_misread_example =
    two_appends_misread none dset merged_hdr first second row other_row merged_hdr-IsHdr
      (omega arith) (omega arith) refl refl refl refl (omega arith)

notify_all-overall_example :
    notify_all (succeed ∷ (canceled ∷ (fail ∷ []))) record { cnt = 3; stat = succeed }
    ≡ overall (succeed ∷ (canceled ∷ (fail ∷ []))) ∷ []
notify_all-overall_example = notify_all-overall succeed (canceled ∷ (fail ∷ []))
