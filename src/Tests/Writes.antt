-- ===== src/Tests/Writes.antt =====
-- The same small write made twice in a file with shared metadata.
use vol_log_based.Prelude.{◌≡◌, refl, arith, [], ◌∷◌, ◌++◌, none, some}
use vol_log_based.Prelude.{true, false, err, out_of_buffer}
use vol_log_based.Prelude.Bytes.{get_le, put_le}
use vol_log_based.Selections.{Selections}
use vol_log_based.Dataset.{DsetInfo}
use vol_log_based.Meta.{has_flag, sel_ref}
use vol_log_based.Request.Write.{WReq, meta_buf, make}
use vol_log_based.Request.Submit.{Call, data_of, dataseti_write}
use vol_log_based.Request.Queued.{IsQueued, Appended, made_for, dataseti_write-IsQueued}
use vol_log_based.Request.Dangling.{left_behind, dataseti_write-self_reference}
use vol_log_based.Sections.Flush.{MetaState}

abbrev dset : DsetInfo
dset = record { ndim = 2; esize = 4; dims = 4 ∷ 6 ∷ []; mdims = 4 ∷ 6 ∷ []; dsteps = 6 ∷ 1 ∷ [] }

abbrev sels : Selections
sels = record {
  ndim = 2;
  dims = some (4 ∷ 6 ∷ []);
  blocks = record { start = 1 ∷ 2 ∷ []; count = 2 ∷ 3 ∷ [] } ∷ [];
}

abbrev call : Call
call = record {
  user_buf = some 1000;
  buffered = false;
  eqtype = true;
  all_memory = true;
  esize = 4;
  filtered = none;
  addr = some 5000;
  addr_filtered = none;
}

-- The same call where `malloc` fails.
abbrev no_memory : Call
no_memory = record call { addr = none }

abbrev empty : MetaState
empty = record {
  queue = record {
    wreqs = [];
    mreqs = [];
    nflushed = 0;
    mdsize = 0;
    nldset = 0;
    metadirty = false;
    buffers = record { bsize = none; bused = 0; live = [] };
  };
  nmdset = 0;
  idxvalid = false;
  wreq_hash = [];
}

empty-IsQueued : IsQueued none empty
empty-IsQueued = record { placed = tt; total = refl; fits = omega arith; table = tt }

abbrev once : MetaState
once = (dataseti_write none 9999 8 dset 7 sels call empty).0

abbrev twice : MetaState
twice = (dataseti_write none 9999 8 dset 7 sels call once).0

once-IsQueued : IsQueued none once
unfolding dataseti_write make put_le get_le meta_buf
once-IsQueued =
    (dataseti_write-IsQueued none 9999 8 dset 7 sels call empty once empty-IsQueued refl
      (omega arith) (omega arith) (omega arith) refl).0

dataseti_write-IsQueued_example :
    IsQueued none twice × Appended none (made_for none 9999 8 dset 7 sels call once) once twice
unfolding dataseti_write make put_le get_le meta_buf
dataseti_write-IsQueued_example =
    dataseti_write-IsQueued none 9999 8 dset 7 sels call once twice once-IsQueued refl (omega arith)
      (omega arith) (omega arith) refl

abbrev failed : MetaState
failed = left_behind none 9999 8 dset 7 sels empty no_memory

abbrev again : MetaState
again = (dataseti_write none 9999 8 dset 7 sels call failed).0

dataseti_write-self_reference_example :
    (dataseti_write none 9999 8 dset 7 sels no_memory empty ≡ (failed, err out_of_buffer))
    × ((e : WReq) × (again.queue.wreqs ≡ empty.queue.wreqs ++ (e ∷ []))
        × (has_flag e.hdr.flag sel_ref ≡ true)
        × (get_le 8 e.sel_buf ≡ 0))
unfolding dataseti_write data_of make
dataseti_write-self_reference_example =
    dataseti_write-self_reference none 9999 8 dset 7 sels empty no_memory call 1000 out_of_buffer
      again (omega arith) refl refl refl refl refl refl (omega arith) refl
