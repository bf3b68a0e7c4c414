-- ===== src/Request/Flush.antt =====
-- src/H5VL_logi_nb.cpp and src/H5VL_log_filei.cpp: `H5VL_log_nb_flush_write_reqs`, which writes
-- out the data of the queued requests, and `H5VL_log_filei_flush`, which calls it.
use vol_log_based.Prelude.{ℕ, suc, ◌+◌, ◌-◌, List, [], ◌∷◌, ◌++◌, length, take, drop, map}
use vol_log_based.Prelude.{Option, none, some, Bool, true, if◌then◌else◌, ltb, ◌==◌}
use vol_log_based.Prelude.{to_int, add64}
use vol_log_based.File.Buffers.{Buffers, Op, release, run}
use vol_log_based.Request.Write.{DataBlock, WReq}
use vol_log_based.Request.Merged.{Merged}

-- The fields of `H5VL_log_file_t` that the two functions use.
pub record Queue : Type 0 where
  pub wreqs : List WReq
  pub mreqs : List (Option Merged)
  pub nflushed : ℕ
  pub mdsize : ℕ
  pub nldset : ℕ
  pub metadirty : Bool
  pub buffers : Buffers

-- A merged request as a write request, which it is by inheritance. Its `meta_off` is not set; it
-- stands as 0.
abbrev pub to_wreq : Merged → WReq
to_wreq m = record {
  hdr = m.hdr;
  record_field = [];
  sel_buf = m.sel_buf;
  nsel = m.nsel;
  meta_off = 0;
  dbufs = m.dbufs;
}

-- The loop that flushes the merged requests with blocks to the queue of write requests.
unfoldable pub to_push : List (Option Merged) → List WReq
to_push [] = []
to_push (none ∷ ms) = to_push ms
to_push (some m ∷ ms) = let rest = to_push ms in if ltb 0 m.nsel then to_wreq m ∷ rest else rest

unfoldable pub left_over : List (Option Merged) → List (Option Merged)
left_over [] = []
left_over (none ∷ ms) = none ∷ left_over ms
left_over (some m ∷ ms) = (if ltb 0 m.nsel then none else some m) ∷ left_over ms

abbrev pub meta_sizes : List WReq → ℕ
meta_sizes [] = 0
meta_sizes (r ∷ rs) = r.hdr.meta_size + meta_sizes rs

unfoldable pub push_merged : Queue → Queue
unfolding to_push left_over
push_merged q = record q {
  wreqs = q.wreqs ++ to_push q.mreqs;
  mreqs = left_over q.mreqs;
  mdsize = q.mdsize + meta_sizes (to_push q.mreqs);
}

-- The loop that gathers the requests: each begins where those before it end.
abbrev pub move_to : ℕ → WReq → WReq
move_to foff r = record r { hdr = record (r.hdr) { foff = foff } }

unfoldable pub place : ℕ → List WReq → List WReq
place off [] = []
place off (r ∷ rs) = move_to off r ∷ place (add64 off r.hdr.fsize) rs

unfoldable pub local_size : ℕ → List WReq → ℕ
local_size off [] = off
local_size off (r ∷ rs) = local_size (add64 off r.hdr.fsize) rs

abbrev pub block_count : List WReq → ℕ
block_count [] = 0
block_count (r ∷ rs) = length r.dbufs + block_count rs

-- The memory type: the data blocks of all requests in order, with `int` lengths.
unfoldable pub gather : List WReq → List (ℕ × ℕ)
gather [] = []
gather (r ∷ rs) = map (λ (d : DataBlock). (d.xbuf, to_int d.size)) r.dbufs ++ gather rs

-- Memory at `from`, `size` bytes of it, written at `off`.
pub record Piece : Type 0 where
  pub off : ℕ
  pub from : ℕ
  pub size : ℕ

-- The blocks of a memory type written one behind the other.
unfoldable pub write_out : ℕ → List (ℕ × ℕ) → List Piece
write_out off [] = []
write_out off ((p, n) ∷ ps) = record { off = off; from = p; size = n } ∷ write_out (off + n) ps

-- What one process writes: nothing, at offsets of the file, or at offsets of the log dataset.
pub data Output : Type 0 where
  no_write : Output
  to_file : List Piece → Output
  to_dataset : List Piece → Output

-- What the calls of MPI and of the underlying VOL return: the sizes over all processes and over
-- the group, the offset in the group, and the file offset of the new log dataset, at first and
-- after it is opened again; `none` is `HADDR_UNDEF`.
pub record Layout : Type 0 where
  pub fsize_all : ℕ
  pub fsize_group : ℕ
  pub foff_group : ℕ
  pub doff : Option ℕ
  pub doff_again : Option ℕ

unfoldable pub found : Layout → Option ℕ
found l = elim l.doff [ some d ↦ some d | none ↦ l.doff_again ]

-- The offset that is used, 0 for a log dataset that could not be placed.
unfoldable pub base_of : Layout → ℕ
unfolding found
base_of l = elim (found l) [ some d ↦ l.foff_group + d | none ↦ l.foff_group ]

unfoldable pub output : Bool → Layout → List (ℕ × ℕ) → Output
unfolding found write_out
output passthru l pieces =
    if passthru then to_dataset (write_out l.foff_group pieces) else elim (found l) [
      | some d ↦ to_file (write_out (l.foff_group + d) pieces)
      | none ↦ to_file []
    ]

-- Updating the metadata: the offsets are moved, and the internal buffers are released.
abbrev pub shift : ℕ → WReq → WReq
shift base r = move_to (add64 r.hdr.foff base) r

unfoldable pub releases : List DataBlock → List Op
releases [] = []
releases (d ∷ ds) =
    let rest = releases ds in if d.ubuf == d.xbuf then rest else release (some d.xbuf) ∷ rest

unfoldable pub release_all : List WReq → Buffers → Buffers
unfolding releases run
release_all [] b = b
release_all (r ∷ rs) b = release_all rs (run (releases r.dbufs) b)

-- The requests that are not flushed yet, placed if there is any data block.
unfoldable pub gathered : List WReq → List WReq
unfolding place
gathered rs = if ltb 0 (block_count rs) then place 0 rs else rs

unfoldable pub fsize_local : Queue → ℕ
unfolding push_merged local_size
fsize_local q =
    let rs = drop q.nflushed (push_merged q).wreqs in
    if ltb 0 (block_count rs) then local_size 0 rs else 0

-- The part that creates the log dataset of the group and writes to it.
unfoldable pub write_group : Bool → Layout → List WReq → Queue → Queue × Output
unfolding output base_of gather release_all
write_group passthru l rs q = (
  record q {
    wreqs = take q.nflushed q.wreqs ++ map (shift (base_of l)) rs;
    nflushed = q.nflushed + length rs;
    nldset = suc q.nldset;
    metadirty = true;
    buffers = release_all rs q.buffers;
  },
  output passthru l (gather rs),
)

-- `H5VL_log_nb_flush_write_reqs`.
unfoldable pub flush_write_reqs : Bool → Layout → Queue → Queue × Output
unfolding push_merged gathered write_group
flush_write_reqs passthru l q =
    let p = push_merged q in
    let rs = gathered (drop p.nflushed p.wreqs) in
    let kept = record p { wreqs = take p.nflushed p.wreqs ++ rs } in
    if l.fsize_all == 0
    then (kept, no_write)
    else if l.fsize_group == 0
    then (record kept { metadirty = true }, no_write)
    else write_group passthru l rs kept

-- `H5VL_log_filei_get_num_pending_writes`.
unfoldable pub get_num_pending_writes : Queue → ℕ
unfolding to_push
get_num_pending_writes q = length q.wreqs - q.nflushed + length (to_push q.mreqs)

-- `H5VL_log_filei_flush`, where the calls of all processes agree on the larger numbers of writes
-- and reads that wait. The reads are `read`.
unfoldable pub filei_flush : (ℕ → ℕ) → (ℕ → ℕ) → Bool → Layout → ℕ → (Queue → Queue) → Queue → Queue
unfolding flush_write_reqs get_num_pending_writes
filei_flush max_writes max_reads passthru l nreads read q =
    let written =
      if ltb 0 (max_writes (get_num_pending_writes q))
      then (flush_write_reqs passthru l q).0
      else q in
    if ltb 0 (max_reads nreads) then read written else written
