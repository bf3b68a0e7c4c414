-- ===== src/Sections/Flush.antt =====
-- src/H5VL_log_filei_meta.cpp: `H5VL_log_filei_metaflush`, which writes the metadata entries of
-- the processes of a group to a new metadata dataset. What the calls of MPI and of the underlying
-- VOL return is an argument.
use vol_log_based.Prelude.{ℕ, suc, ◌+◌, ◌-◌, ◌*◌, ◌/◌, ◌^◌, List, [], ◌∷◌, ◌++◌, length, take, drop}
use vol_log_based.Prelude.{get_or, Option, none, some, Bool, false, if◌then◌else◌}
use vol_log_based.Prelude.{ltb, ◌==◌, to_int, add64, sub64}
use vol_log_based.Meta.Codec.{put_words}
use vol_log_based.Request.Write.{WReq, meta_buf}
use vol_log_based.Request.Flush.{Queue}

-- The fields of `H5VL_log_file_t` that the function uses.
pub record MetaState : Type 0 where
  pub queue : Queue
  pub nmdset : ℕ
  pub idxvalid : Bool
  pub wreq_hash : List WReq

-- An `int` as an `MPI_Offset`.
abbrev pub widen : ℕ → ℕ
widen n = if ltb n (2 ^ 31) then n else n + (2 ^ 64 - 2 ^ 32)

-- The size of the decomposition map, which rank 0 writes in front of its entries.
abbrev pub map_size : ℕ → ℕ
map_size np = 8 * (np + 1)

-- The memory blocks of a process and their lengths: the map on rank 0, then the entries.
unfoldable pub entries : List WReq → List (List ℕ × ℕ)
entries [] = []
entries (r ∷ rs) = (meta_buf r, to_int r.hdr.meta_size) ∷ entries rs

unfoldable pub mem_blocks : ℕ → ℕ → List ℕ → List WReq → List (List ℕ × ℕ)
unfolding entries
mem_blocks np rank mdoffs rs =
    if rank == 0 then (mdoffs, to_int (map_size np)) ∷ entries rs else entries rs

unfoldable pub add_lens : ℕ → List (List ℕ × ℕ) → ℕ
add_lens mdsize [] = mdsize
add_lens mdsize ((p, n) ∷ ps) = add_lens (add64 mdsize (widen n)) ps

-- The loop `mdoffs[i + 1] += mdoffs[i]` over the gathered sizes, behind `mdoffs[0] = 0`.
unfoldable pub accumulate : ℕ → List ℕ → List ℕ
accumulate off [] = []
accumulate off (n ∷ ns) = add64 n off ∷ accumulate (add64 n off) ns

-- The array that is scattered: to each process its offset and the total size.
unfoldable pub with_total : ℕ → List ℕ → List ℕ
with_total total [] = []
with_total total (o ∷ os) = o ∷ (total ∷ with_total total os)

unfoldable pub mdoffs_snd : ℕ → List ℕ → List ℕ
unfolding accumulate with_total
mdoffs_snd np sizes =
    let mdoffs = 0 ∷ accumulate 0 sizes in with_total (get_or mdoffs np 0) (take np mdoffs)

-- The map that is written: the number of sections in place of the first offset.
unfoldable pub section_map : ℕ → List ℕ → List ℕ
unfolding accumulate
section_map np sizes = sub64 (to_int (map_size np) / 8) 1 ∷ accumulate 0 sizes

-- The bytes of a memory type of blocks and lengths.
unfoldable pub hindexed : List (List ℕ × ℕ) → List ℕ
hindexed [] = []
hindexed ((p, n) ∷ ps) = take n p ++ hindexed ps

-- What one process writes: nothing, or bytes at an offset of the file or of the dataset.
pub data MdOutput : Type 0 where
  no_write : MdOutput
  to_file : ℕ → List ℕ → MdOutput
  to_dataset : ℕ → List ℕ → MdOutput

-- A process of a group: the group's size, the rank in it, the sizes that rank 0 gathered, the two
-- words that it received, the file offset of the new dataset, at first and after it is opened
-- again (`none` is `HADDR_UNDEF`), and what fresh memory holds.
pub record Process : Type 0 where
  pub passthru : Bool
  pub group_np : ℕ
  pub group_rank : ℕ
  pub sizes : List ℕ
  pub rbuf : ℕ × ℕ
  pub mdoff : Option ℕ
  pub mdoff_again : Option ℕ
  pub fresh : ℕ → List ℕ

unfoldable pub found : Option ℕ → Option ℕ → Option ℕ
found mdoff again = elim mdoff [ some d ↦ some d | none ↦ again ]

-- The local size that is sent to rank 0.
unfoldable pub local_mdsize : ℕ → ℕ → List WReq → ℕ
unfolding mem_blocks add_lens
local_mdsize np rank rs = add_lens 0 (mem_blocks np rank [] rs)

-- `malloc` and the loop of `memcpy`.
unfoldable pub packed : (ℕ → List ℕ) → ℕ → List ℕ → List ℕ
packed fresh size bytes = bytes ++ drop (length bytes) (fresh size)

-- The write. Without a file offset no block is left to be written.
unfoldable pub md_output : Process → List WReq → MdOutput
unfolding found mem_blocks section_map hindexed packed local_mdsize
md_output p rs =
    let blocks =
      mem_blocks p.group_np p.group_rank (put_words (section_map p.group_np p.sizes)) rs in
    let size = local_mdsize p.group_np p.group_rank rs in
    elim (found p.mdoff p.mdoff_again) [
      | some d ↦
          if p.passthru
          then to_dataset p.rbuf.0 (packed p.fresh size (hindexed blocks))
          else to_file (d + p.rbuf.0) (hindexed blocks)
      | none ↦
          if p.passthru then to_dataset p.rbuf.0 (packed p.fresh size []) else to_file p.rbuf.0 []
    ]

-- The end of the function: the requests are deleted.
unfoldable pub cleared : MetaState → MetaState
cleared s = record s {
  queue = record (s.queue) { wreqs = []; nflushed = 0; mdsize = 0; metadirty = false };
  idxvalid = false;
  wreq_hash = [];
}

-- `H5VL_log_filei_metaflush`, with the size of the dataset that it creates, if it creates one.
unfoldable pub metaflush : Process → MetaState → MetaState × Option ℕ × MdOutput
unfolding md_output cleared
metaflush p s =
    if ltb (map_size p.group_np) p.rbuf.1
    then (cleared (record s { nmdset = suc s.nmdset }), some p.rbuf.1, md_output p s.queue.wreqs)
    else (cleared s, none, no_write)

-- The sizes that the processes send, in rank order.
abbrev pub sizes_from : ℕ → ℕ → List MetaState → List ℕ
sizes_from np rank [] = []
sizes_from np rank (s ∷ ss) = local_mdsize np rank s.queue.wreqs ∷ sizes_from np (suc rank) ss

-- The processes from a rank on, writing through MPI, with the file offset `at` of the new dataset
-- and the words that each received.
abbrev pub flush_from :
    Option ℕ × Option ℕ
    → ℕ
    → List ℕ
    → ℕ
    → List (ℕ × ℕ)
    → List MetaState
    → List (MetaState × Option ℕ × MdOutput)
flush_from at np sizes rank [] ss = []
flush_from at np sizes rank (rbuf ∷ rbufs) [] = []
flush_from at np sizes rank (rbuf ∷ rbufs) (s ∷ ss) =
    metaflush
      (record {
        passthru = false;
        group_np = np;
        group_rank = rank;
        sizes = sizes;
        rbuf = rbuf;
        mdoff = at.0;
        mdoff_again = at.1;
        fresh = λ n. [];
      })
      s
    ∷ flush_from at np sizes (suc rank) rbufs ss

-- One flush of a group: rank 0 gathers the sizes and scatters the offsets. `gather` and `scatter`
-- are the calls of MPI: what is sent in rank order to what rank 0 receives, and the array that
-- rank 0 sends to what each process receives.
unfoldable pub flush_group :
    (List ℕ → List ℕ)
    → (List ℕ → List (ℕ × ℕ))
    → Option ℕ × Option ℕ
    → List MetaState
    → List (MetaState × Option ℕ × MdOutput)
unfolding local_mdsize mdoffs_snd metaflush
flush_group gather scatter at ss =
    let np = length ss in
    let sizes = gather (sizes_from np 0 ss) in
    flush_from at np sizes 0 (scatter (mdoffs_snd np sizes)) ss
