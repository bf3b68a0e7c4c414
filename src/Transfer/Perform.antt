-- ===== src/Transfer/Perform.antt =====
-- src/H5VL_logi_nb.cpp: `H5VL_log_nb_perform_read` behind the search of the index, for a file that
-- is read by MPI.
pub mod Events
pub mod Assigned
pub mod Ordered
pub mod Unordered
use vol_log_based.Prelude.{
  ℕ, suc, ◌+◌, Bool, true, false, List, [], ◌∷◌, ◌++◌, Option, none, some, ltb, ◌==◌, not,
  if◌then◌else◌, length, map, mul64,
}
use vol_log_based.Prelude.{Result, ok, err, out_of_buffer, ◌>>=◌}
use vol_log_based.Filter.{unfilter}
use vol_log_based.File.Registry.{put}
use vol_log_based.Transfer.Rows.{ReadBlock}
use vol_log_based.Transfer.Trim.{Copy}
use vol_log_based.Transfer.Types.{Part, gen_rtypes}

-- `bufs`, with the number of its buffers, and `tbsize`.
pub record UnfilterBuffers : Type 0 where
  pub bufs : ℕ → Option ℕ
  pub allocated : ℕ
  pub tbsize : ℕ

abbrev pub no_buffers : UnfilterBuffers
no_buffers = record { bufs = λ foff. none; allocated = 0; tbsize = 0 }

-- The fields of `H5VL_log_rreq_t` that the post-processing uses, with the addresses of the buffers.
pub record Delivery : Type 0 where
  pub dtype : ℕ
  pub mtype : ℕ
  pub rsize : ℕ
  pub esize : ℕ
  pub xbuf : ℕ
  pub ubuf : ℕ
  pub ptype : Option ℕ

-- The calls that read or write a buffer, and the release of a buffer. `pack_elements`
-- has the buffer, the offset in it, the size that is given for the packed bytes, and the block whose
-- elements are packed and unpacked to the user's buffer.
pub data Event : Type 0 where
  read_at : List Part → Event
  overlap_copy : Copy → Event
  unfilter_in : ℕ → ℕ → Event
  pack_elements : ℕ → ℕ → ℕ → ReadBlock → Event
  convert : ℕ → ℕ → ℕ → ℕ → Event
  unpack : ℕ → ℕ → ℕ → ℕ → Event
  copy_out : ℕ → ℕ → ℕ → Event
  release : ℕ → Event

-- The zlib calls, as the filter pipeline uses them, and the bytes that the file has at the offset of
-- each entry.
pub record UnfilterCalls : Type 0 where
  pub deflate_id : ℕ
  pub deflate : List ℕ → Result (List ℕ)
  pub bytes : ℕ → List ℕ

-- A turn of the loop over the requests; `type_size` has the answers of `H5Tget_size`.
unfoldable pub post_process : (ℕ → ℕ) → Delivery → List Event
post_process type_size r =
    let same = r.dtype == r.mtype in
    let esize = if same then r.esize else type_size r.mtype in
    (if same then [] else convert r.dtype r.mtype r.rsize r.xbuf ∷ [])
    ++ (if r.xbuf == r.ubuf then [] else elim r.ptype [
      | some t ↦ unpack r.xbuf (mul64 r.rsize r.esize) r.ubuf t ∷ (release r.xbuf ∷ [])
      | none ↦ copy_out r.ubuf r.xbuf (mul64 r.rsize esize) ∷ (release r.xbuf ∷ [])
    ])

unfoldable pub post_process_all : (ℕ → ℕ) → List Delivery → List Event
unfolding post_process
post_process_all type_size [] = []
post_process_all type_size (r ∷ rs) = post_process type_size r ++ post_process_all type_size rs

-- `filters` has the pipeline of each dataset, and `malloc` the address of each allocation by the
-- number of those before it and its size, 0 where it fails. The calls of MPI and of HDF5 succeed.
module _ (filters : ℕ → List ℕ) (malloc : ℕ → ℕ → ℕ) (u : UnfilterCalls) where
  -- A turn of the loop that allocates the buffers for filtered data.
  unfoldable pub assign_buffer : ReadBlock → UnfilterBuffers → Result (ReadBlock × UnfilterBuffers)
  assign_buffer b s = elim (ltb 0 (length (filters b.hit.info))) [
    | false ↦ ok (b, s)
    | true ↦ elim (s.bufs b.hit.foff) [
      | none ↦
          let size = if ltb b.hit.xsize b.hit.fsize then b.hit.fsize else b.hit.xsize in
          let z = malloc s.allocated size in
          if z == 0
          then err out_of_buffer
          else ok (
            record b { zbuf = some z },
            record {
              bufs = put s.bufs b.hit.foff (some z);
              allocated = suc s.allocated;
              tbsize = if ltb s.tbsize b.hit.xsize then b.hit.xsize else s.tbsize;
            },
          )
      | some z ↦ ok (record b { zbuf = some z; hit = record b.hit { fsize = 0 } }, s)
    ]
  ]

  unfoldable pub assign_buffers :
      List ReadBlock → UnfilterBuffers → Result (List ReadBlock × UnfilterBuffers)
  unfolding assign_buffer
  assign_buffers [] s = ok ([], s)
  assign_buffers (b ∷ bs) s = assign_buffer b s >>= λ first.
      assign_buffers bs first.1 >>= λ later. ok (first.0 ∷ later.0, later.1)

  -- A turn of the loop that unfilters the data. `MPI_Pack` is told that its buffer has one byte.
  unfoldable pub unfilter_block : ReadBlock → Result (List Event)
  unfilter_block b = elim b.zbuf [
    | none ↦ ok []
    | some z ↦
        let packed = pack_elements z b.hit.doff 1 b ∷ [] in
        if ltb 0 b.hit.fsize
        then (unfilter u.deflate_id u.deflate (filters b.hit.info) (u.bytes b.hit.foff) []
            >>= λ buf. ok (unfilter_in z b.hit.fsize ∷ packed))
        else ok packed
  ]

  unfoldable pub unfilter_blocks : List ReadBlock → Result (List Event)
  unfolding unfilter_block
  unfilter_blocks [] = ok []
  unfilter_blocks (b ∷ bs) =
      unfilter_block b >>= λ first. unfilter_blocks bs >>= λ later. ok (first ++ later)

  -- The read behind the allocation of the buffers. The types are made of the blocks as `sort` leaves
  -- them, and so are the blocks unfiltered.
  unfoldable pub read_blocks :
      (ℕ → ℕ)
      → (List ReadBlock → List ReadBlock)
      → List Delivery
      → List ReadBlock
      → Result (List Event)
  unfolding unfilter_blocks post_process_all
  read_blocks type_size sort reqs blocks = elim (gen_rtypes sort blocks) [
    | none ↦ ok (read_at [] ∷ post_process_all type_size reqs)
    | some made ↦ made.1 >>= λ types. unfilter_blocks (sort blocks) >>= λ unfiltered. ok (
        read_at types.0
        ∷ (map overlap_copy types.1 ++ (unfiltered ++ post_process_all type_size reqs)))
  ]

  -- `H5VL_log_nb_perform_read` for the blocks that the search found.
  unfoldable pub perform_read :
      (ℕ → ℕ)
      → (List ReadBlock → List ReadBlock)
      → List Delivery
      → List ReadBlock
      → Result (List Event)
  unfolding assign_buffers read_blocks
  perform_read type_size sort reqs found =
      assign_buffers found no_buffers >>= λ assigned. read_blocks type_size sort reqs assigned.0
