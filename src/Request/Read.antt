-- ===== src/Request/Read.antt =====
-- src/H5VL_logi_nb.cpp: `H5VL_log_nb_flush_read_reqs`, which fills the buffers of the queued read
-- requests and reads from the subfiles of the file.
use vol_log_based.Prelude.{ℕ, zero, suc, ◌+◌, ◌%◌, List, [], ◌∷◌, ◌++◌, length, take, drop}
use vol_log_based.Prelude.{Result, ok, err, failed_call}
use vol_log_based.Prelude.{Option, none, some, Bool, not, false, ◌||◌, ◌==◌, if◌then◌else◌}

-- `H5VL_log_rreq_t`: the dataset, the number and size of the elements, and the bytes of `xbuf`.
pub record RReq : Type 0 where
  pub did : ℕ
  pub rsize : ℕ
  pub esize : ℕ
  pub xbuf : List ℕ

-- The fields of `H5VL_log_file_t` that the function uses, over a type of indexes. The files that
-- it opens are those of `group_id`.
pub record ReadState {u} (I : Type u) : Type u where
  pub group_id : ℕ
  pub ngroup : ℕ
  pub idx : I
  pub idxvalid : Bool

-- `memcpy` of some bytes to a place of a buffer.
abbrev pub patch : ℕ → List ℕ → List ℕ → List ℕ
patch off bytes buf = take off buf ++ (bytes ++ drop (off + length bytes) buf)

-- The loop that copies the fill value to every element. `n` elements are left.
unfoldable pub fill_elements : ℕ → ℕ → ℕ → List ℕ → List ℕ → List ℕ
fill_elements zero esize off fill buf = buf
fill_elements (suc n) esize off fill buf =
    fill_elements n esize (off + esize) fill (patch off fill buf)

-- With elements of no byte the end of the buffer is its begin, and the loop makes no turn.
unfoldable pub fill_req : (ℕ → Option (List ℕ)) → RReq → RReq
unfolding fill_elements
fill_req fill_of r = elim (fill_of r.did) [
  | none ↦ r
  | some fill ↦
      if r.esize == 0 then r else record r { xbuf = fill_elements r.rsize r.esize 0 fill r.xbuf }
]

unfoldable pub fill_reqs : (ℕ → Option (List ℕ)) → List RReq → List RReq
unfolding fill_req
fill_reqs fill_of [] = []
fill_reqs fill_of (r ∷ rs) = fill_req fill_of r ∷ fill_reqs fill_of rs

-- What the calls of a turn of the loop over the subfiles answer: whether those that close the
-- subfile succeed, and whether those that open the next one do.
pub record SwitchCalls : Type 0 where
  pub closed : Bool
  pub opened : Bool

-- The turns of the loop over the subfiles, of which `n` are left; a call that fails leaves the loop.
-- The results are the file, the subfiles opened in turn and the outcome.
module _ {u} {I : Type u} (clear : I → I) (calls : ℕ → SwitchCalls) where
  unfoldable pub switch : SwitchCalls → ℕ → ReadState I → ReadState I × Result (Unit {0})
  switch c group s =
      let t = record s { idx = clear s.idx; idxvalid = false; group_id = group % s.ngroup } in
      if not c.closed
      then (s, err failed_call)
      else if not c.opened
      then (t, err failed_call)
      else (t, ok tt)

  unfoldable pub rotate : ℕ → ℕ → ℕ → ReadState I → ReadState I × List ℕ × Result (Unit {0})
  unfolding switch
  rotate zero group_id i s = (s, [], ok tt)
  rotate (suc n) group_id i s =
      let (t, done) = switch (calls i) (group_id + i) s in
      let (r, gs, out) = rotate n group_id (suc i) t in
      elim done [ err e ↦ (t, [], err e) | ok v ↦ (r, t.group_id ∷ gs, out) ]

  -- `perform` is `H5VL_log_nb_perform_read`. The results are the file, the subfiles opened, the
  -- requests as they are left to the caller's buffers when the queue is cleared, and the outcome.
  unfoldable pub flush_read_reqs :
      (ReadState I → List RReq → ReadState I × List RReq × Result (Unit {0}))
      → (ℕ → Option (List ℕ))
      → Bool
      → Bool
      → ReadState I
      → List RReq
      → ReadState I × List ℕ × List RReq × Result (Unit {0})
  unfolding rotate fill_reqs
  flush_read_reqs perform fill_of subfiling single s reqs =
      let filled = fill_reqs fill_of reqs in
      if not subfiling || single
      then (let (t, rs, out) = perform s filled in (t, [], rs, out))
      else (let (t, gs, out) = rotate s.ngroup s.group_id 1 s in (t, gs, filled, out))
