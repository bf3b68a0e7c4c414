-- ===== src/Request/Written.antt =====
-- src/H5VL_logi_nb.cpp: lemmas on the queue after a flush.
use vol_log_based.Prelude.{ℕ, zero, suc, ◌+◌, ◌^◌, ◌≤◌, ◌<◌, ◌≡◌, refl, ap}
use vol_log_based.Prelude.{
  List, [], ◌∷◌, ◌++◌, length, take, drop, map, length-append, length-map, length-take,
}
use vol_log_based.Prelude.{Option, none, some, Bool, false, ltb, ◌==◌, All}
use vol_log_based.Prelude.{Bool-cases, inl, inr, arith}
use vol_log_based.Request.Write.{WReq}
use vol_log_based.Request.Merged.{Merged}
use vol_log_based.Request.Flush.{Queue, Layout, to_file, found, base_of}
use vol_log_based.Request.Flush.{shift, gathered, push_merged, to_push, left_over}
use vol_log_based.Request.Flush.{write_group, output, flush_write_reqs, get_num_pending_writes}
use vol_log_based.Request.Placed.{all_at, data_size, IsSized, gathered_at}

pushed_none : (ms : List (Option Merged)) → to_push (left_over ms) ≡ []
unfolding to_push left_over
pushed_none [] = refl
pushed_none (none ∷ ms) = pushed_none ms
pushed_none (some m ∷ ms) = elim (Bool-cases (ltb 0 m.nsel)) [
  | inl e ↦ rw (e, to_push, left_over) (pushed_none ms)
  | inr e ↦ rw (e, left_over) (rw e (pushed_none ms))
]

module _ {ℓ} {A : Type ℓ} where
  take-length-append :
      (n : ℕ) (xs ys : List A) → n ≤ length xs → take n (take n xs ++ ys) ≡ take n xs
  take-length-append zero xs ys h = refl
  take-length-append (suc n) [] ys h = ground arith
  take-length-append (suc n) (x ∷ xs) ys h =
      ap (λ t. x ∷ t) (take-length-append n xs ys (omega arith))

  drop-length-append : (n : ℕ) (xs ys : List A) → n ≤ length xs → drop n (take n xs ++ ys) ≡ ys
  drop-length-append zero xs ys h = refl
  drop-length-append (suc n) [] ys h = ground arith
  drop-length-append (suc n) (x ∷ xs) ys h = drop-length-append n xs ys (omega arith)

-- The requests that a flush finds not flushed yet, the merged ones among them.
abbrev pub unflushed : Queue → List WReq
unflushed q = drop q.nflushed (push_merged q).wreqs

-- A flush with data in the group comes to the part that writes it.
abbrev gathered_queue : Queue → Queue
gathered_queue q =
    let p = push_merged q in record p { wreqs = take p.nflushed p.wreqs ++ gathered (unflushed q) }

flush-write_group :
    (passthru : Bool) (l : Layout) (q : Queue)
    → (l.fsize_all == 0) ≡ false
    → (l.fsize_group == 0) ≡ false
    → flush_write_reqs passthru l q
      ≡ write_group passthru l (gathered (unflushed q)) (gathered_queue q)
unfolding flush_write_reqs push_merged
flush-write_group passthru l q ha hg = rw (ha, hg)

nonzero : (n : ℕ) → 1 ≤ n → (n == 0) ≡ false
nonzero n h = ground arith

base_placed : (l : Layout) (d : ℕ) → found l ≡ some d → base_of l ≡ l.foff_group + d
unfolding base_of
base_placed l d h = rw (h, base_of)

-- What the part that writes leaves, where `ws` are the requests that it finds in the queue.
write_group-at_foff :
    (l : Layout) (d : ℕ) (ws rs : List WReq) (k : Queue)
    → k.nflushed ≤ length ws
    → k.wreqs ≡ take k.nflushed ws ++ gathered rs
    → to_push k.mreqs ≡ []
    → found l ≡ some d
    → All IsSized rs
    → l.foff_group + d + data_size rs < 2 ^ 64
    → let (p, out) = write_group false l (gathered rs) k in
      (out ≡ to_file (all_at (drop k.nflushed p.wreqs)))
      × (p.nflushed ≡ length p.wreqs)
      × (get_num_pending_writes p ≡ 0)
unfolding write_group output get_num_pending_writes
write_group-at_foff l d ws rs k hn hw hm placed sized fits =
    let n = k.nflushed in
    let moved = map (shift (l.foff_group + d)) (gathered rs) in
    let all = take-length-append n ws (gathered rs) hn in
    let new = drop-length-append n ws moved hn in
    let len : length (take n ws ++ moved) ≡ n + length (gathered rs) = omega (
      arith,
      length-append (take n ws) moved,
      length-take n ws hn,
      length-map (shift (l.foff_group + d)) (gathered rs),
    ) in
    rw (base_placed l d placed, placed, hw, all, new, len, hm)
      (ap to_file (gathered_at (l.foff_group + d) rs sized fits), refl, omega arith)

-- A flush in MPI mode writes the data of every queued request where that request's header says:
-- when the log dataset was placed at file offset `d`, each block of memory of each request goes
-- to the file behind the blocks before it, the first one at the request's `foff`. All requests,
-- the merged ones too, are then flushed, and no write is pending. The data sizes in the headers
-- are those of the data blocks, the lengths are `int`, and the offsets stay below 2 ^ 64.
pub flush_write_reqs-at_foff :
    (l : Layout) (q : Queue) (d : ℕ)
    → q.nflushed ≤ length q.wreqs
    → 1 ≤ l.fsize_all
    → 1 ≤ l.fsize_group
    → found l ≡ some d
    → All IsSized (unflushed q)
    → l.foff_group + d + data_size (unflushed q) < 2 ^ 64
    → let (p, out) = flush_write_reqs false l q in
      (out ≡ to_file (all_at (drop q.nflushed p.wreqs)))
      × (p.nflushed ≡ length p.wreqs)
      × (get_num_pending_writes p ≡ 0)
unfolding push_merged
flush_write_reqs-at_foff l q d hn all_data group_data placed sized fits =
    let (p, out) = flush_write_reqs false l q in
    let e =
      flush-write_group false l q (nonzero l.fsize_all all_data)
        (nonzero l.fsize_group group_data) in
    let here = (push_merged q).wreqs in
    let long : q.nflushed ≤ length here = omega (arith, length-append q.wreqs (to_push q.mreqs)) in
    rw e (
      write_group-at_foff l d here (unflushed q) (gathered_queue q) long refl (pushed_none q.mreqs)
        placed sized fits)
