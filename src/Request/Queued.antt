-- ===== src/Request/Queued.antt =====
-- src/H5VL_log_dataseti.cpp: the queue of write requests behind a write.
use vol_log_based.Prelude.{ℕ, ◌+◌, ◌^◌, ◌≤◌, ◌<◌, ◌≡◌, refl, ap, sym, subst, ◌∙◌, ◌≢◌, arith}
use vol_log_based.Prelude.{List, [], ◌∷◌, ◌++◌, All, length, ◌⊎◌, inl, inr, ◌==◌, Bool-cases}
use vol_log_based.Prelude.{Option, none, some, Bool, true, false, bit_xor}
use vol_log_based.Prelude.{Result, ok, err, Error}
use vol_log_based.Selections.{Selections, nsel}
use vol_log_based.Dataset.{DsetInfo}
use vol_log_based.Meta.{has_flag}
use vol_log_based.File.Buffers.{Buffers}
use vol_log_based.Request.Write.{DataBlock, WReq, meta_buf, make, make_with, wreq_eq}
use vol_log_based.Request.Flush.{Queue, meta_sizes}
use vol_log_based.Request.Submit.{
  Call, entry_for, push, enqueue, write_from, has_zlib, dataseti_write,
}
use vol_log_based.Request.Deduped.{IsMade, Refers, Plain, Own, Kept, find_lem}
use vol_log_based.Request.Outcome.{Outcome, entry_for_lem}
use vol_log_based.Sections.Flush.{MetaState}
use vol_log_based.Config

-- Each request's entry stands where the entries before it end.
abbrev pub AllPlaced : ℕ → List WReq → Type 0
AllPlaced off [] = Unit {0}
AllPlaced off (r ∷ rs) = (r.meta_off ≡ off) × AllPlaced (off + r.hdr.meta_size) rs

-- `H5VL_log_zip_compress`, if the build has zlib.
abbrev pub Zip : Type 0
Zip = Option (List ℕ → Option (List ℕ))

-- A request of the table is queued: its entry is no reference and has the request's selection.
abbrev pub InQueue : Zip → List WReq → WReq → Type 0
InQueue zip [] t = ⊥
InQueue zip (q ∷ qs) t = (Kept t q × Plain q × Own zip t q) ⊎ InQueue zip qs t

pub record IsQueued (zip : Zip) (s : MetaState) : Type 0 where
  pub placed : AllPlaced 0 s.queue.wreqs
  pub total : s.queue.mdsize ≡ meta_sizes s.queue.wreqs
  pub fits : s.queue.mdsize < 2 ^ 64
  pub table : All (InQueue zip s.queue.wreqs) s.wreq_hash

AllPlaced-append :
    (off : ℕ) (rs : List WReq) (r : WReq)
    → AllPlaced off rs
    → r.meta_off ≡ off + meta_sizes rs
    → AllPlaced off (rs ++ (r ∷ []))
AllPlaced-append off [] r h e = (omega (arith, e), tt)
AllPlaced-append off (q ∷ qs) r (h, hs) e =
    (h, AllPlaced-append (off + q.hdr.meta_size) qs r hs (omega (arith, e)))

meta_sizes-append :
    (rs : List WReq) (r : WReq) → meta_sizes (rs ++ (r ∷ [])) ≡ meta_sizes rs + r.hdr.meta_size
meta_sizes-append [] r = omega arith
meta_sizes-append (q ∷ qs) r = omega (arith, meta_sizes-append qs r)

InQueue-append :
    (zip : Zip) (qs : List WReq) (r t : WReq) → InQueue zip qs t → InQueue zip (qs ++ (r ∷ [])) t
InQueue-append zip [] r t h = elim h [ ]
InQueue-append zip (q ∷ qs) r t (inl h) = inl h
InQueue-append zip (q ∷ qs) r t (inr h) = inr (InQueue-append zip qs r t h)

InQueue-last :
    (zip : Zip) (qs : List WReq) (r t : WReq)
    → Kept t r
    → Plain r × Own zip t r
    → InQueue zip (qs ++ (r ∷ [])) t
InQueue-last zip [] r t k p = inl (k, p.0, p.1)
InQueue-last zip (q ∷ qs) r t k p = inr (InQueue-last zip qs r t k p)

All-InQueue-append :
    (zip : Zip) (qs : List WReq) (r : WReq) (ts : List WReq)
    → All (InQueue zip qs) ts
    → All (InQueue zip (qs ++ (r ∷ []))) ts
All-InQueue-append zip qs r [] h = tt
All-InQueue-append zip qs r (t ∷ ts) (h, hs) =
    (InQueue-append zip qs r t h, All-InQueue-append zip qs r ts hs)

-- A queued entry lies in front of the end.
InQueue-lt :
    (zip : Zip) (off : ℕ) (qs : List WReq) (t : WReq)
    → AllPlaced off qs
    → InQueue zip qs t
    → t.meta_off ≤ off + meta_sizes qs
InQueue-lt zip off [] t p h = elim h [ ]
InQueue-lt zip off (q ∷ qs) t (e, p) (inl h) = omega (arith, e, h.0.0)
InQueue-lt zip off (q ∷ qs) t (e, p) (inr h) =
    omega (arith, InQueue-lt zip (off + q.hdr.meta_size) qs t p h)

table_fits :
    (zip : Zip) (q : Queue) (ts : List WReq)
    → AllPlaced 0 q.wreqs
    → q.mdsize ≡ meta_sizes q.wreqs
    → q.mdsize < 2 ^ 64
    → All (InQueue zip q.wreqs) ts
    → All (λ (t : WReq). t.meta_off < 2 ^ 64) ts
table_fits zip q [] p e f h = tt
table_fits zip q (t ∷ ts) p e f (h, hs) =
    (omega (arith, InQueue-lt zip 0 q.wreqs t p h, e, f), table_fits zip q ts p e f hs)

pub make-IsMade :
    (unlimited : ℕ) (zlib : Bool) (dip : DsetInfo) (did config mdsize : ℕ) (sels : Selections)
    → IsMade (make unlimited zlib dip did config mdsize sels)
      × ((make unlimited zlib dip did config mdsize sels).meta_off ≡ mdsize)
unfolding make make_with
make-IsMade unlimited zlib dip did config mdsize sels = ((_, _, _, _, refl), refl)

-- The queue has one more entry `e`, at its end, which has the selection of `r` itself or refers to
-- an entry of the queue before it, of a request of the table with the same selection bytes.
abbrev pub Appended : Zip → WReq → MetaState → MetaState → Type 0
Appended zip r s s' =
    (e : WReq) × (s'.queue.wreqs ≡ s.queue.wreqs ++ (e ∷ []))
    × (e.meta_off ≡ s.queue.mdsize)
    × ((Plain e × Own zip r e)
        ⊎ ((t : WReq) × InQueue zip s.queue.wreqs t
            × (wreq_eq r t ≡ true)
            × Refers s.queue.mdsize t e))

-- The size and the blocks of the data do not matter.
Own-data :
    (zip : Zip) (r e : WReq) (size : ℕ) (dbufs : List DataBlock)
    → Own zip r e
    → Own zip r (record e { hdr = record (e.hdr) { fsize = size }; dbufs = dbufs })
Own-data none r e size dbufs h = h
Own-data (some z) r e size dbufs h = h

module _ (zip : Zip) (s : MetaState) (r e : WReq) (table : List WReq) (db : DataBlock) (b : Buffers)
    (queued : IsQueued zip s) (here : r.meta_off ≡ s.queue.mdsize)
    (fits : s.queue.mdsize + e.hdr.meta_size < 2 ^ 64) where
  abbrev next_state : MetaState
  next_state = push (record s { wreq_hash = table }) e db b

  abbrev queued_entry : WReq
  queued_entry = record e { hdr = record (e.hdr) { fsize = db.size }; dbufs = e.dbufs ++ (db ∷ []) }

  push-IsQueued :
      Kept r e
      → All (InQueue zip (s.queue.wreqs ++ (queued_entry ∷ []))) table
      → IsQueued zip next_state
  unfolding push
  push-IsQueued k all = record {
    placed =
        AllPlaced-append 0 s.queue.wreqs queued_entry queued.placed
          (omega (arith, k.0, here, queued.total));
    total = omega (arith, meta_sizes-append s.queue.wreqs queued_entry, queued.total);
    fits = fits;
    table = all;
  }

  push-Appended :
      Outcome zip s.queue.mdsize s.wreq_hash r (e, table)
      → IsQueued zip next_state × Appended zip r s next_state
  unfolding push
  push-Appended (k, inl ((plain, own), inl same)) = (
    push-IsQueued k (
        subst (All (InQueue zip (s.queue.wreqs ++ (queued_entry ∷ [])))) (sym same)
          (All-InQueue-append zip s.queue.wreqs queued_entry s.wreq_hash queued.table)),
    (
      queued_entry,
      refl,
      k.0 ∙ here,
      inl (plain, Own-data zip r e db.size (e.dbufs ++ (db ∷ [])) own),
    ),
  )
  push-Appended (k, inl ((plain, own), inr more)) = (
    push-IsQueued k (
        subst (All (InQueue zip (s.queue.wreqs ++ (queued_entry ∷ [])))) (sym more) (
          InQueue-last zip s.queue.wreqs queued_entry r k
              (plain, Own-data zip r e db.size (e.dbufs ++ (db ∷ [])) own),
          All-InQueue-append zip s.queue.wreqs queued_entry s.wreq_hash queued.table,
        )),
    (
      queued_entry,
      refl,
      k.0 ∙ here,
      inl (plain, Own-data zip r e db.size (e.dbufs ++ (db ∷ [])) own),
    ),
  )
  push-Appended (k, inr (t, f, refers, same)) =
      let (there, equal) = find_lem (InQueue zip s.queue.wreqs) r s.wreq_hash queued.table f in
      (
        push-IsQueued k (
            subst (All (InQueue zip (s.queue.wreqs ++ (queued_entry ∷ [])))) (sym same)
              (All-InQueue-append zip s.queue.wreqs queued_entry s.wreq_hash queued.table)),
        (queued_entry, refl, k.0 ∙ here, inr (t, there, equal, refers)),
      )

err-ne-ok : (x : Error) → ◌≢◌ {A = Result (Unit {0})} (err x) (ok tt)
err-ne-ok x h = cc

module _ (zip : Zip) (unlimited config : ℕ) (dip : DsetInfo) (did : ℕ) (sels : Selections)
    (c : Call) where
  abbrev pub made_for : MetaState → WReq
  made_for s = make unlimited (has_zlib zip) dip did config s.queue.mdsize sels

  abbrev pub entry_of : MetaState → WReq × List WReq
  entry_of s = entry_for zip config s.queue.mdsize s.wreq_hash (made_for s)

  -- How a write can succeed where requests are not merged.
  abbrev pub Pushed : MetaState → MetaState → Type 0
  Pushed s s' =
      (p : DataBlock × Buffers) × (push (record s { wreq_hash = (entry_of s).1 }) (entry_of s).0 p.0
          p.1
        ≡ s')

  enqueue_ok :
      (s s' : MetaState) (r : Result (DataBlock × Buffers))
      → has_flag config Config.metadata_merge ≡ false
      → enqueue config dip did sels (record s { wreq_hash = (entry_of s).1 }) (entry_of s).0 r
        ≡ (s', ok tt)
      → Pushed s s'
  unfolding enqueue
  enqueue_ok s s' (err x) plain run = absurd (err-ne-ok x (ap (λ q. q.1) run))
  enqueue_ok s s' (ok (db, b)) plain run =
      ((db, b), ap (λ (q : MetaState × Result (Unit {0})). q.0) (rw plain at run))

  write_from_ok :
      (s s' : MetaState) (buf : Option ℕ)
      → has_flag config Config.metadata_merge ≡ false
      → write_from zip unlimited config dip did sels c s buf ≡ (s', ok tt)
      → Pushed s s'
  unfolding write_from
  write_from_ok s s' none plain run = absurd (err-ne-ok _ (ap (λ q. q.1) run))
  write_from_ok s s' (some ubuf) plain run =
      elim (Bool-cases (bit_xor config Config.metadata_merge == 0)) [
        | inl e ↦ absurd (err-ne-ok _ (ap (λ q. q.1) (rw (e, write_from) at run)))
        | inr e ↦ enqueue_ok s s' _ plain (rw (e, write_from) at run)
      ]

  pub write_ok :
      (s s' : MetaState)
      → has_flag config Config.metadata_merge ≡ false
      → 0 < nsel sels
      → dataseti_write zip unlimited config dip did sels c s ≡ (s', ok tt)
      → Pushed s s'
  unfolding dataseti_write
  write_ok s s' plain some_sel run =
      let e : (nsel sels == 0) ≡ false = ground (arith, some_sel) in
      write_from_ok s s' c.user_buf plain (rw (e, dataseti_write) at run)

  -- A write without merging that succeeds, of a selection with a block whose entry has less than
  -- 2 ^ 31 bytes, to a queue whose requests are recorded at the places where their entries will
  -- stand: the queue has one entry more and its requests are recorded at their places again, every
  -- request of the table has an entry in the queue that is no reference and has the request's
  -- selection, plain or as it is compressed, and the new entry has the written selection, plain or
  -- as it is compressed, or refers, by the distance from its own place, to the entry of a request
  -- of the table whose selection bytes are the same.
  pub dataseti_write-IsQueued :
      (s s' : MetaState)
      → IsQueued zip s
      → has_flag config Config.metadata_merge ≡ false
      → 0 < nsel sels
      → length (meta_buf (made_for s)) < 2 ^ 31
      → s'.queue.mdsize < 2 ^ 64
      → dataseti_write zip unlimited config dip did sels c s ≡ (s', ok tt)
      → IsQueued zip s' × Appended zip (made_for s) s s'
  unfolding push
  dataseti_write-IsQueued s s' queued plain some_sel small fits run =
      let (p, e) = write_ok s s' plain some_sel run in
      let (made, here) = make-IsMade unlimited (has_zlib zip) dip did config s.queue.mdsize sels in
      let entry =
        entry_for_lem zip config s.queue.mdsize s.wreq_hash (made_for s) made
          (table_fits zip s.queue s.wreq_hash queued.placed queued.total queued.fits queued.table)
          queued.fits in
      let size : s.queue.mdsize + (entry_of s).0.hdr.meta_size < 2 ^ 64 =
        subst (λ (t : MetaState). t.queue.mdsize < 2 ^ 64) (sym e) fits in
      subst (λ t. IsQueued zip t × Appended zip (made_for s) s t) e
        (push-Appended zip s (made_for s) (entry_of s).0 (entry_of s).1 p.0 p.1 queued here size
          entry)
