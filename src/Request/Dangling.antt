-- ===== src/Request/Dangling.antt =====
-- src/H5VL_log_dataseti.cpp: a write that throws when it asks for its data buffer, and the same
-- write again.
use vol_log_based.Prelude.{ℕ, ◌^◌, ◌<◌, ◌≡◌, refl, ap, sym, ◌∙◌, arith, List, [], ◌∷◌, ◌++◌}
use vol_log_based.Prelude.{
  Option, some, none, true, false, ◌&&◌, ltb, ◌==◌, bit_xor, ok, err, Error,
}
use vol_log_based.Prelude.Bytes.{get_le}
use vol_log_based.Selections.{Selections, nsel, get_sel_size}
use vol_log_based.Dataset.{DsetInfo}
use vol_log_based.Meta.{has_flag, sel_ref}
use vol_log_based.Request.Write.{WReq}
use vol_log_based.Request.Submit.{
  Call, has_zlib, find, sel_size, data_of, push, enqueue, write_from, dataseti_write,
}
use vol_log_based.Request.Outcome.{entry_for_found, find_self, table_grows}
use vol_log_based.Request.Queued.{made_for, entry_of, make-IsMade, write_ok}
use vol_log_based.Sections.Flush.{MetaState}
use vol_log_based.Config

module _ (zip : Option (List ℕ → Option (List ℕ))) (unlimited config : ℕ) (dip : DsetInfo) (did : ℕ)
    (sels : Selections) (s : MetaState) where
  abbrev pub request : Call → WReq
  request c = made_for zip unlimited config dip did sels c s

  -- The state with the request in the table and not in the queue.
  abbrev pub left_behind : Call → MetaState
  left_behind c = record s { wreq_hash = request c ∷ s.wreq_hash }

  throws :
      (c : Call) (ubuf : ℕ) (x : Error)
      → 0 < nsel sels
      → c.user_buf ≡ some ubuf
      → (bit_xor config Config.metadata_merge == 0) ≡ false
      → (has_flag config Config.metadata_share && ltb 8 (sel_size (request c))) ≡ true
      → find (request c) s.wreq_hash ≡ none
      → data_of c dip ubuf (get_sel_size sels) s.queue.buffers ≡ err x
      → dataseti_write zip unlimited config dip did sels c s ≡ (left_behind c, err x)
  unfolding dataseti_write write_from enqueue
  throws c ubuf x some_sel buf not_merge shared new fails =
      let e : (nsel sels == 0) ≡ false = ground (arith, some_sel) in
      let grows = table_grows zip config s.queue.mdsize s.wreq_hash (request c) shared new in
      let start : dataseti_write zip unlimited config dip did sels c s
          ≡ write_from zip unlimited config dip did sels c s c.user_buf =
        rw e refl in
      let from : write_from zip unlimited config dip did sels c s (some ubuf)
          ≡ enqueue config dip did sels
              (record s { wreq_hash = (entry_of zip unlimited config dip did sels c s).1 })
              (entry_of zip unlimited config dip did sels c s).0
              (data_of c dip ubuf (get_sel_size sels) s.queue.buffers) =
        rw not_merge refl in
      start
      ∙ ap (write_from zip unlimited config dip did sels c s) buf
      ∙ from
      ∙ ap
          (enqueue config dip did sels
            (record s { wreq_hash = (entry_of zip unlimited config dip did sels c s).1 })
            (entry_of zip unlimited config dip did sels c s).0)
          fails
      ∙ ap (λ (ts : List WReq). (record s { wreq_hash = ts }, err x)) grows

  -- A write of a selection that shared metadata can refer to, which is not in the table, and that
  -- throws when it asks for its data buffer, leaves its request in the table and not in the queue;
  -- and when the same write is made again, where requests are not merged, and succeeds, the entry
  -- that it queues is a reference at distance 0, to itself.
  pub dataseti_write-self_reference :
      (c c' : Call) (ubuf : ℕ) (x : Error) (s' : MetaState)
      → 0 < nsel sels
      → c.user_buf ≡ some ubuf
      → has_flag config Config.metadata_merge ≡ false
      → (bit_xor config Config.metadata_merge == 0) ≡ false
      → (has_flag config Config.metadata_share && ltb 8 (sel_size (request c))) ≡ true
      → find (request c) s.wreq_hash ≡ none
      → data_of c dip ubuf (get_sel_size sels) s.queue.buffers ≡ err x
      → s.queue.mdsize < 2 ^ 64
      → dataseti_write zip unlimited config dip did sels c' (left_behind c) ≡ (s', ok tt)
      → (dataseti_write zip unlimited config dip did sels c s ≡ (left_behind c, err x))
        × ((e : WReq) × (s'.queue.wreqs ≡ s.queue.wreqs ++ (e ∷ []))
            × (has_flag e.hdr.flag sel_ref ≡ true)
            × (get_le 8 e.sel_buf ≡ 0))
  unfolding push
  dataseti_write-self_reference c c' ubuf x s' some_sel buf plain not_merge shared new fails fits
        again =
      let r = request c in
      let t = left_behind c in
      let ((db, b), e) = write_ok zip unlimited config dip did sels c' t s' plain some_sel again in
      let (made, here) = make-IsMade unlimited (has_zlib zip) dip did config s.queue.mdsize sels in
      let (ref, off) =
        entry_for_found zip config s.queue.mdsize (r ∷ s.wreq_hash) r r made
          (omega (arith, here, fits)) fits shared (find_self r s.wreq_hash) in
      let entry = (entry_of zip unlimited config dip did sels c' t).0 in
      (
        throws c ubuf x some_sel buf not_merge shared new fails,
        (
          record entry {
            hdr = record (entry.hdr) { fsize = db.size };
            dbufs = entry.dbufs ++ (db ∷ []);
          },
          ap (λ (q : MetaState). q.queue.wreqs) (sym e),
          ref,
          off ∙ omega (arith, here, fits),
        ),
      )
