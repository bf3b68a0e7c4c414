-- ===== src/Request/Submit.antt =====
-- src/H5VL_log_dataseti.cpp: `H5VL_log_dataseti_write`, which makes the metadata entry of a write,
-- looks for an entry with the same selection, and queues the request.
use vol_log_based.Prelude.{ℕ, ◌+◌, ◌-◌, ◌^◌, max, List, [], ◌∷◌, ◌++◌, length, take, drop}
use vol_log_based.Prelude.{Option, none, some, Bool, true, false, ◌&&◌, if◌then◌else◌, set, get_or}
use vol_log_based.Prelude.{ltb, ◌==◌, sub64, mul64, bit_and, bit_or, bit_xor}
use vol_log_based.Prelude.{Result, ok, err, ◌>>=◌, null_buffer, undefined_behaviour}
use vol_log_based.Prelude.Bytes.{put_le, get_le}
use vol_log_based.Selections.{Selections, nsel, get_sel_size}
use vol_log_based.Dataset.{DsetInfo}
use vol_log_based.Meta.{has_flag, sel_ref, sel_deflate, rec}
use vol_log_based.Meta.Codec.{hdr_size}
use vol_log_based.File.Buffers.{Buffers, balloc, bfree}
use vol_log_based.Request.Write.{DataBlock, WReq, make, resize, hash, wreq_eq}
use vol_log_based.Request.Merged.{append_to}
use vol_log_based.Sections.Flush.{MetaState}
use vol_log_based.Config

-- `flag & ~bit`.
abbrev pub clear_flag : ℕ → ℕ → ℕ
clear_flag flag bit = bit_and flag (bit_xor (2 ^ 32 - 1) bit)

abbrev pub sel_size : WReq → ℕ
sel_size r = r.hdr.meta_size - (hdr_size + length r.record_field)

-- `wreq_hash.find`: an entry with the same hash that is equal. The table holds a request as it was
-- when it was put in.
unfoldable pub find : WReq → List WReq → Option WReq
unfolding hash wreq_eq
find r [] = none
find r (t ∷ ts) = let rest = find r ts in if (hash r == hash t) && wreq_eq r t then some t else rest

-- Both are of one record, so the record number is left out too.
abbrev pub same_record : WReq → WReq → Bool
same_record r t =
    has_flag r.hdr.flag rec
    && (has_flag t.hdr.flag rec && (get_le 8 r.record_field == get_le 8 t.record_field))

-- The entry as a reference to `t`, which stands at a relative offset from it.
unfoldable pub refer : ℕ → WReq → WReq → WReq
refer mdsize t r =
    let flag = clear_flag (bit_or r.hdr.flag sel_ref) sel_deflate in
    let off = put_le 8 (sub64 t.meta_off mdsize) in
    if same_record r t
    then record r {
      hdr = record (r.hdr) { flag = clear_flag flag rec };
      record_field = [];
      sel_buf = off ++ r.sel_buf;
    }
    else record r { hdr = record (r.hdr) { flag = flag }; sel_buf = off ++ drop 8 r.sel_buf }

-- Deduplication: the request, the size of its selection and the table.
unfoldable pub dedup : ℕ → ℕ → List WReq → WReq → WReq × ℕ × List WReq
unfolding find refer
dedup config mdsize table r =
    if has_flag config Config.metadata_share && ltb 8 (sel_size r)
    then elim (find r table) [
      | none ↦ (r, sel_size r, r ∷ table)
      | some t ↦ (refer mdsize t r, 8, table)
    ]
    else (r, sel_size r, table)

-- Compression of the selection; `zip` is `H5VL_log_zip_compress`, `none` if it fails.
abbrev pub uncompressed : WReq → WReq
uncompressed r = record r { hdr = record (r.hdr) { flag = clear_flag r.hdr.flag sel_deflate } }

unfoldable pub compress : (List ℕ → Option (List ℕ)) → WReq → ℕ → WReq × ℕ
compress zip r selsize =
    if has_flag r.hdr.flag sel_deflate
    then elim (zip (take selsize r.sel_buf)) [
      | none ↦ (uncompressed r, selsize)
      | some c ↦
          if ltb (length c) selsize
          then (record r { sel_buf = c ++ drop (length c) r.sel_buf }, length c)
          else (uncompressed r, selsize)
    ]
    else (r, selsize)

-- The buffer is cut to the entry's size.
unfoldable pub trim : WReq → ℕ → WReq
unfolding resize
trim r selsize =
    let size = hdr_size + length r.record_field + selsize in
    if ltb size r.hdr.meta_size then resize r size else r

-- The entry of a write and the table behind it. `zip` is `none` in a build without zlib.
unfoldable pub entry_for :
    Option (List ℕ → Option (List ℕ)) → ℕ → ℕ → List WReq → WReq → WReq × List WReq
unfolding dedup compress trim
entry_for zip config mdsize table r =
    let (d, size, ts) = dedup config mdsize table r in
    elim zip [
      | none ↦ (trim d size, ts)
      | some z ↦ (let (c, n) = compress z d size in (trim c n, ts))
    ]

abbrev pub has_zlib : Option (List ℕ → Option (List ℕ)) → Bool
has_zlib none = false
has_zlib (some z) = true

-- The call: the user's buffer, whether the write is buffered, the types are equal and all of the
-- memory is selected, the size of a memory element, the size of the filtered data if the dataset
-- has filters, and what `malloc` returns for the two buffers.
pub record Call : Type 0 where
  pub user_buf : Option ℕ
  pub buffered : Bool
  pub eqtype : Bool
  pub all_memory : Bool
  pub esize : ℕ
  pub filtered : Option ℕ
  pub addr : Option ℕ
  pub addr_filtered : Option ℕ

-- The internal buffer for the data, if one is needed.
unfoldable pub place_data : Call → DsetInfo → ℕ → ℕ → Buffers → Result (DataBlock × Buffers)
unfolding balloc
place_data c dip ubuf elements b =
    if c.buffered && (c.eqtype && c.all_memory)
    then ok (record { ubuf = ubuf; xbuf = ubuf; size = mul64 elements dip.esize }, b)
    else (balloc c.addr (mul64 elements (max c.esize dip.esize)) b >>= λ p.
        ok (record { ubuf = ubuf; xbuf = p.0; size = mul64 elements dip.esize }, p.1))

-- Filtered data goes to a buffer of its own.
unfoldable pub place_filtered : Call → DataBlock × Buffers → Result (DataBlock × Buffers)
unfolding balloc bfree
place_filtered c (db, b) = elim c.filtered [
  | none ↦ ok (db, b)
  | some size ↦ (if db.xbuf == db.ubuf then ok b else bfree (some db.xbuf) b) >>= λ b'.
      balloc c.addr_filtered size b' >>= λ p. ok (record db { xbuf = p.0; size = size }, p.1)
]

unfoldable pub data_of : Call → DsetInfo → ℕ → ℕ → Buffers → Result (DataBlock × Buffers)
unfolding place_data place_filtered
data_of c dip ubuf elements b = place_data c dip ubuf elements b >>= place_filtered c

-- The request is put in the queue.
unfoldable pub push : MetaState → WReq → DataBlock → Buffers → MetaState
push s r db b =
    let q = s.queue in
    record s {
      queue = record q {
        wreqs =
            q.wreqs
            ++ (record r { hdr = record (r.hdr) { fsize = db.size }; dbufs = r.dbufs ++ (db ∷ []) }
                ∷ []);
        mdsize = q.mdsize + r.hdr.meta_size;
        buffers = b;
      };
    }

unfoldable pub push_to_merged :
    ℕ → DsetInfo → ℕ → Selections → MetaState → DataBlock → Buffers → MetaState
unfolding append_to
push_to_merged config dip did sels s db b =
    let q = s.queue in
    record s {
      queue = record q {
        mreqs =
            set q.mreqs did
              (some (append_to config dip did db sels.blocks (get_or q.mreqs did none)));
        buffers = b;
      };
    }

-- The end of the function, behind the buffers for the data.
unfoldable pub enqueue :
    ℕ
    → DsetInfo
    → ℕ
    → Selections
    → MetaState
    → WReq
    → Result (DataBlock × Buffers)
    → MetaState × Result (Unit {0})
unfolding push push_to_merged
enqueue config dip did sels t e (err x) = (t, err x)
enqueue config dip did sels t e (ok (db, b)) =
    if has_flag config Config.metadata_merge
    then (push_to_merged config dip did sels t db b, ok tt)
    else (push t e db b, ok tt)

-- The write of a selection with blocks from a buffer. The first test is
-- `config ^ H5VL_FILEI_CONFIG_METADATA_MERGE`; where it is 0 the data block is not set.
unfoldable pub write_from :
    Option (List ℕ → Option (List ℕ))
    → ℕ
    → ℕ
    → DsetInfo
    → ℕ
    → Selections
    → Call
    → MetaState
    → Option ℕ
    → MetaState × Result (Unit {0})
unfolding entry_for data_of enqueue get_sel_size
write_from zip unlimited config dip did sels c s none = (s, err null_buffer)
write_from zip unlimited config dip did sels c s (some ubuf) =
    if bit_xor config Config.metadata_merge == 0
    then (s, err undefined_behaviour)
    else (let r = make unlimited (has_zlib zip) dip did config s.queue.mdsize sels in
        let (e, table) = entry_for zip config s.queue.mdsize s.wreq_hash r in
        enqueue config dip did sels (record s { wreq_hash = table }) e
          (data_of c dip ubuf (get_sel_size sels) s.queue.buffers))

-- `H5VL_log_dataseti_write`: the state that it leaves, also when it throws.
unfoldable pub dataseti_write :
    Option (List ℕ → Option (List ℕ))
    → ℕ
    → ℕ
    → DsetInfo
    → ℕ
    → Selections
    → Call
    → MetaState
    → MetaState × Result (Unit {0})
unfolding write_from
dataseti_write zip unlimited config dip did sels c s =
    if nsel sels == 0
    then (s, ok tt)
    else write_from zip unlimited config dip did sels c s c.user_buf
