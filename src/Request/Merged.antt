-- ===== src/Request/Merged.antt =====
-- src/H5VL_logi_nb.cpp: the merged request of a dataset, `init`, `reserve` and `append`.
use vol_log_based.Prelude.{ℕ, zero, suc, ◌+◌, ◌-◌, ◌*◌, ◌^◌}
use vol_log_based.Prelude.{List, [], ◌∷◌, ◌++◌, length, drop, memcpy}
use vol_log_based.Prelude.{Option, none, some, Bool, if◌then◌else◌, ltb, ◌&&◌, bit_or}
use vol_log_based.Prelude.{to_int, add64}
use vol_log_based.Prelude.Bytes.{put_le}
use vol_log_based.Selections.{Block}
use vol_log_based.Dataset.{DsetInfo}
use vol_log_based.Config
use vol_log_based.Meta.{MetaHdr, has_flag, mul_sel, sel_encode_flag, sel_deflate}
use vol_log_based.Meta.Codec.{hdr_size, put_words, encode}
use vol_log_based.Request.Write.{DataBlock}

-- `H5VL_log_merged_wreq_t`. `sel_buf` holds the bytes from `sel_buf` to `mbufp`; `mbufp` and
-- `mbufe` are offsets from `meta_buf`.
pub record Merged : Type 0 where
  pub hdr : MetaHdr
  pub nsel : ℕ
  pub sel_buf : List ℕ
  pub meta_size_alloc : ℕ
  pub mbufp : ℕ
  pub mbufe : ℕ
  pub dbufs : List DataBlock

-- `H5VL_LOGI_MERGED_REQ_SEL_RESERVE`.
abbrev pub sel_reserve : ℕ
sel_reserve = 32

-- The flags of a merged entry, whether it is to be encoded and compressed.
abbrev pub merged_flag : Bool → Bool → ℕ
merged_flag enc deflate =
    bit_or (bit_or mul_sel (if enc then sel_encode_flag else 0))
      (if deflate then sel_deflate else 0)

-- The bytes that `init` allocates.
abbrev pub init_alloc : Bool → ℕ → ℕ → ℕ
init_alloc enc ndim nsel =
    hdr_size + 4 + (if enc then 8 * (2 * nsel + ndim) else 8 * (ndim * 2 * nsel))

-- `init (fp, id, nsel)`. The steps are packed if the configuration's bit is set in the flags. The
-- number of blocks is not yet written; it stands as 0.
unfoldable pub init : ℕ → DsetInfo → ℕ → ℕ → Merged
unfolding put_words
init config dip id nsel =
    let n = if ltb nsel sel_reserve then sel_reserve else nsel in
    let enc = ltb 1 dip.ndim && has_flag config Config.sel_encode in
    let flag = merged_flag enc (has_flag config Config.sel_deflate) in
    let alloc = init_alloc enc dip.ndim n in
    let steps =
      if has_flag flag Config.sel_encode
      then put_words (memcpy (dip.ndim - 1) dip.dsteps)
      else [] in
    record {
      hdr = record {
        meta_size = hdr_size + 4 + length steps;
        did = id;
        flag = flag;
        foff = 0;
        fsize = 0;
      };
      nsel = 0;
      sel_buf = put_le 4 0 ++ steps;
      meta_size_alloc = alloc;
      mbufp = hdr_size + 4 + length steps;
      mbufe = alloc;
      dbufs = [];
    }

-- The loop of `reserve`, which shifts the size by `H5VL_LOGI_MERGED_REQ_SEL_MUL`, that is 3. The
-- first argument is fuel.
unfoldable pub grow : ℕ → ℕ → ℕ → ℕ
grow zero alloc need = alloc
grow (suc fuel) alloc need =
    let more = grow fuel (alloc * 2 ^ 3) need in if ltb alloc need then more else alloc

-- `reserve (size)`.
unfoldable pub reserve : ℕ → Merged → Merged
unfolding grow
reserve size m =
    if ltb m.mbufe (m.mbufp + size)
    then (let alloc = grow (m.hdr.meta_size + size) m.meta_size_alloc (m.hdr.meta_size + size) in
        record m { meta_size_alloc = alloc; mbufp = m.hdr.meta_size; mbufe = alloc })
    else m

-- What `append` packs for a selection.
unfoldable pub packed : DsetInfo → Bool → List Block → List ℕ
unfolding encode
packed dip enc blocks = encode dip.ndim blocks (if enc then some dip.dsteps else none) 0

-- The part of `append` behind the test of the flags.
unfoldable pub append_with : Bool → DsetInfo → DataBlock → List Block → Merged → Merged
unfolding reserve packed
append_with enc dip db blocks m =
    let msize = if enc then length blocks * 2 * 8 else length blocks * 2 * 8 * dip.ndim in
    let r = reserve msize m in
    let nsel = to_int (r.nsel + length blocks) in
    record r {
      hdr = record (r.hdr) {
        meta_size = to_int (r.mbufp + msize);
        fsize = add64 r.hdr.fsize db.size;
      };
      nsel = nsel;
      sel_buf = put_le 4 nsel ++ (drop 4 r.sel_buf ++ packed dip enc blocks);
      mbufp = r.mbufp + msize;
      dbufs = r.dbufs ++ (db ∷ []);
    }

-- `append (dp, db, sels)` on a request that is there already.
unfoldable pub append : DsetInfo → DataBlock → List Block → Merged → Merged
unfolding append_with
append dip db blocks m = append_with (has_flag m.hdr.flag Config.sel_encode) dip db blocks m

-- The queue of a dataset: the first append makes the request.
unfoldable pub append_to : ℕ → DsetInfo → ℕ → DataBlock → List Block → Option Merged → Merged
unfolding init append
append_to config dip id db blocks none = append dip db blocks (init config dip id 1)
append_to config dip id db blocks (some m) = append dip db blocks m

unfoldable pub append_all : DsetInfo → List (DataBlock × List Block) → Merged → Merged
unfolding append
append_all dip [] m = m
append_all dip ((db, blocks) ∷ ws) m = append_all dip ws (append dip db blocks m)
