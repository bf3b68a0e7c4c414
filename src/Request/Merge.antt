-- ===== src/Request/Merge.antt =====
-- src/H5VL_logi_nb.cpp: the bytes of a merged request after any number of appends.
use vol_log_based.Prelude.{ℕ, zero, suc, ◌+◌, ◌*◌, ◌^◌, ◌≤◌, ◌<◌, ◌≡◌, refl, ap, ◌∙◌, sym}
use vol_log_based.Prelude.{
  List, [], ◌∷◌, ◌++◌, append_assoc, append-nil, length, drop, length-append,
}
use vol_log_based.Prelude.{none, Bool, true, false, ltb}
use vol_log_based.Prelude.{Bool-cases, inl, inr, arith, to_int, ◌&&◌}
use vol_log_based.Prelude.Bytes.{put_le, length-put_le, drop-put_le}
use vol_log_based.Selections.{Block}
use vol_log_based.Dataset.{DsetInfo}
use vol_log_based.Config
use vol_log_based.Meta.{has_flag}
use vol_log_based.Meta.Codec.{hdr_size, encode}
use vol_log_based.Request.Write.{DataBlock}
use vol_log_based.Request.Size.{length-encode}
use vol_log_based.Request.Merged.{
  Merged, grow, reserve, append, append_with, append_all, packed, init, merged_flag,
}

-- The loop of `reserve` ends with enough bytes.
pub grow-enough :
    (fuel alloc need : ℕ) → 1 ≤ alloc → need ≤ alloc + fuel → need ≤ grow fuel alloc need
unfolding grow
grow-enough zero alloc need h k = omega arith
grow-enough (suc fuel) alloc need h k = elim (Bool-cases (ltb alloc need)) [
  | inl e ↦ rw (e, grow) (grow-enough fuel (alloc * 2 ^ 3) need (omega arith) (omega arith))
  | inr e ↦ rw (e, grow) (ground (arith, e))
]

-- The number of blocks, the bytes of the coordinates, the coordinates and the data bytes that a
-- list of appends adds.
abbrev pub Write : Type 0
Write = DataBlock × List Block

abbrev pub blocks_in : List Write → ℕ
blocks_in [] = 0
blocks_in ((db, bs) ∷ ws) = length bs + blocks_in ws

abbrev pub bytes_in : DsetInfo → List Write → ℕ
bytes_in dip [] = 0
bytes_in dip ((db, bs) ∷ ws) = length bs * 2 * 8 * dip.ndim + bytes_in dip ws

abbrev pub data_in : List Write → ℕ
data_in [] = 0
data_in ((db, bs) ∷ ws) = db.size + data_in ws

abbrev pub coordinates : DsetInfo → List Write → List ℕ
coordinates dip [] = []
coordinates dip ((db, bs) ∷ ws) = encode dip.ndim bs none 0 ++ coordinates dip ws

-- A merged request with `n` blocks, whose coordinates are `c`, and `f` bytes of data.
pub record IsMerged (n : ℕ) (c : List ℕ) (f : ℕ) (m : Merged) : Type 0 where
  pub plain : has_flag m.hdr.flag Config.sel_encode ≡ false
  pub size : m.hdr.meta_size ≡ m.mbufp
  pub filled : m.mbufp ≡ hdr_size + 4 + length c
  pub room : m.mbufp ≤ m.mbufe
  pub alloc : m.mbufe ≡ m.meta_size_alloc
  pub counted : m.nsel ≡ n
  pub content : m.sel_buf ≡ put_le 4 n ++ c
  pub written : m.hdr.fsize ≡ f

-- `reserve` makes room and changes nothing else.
abbrev Reserved : ℕ → Merged → Merged → Type 0
Reserved size m r =
    (r.hdr ≡ m.hdr)
    × (r.nsel ≡ m.nsel)
    × (r.sel_buf ≡ m.sel_buf)
    × (r.mbufp ≡ m.mbufp)
    × (m.mbufp + size ≤ r.mbufe)
    × (r.mbufe ≡ r.meta_size_alloc)

reserve-Reserved :
    (n : ℕ) (c : List ℕ) (f size : ℕ) (m : Merged)
    → IsMerged n c f m
    → Reserved size m (reserve size m)
unfolding reserve
reserve-Reserved n c f size m v = elim (Bool-cases (ltb m.mbufe (m.mbufp + size))) [
  | inl e ↦
      rw (e, reserve)
        (
          refl,
          refl,
          refl,
          v.size,
          omega (
            arith,
            v.size,
            v.filled,
            v.room,
            v.alloc,
            grow-enough (m.hdr.meta_size + size) m.meta_size_alloc (m.hdr.meta_size + size)
                (omega (arith, v.filled, v.room, v.alloc)) (omega arith),
          ),
          refl,
        )
  | inr e ↦ rw (e, reserve) (refl, refl, refl, refl, ground (arith, e), v.alloc)
]

length-packed :
    (dip : DsetInfo) (bs : List Block)
    → length (encode dip.ndim bs none 0) ≡ length bs * 2 * 8 * dip.ndim
length-packed dip bs = grind (arith, length-encode dip.ndim bs none 0)

-- The bytes behind the number of blocks, with those of one more selection behind them.
content_step :
    (k : ℕ) (old c more : List ℕ) (n : ℕ)
    → old ≡ put_le 4 n ++ c
    → put_le 4 k ++ (drop 4 old ++ more) ≡ put_le 4 k ++ (c ++ more)
content_step k old c more n e = rw (e, drop-put_le 4 n c)

append_with-IsMerged :
    (dip : DsetInfo) (db : DataBlock) (bs : List Block) (n : ℕ) (c : List ℕ) (f : ℕ) (m : Merged)
    → IsMerged n c f m
    → n + length bs < 2 ^ 31
    → hdr_size + 4 + length c + length bs * 2 * 8 * dip.ndim < 2 ^ 31
    → f + db.size < 2 ^ 64
    → IsMerged
        (n + length bs)
        (c ++ encode dip.ndim bs none 0)
        (f + db.size)
        (append_with false dip db bs m)
unfolding append_with packed
append_with-IsMerged dip db bs n c f m v hn hc hf =
    let more = encode dip.ndim bs none 0 in
    let msize = length bs * 2 * 8 * dip.ndim in
    let r = reserve msize m in
    let (eh, en, es, ep, er, ea) = reserve-Reserved n c f msize m v in
    let fp = v.filled in
    let fn = v.counted in
    let count : to_int (r.nsel + length bs) ≡ n + length bs = omega arith in
    let old : r.sel_buf ≡ put_le 4 n ++ c = es ∙ v.content in
    let before : r.hdr.fsize ≡ f = ap (λ h. h.fsize) eh ∙ v.written in
    record {
      plain = ap (λ h. has_flag h.flag Config.sel_encode) eh ∙ v.plain;
      size = omega arith;
      filled = omega (arith, length-append c more, length-packed dip bs);
      room = omega arith;
      alloc = ea;
      counted = count;
      content = rw count (content_step (n + length bs) r.sel_buf c more n old);
      written = omega arith;
    }

append-IsMerged :
    (dip : DsetInfo) (db : DataBlock) (bs : List Block) (n : ℕ) (c : List ℕ) (f : ℕ) (m : Merged)
    → IsMerged n c f m
    → n + length bs < 2 ^ 31
    → hdr_size + 4 + length c + length bs * 2 * 8 * dip.ndim < 2 ^ 31
    → f + db.size < 2 ^ 64
    → IsMerged (n + length bs) (c ++ encode dip.ndim bs none 0) (f + db.size) (append dip db bs m)
unfolding append
append-IsMerged dip db bs n c f m v hn hc hf =
    rw (v.plain) (append_with-IsMerged dip db bs n c f m v hn hc hf)

merged_plain : (e d : Bool) → has_flag (merged_flag e d) Config.sel_encode ≡ false
merged_plain true true = refl
merged_plain true false = refl
merged_plain false true = refl
merged_plain false false = refl

append_all-IsMerged :
    (dip : DsetInfo) (ws : List Write) (n : ℕ) (c : List ℕ) (f : ℕ) (m : Merged)
    → IsMerged n c f m
    → n + blocks_in ws < 2 ^ 31
    → hdr_size + 4 + length c + bytes_in dip ws < 2 ^ 31
    → f + data_in ws < 2 ^ 64
    → IsMerged (n + blocks_in ws) (c ++ coordinates dip ws) (f + data_in ws) (append_all dip ws m)
unfolding append_all
append_all-IsMerged dip [] n c f m v hn hc hf =
    let en : n + 0 ≡ n = omega arith in
    let ef : f + 0 ≡ f = omega arith in rw (en, ef, append-nil) v
append_all-IsMerged dip ((db, bs) ∷ ws) n c f m v hn hc hf =
    let more = encode dip.ndim bs none 0 in
    let en : n + (length bs + blocks_in ws) ≡ n + length bs + blocks_in ws = omega arith in
    let ef : f + (db.size + data_in ws) ≡ f + db.size + data_in ws = omega arith in
    let v' = append-IsMerged dip db bs n c f m v (omega arith) (omega arith) (omega arith) in
    rw (en, ef, sym (append_assoc c more (coordinates dip ws)))
      (append_all-IsMerged dip ws (n + length bs) (c ++ more) (f + db.size) (append dip db bs m) v'
        (omega arith) (omega (arith, length-append c more, length-packed dip bs)) (omega arith))

init-IsMerged : (config : ℕ) (dip : DsetInfo) (id k : ℕ) → IsMerged 0 [] 0 (init config dip id k)
unfolding init
init-IsMerged config dip id k =
    let e = ltb 1 dip.ndim && has_flag config Config.sel_encode in
    let d = has_flag config Config.sel_deflate in
    rw (merged_plain e d) record {
      plain = merged_plain e d;
      size = refl;
      filled = refl;
      room = omega arith;
      alloc = refl;
      counted = refl;
      content = refl;
      written = refl;
    }

-- After any number of appends to a new merged request, the buffer holds, behind the header, the
-- number of all blocks and then the starts and counts of each append in turn, element by
-- element; the size in the header is that of these bytes, they do not run over the allocated
-- buffer, and the header's data size is the sum of the appended sizes. The number of blocks and
-- the size stay below 2 ^ 31 and the data below 2 ^ 64 bytes.
pub append_all-init :
    (config : ℕ) (dip : DsetInfo) (id k : ℕ) (ws : List Write)
    → blocks_in ws < 2 ^ 31
    → hdr_size + 4 + bytes_in dip ws < 2 ^ 31
    → data_in ws < 2 ^ 64
    → let m = append_all dip ws (init config dip id k) in
      (m.sel_buf ≡ put_le 4 (blocks_in ws) ++ coordinates dip ws)
      × (m.hdr.meta_size ≡ hdr_size + length m.sel_buf)
      × (m.hdr.meta_size ≤ m.meta_size_alloc)
      × (m.hdr.fsize ≡ data_in ws)
append_all-init config dip id k ws hn hc hf =
    let m = append_all dip ws (init config dip id k) in
    let v =
      append_all-IsMerged dip ws 0 [] 0 (init config dip id k) (init-IsMerged config dip id k)
        (omega arith) (omega arith) (omega arith) in
    let n : 0 + blocks_in ws ≡ blocks_in ws = omega arith in
    let bytes : m.sel_buf ≡ put_le 4 (blocks_in ws) ++ coordinates dip ws = rw n at v.content in
    (
      bytes,
      rw bytes (
          omega (
            arith,
            v.size,
            v.filled,
            length-put_le 4 (blocks_in ws),
            length-append (put_le 4 (blocks_in ws)) (coordinates dip ws),
          )),
      omega (arith, v.size, v.room, v.alloc),
      omega (arith, v.written),
    )
