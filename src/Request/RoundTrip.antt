-- ===== src/Request/RoundTrip.antt =====
-- src/H5VL_logi_meta.cpp: lemmas on decoding the coordinates of a write request.
use vol_log_based.Prelude.{ℕ, zero, suc, ◌-◌, ◌*◌, ◌≡◌, refl, ap}
use vol_log_based.Prelude.{List, [], ◌∷◌, ◌++◌, append-nil, map, length, drop, hd, tl}
use vol_log_based.Prelude.{memcpy, All, Option, none, some, Bool, true, false, if◌then◌else◌, arith}
use vol_log_based.Prelude.{extent, add64, length-map, extent-memcpy_all, &&_iff, ==_iff}
use vol_log_based.Selections.{Block}
use vol_log_based.Dataset.{DsetInfo, make_dsteps}
use vol_log_based.Meta.{MetaHdr, MetaSel, MetaEntry, has_flag, sel_encode_flag}
use vol_log_based.Meta.Codec.{put_words, get_words, put_vecs, encode}
use vol_log_based.Prelude.{◌&&◌, ◌||◌, ◌==◌, leb, ok, hd, tl, false, true, sym, ◌∙◌, ◌≤◌, ◌<◌, ◌^◌}
use vol_log_based.Meta.Steps.{InSteps}
use vol_log_based.Meta.Decode.{get_vecs, make_sels, data_size, sels_entry, has_zero, decode_sels}
use vol_log_based.Request.Write.{all_in_record}
use vol_log_based.Request.Fields.{IsVec, is_encoded, SameSteps}
use vol_log_based.Request.Fields.{get_vecs-put_vecs, get_words-put_words, drop-put_words, IsWord}

-- The selections that an entry stands for: its blocks, and where the data of each begins.
abbrev pub sels_of : ℕ → ℕ → List Block → ℕ → List MetaSel
sels_of ndim esize [] doff = []
sels_of ndim esize (b ∷ bs) doff =
    record { start = memcpy ndim b.start; count = memcpy ndim b.count; doff = doff }
    ∷ sels_of ndim esize bs (add64 (extent ndim esize b.count) doff)

-- Starts and counts from dimension `skip` on are written in the form `dsteps` chooses.
abbrev pub AreVecs : Option (List ℕ) → ℕ → ℕ → List Block → Type 0
AreVecs dsteps n skip [] = Unit
AreVecs dsteps n skip (b ∷ bs) =
    IsVec dsteps n (drop skip b.start)
    × IsVec dsteps n (drop skip b.count)
    × AreVecs dsteps n skip bs

starts-AreVecs :
    (dsteps : Option (List ℕ)) (n skip : ℕ) (bs : List Block)
    → AreVecs dsteps n skip bs
    → All (IsVec dsteps n) (map (λ (b : Block). drop skip b.start) bs)
starts-AreVecs dsteps n skip [] h = tt
starts-AreVecs dsteps n skip (b ∷ bs) h = (h.0, starts-AreVecs dsteps n skip bs h.2)

counts-AreVecs :
    (dsteps : Option (List ℕ)) (n skip : ℕ) (bs : List Block)
    → AreVecs dsteps n skip bs
    → All (IsVec dsteps n) (map (λ (b : Block). drop skip b.count) bs)
counts-AreVecs dsteps n skip [] h = tt
counts-AreVecs dsteps n skip (b ∷ bs) h = (h.1, counts-AreVecs dsteps n skip bs h.2)

pub drop-one : (xs : List ℕ) → drop 1 xs ≡ tl xs
drop-one [] = refl
drop-one (x ∷ xs) = refl

in_record_parts :
    (recnum : ℕ) (b : Block) (bs : List Block)
    → all_in_record recnum (b ∷ bs) ≡ true
    → (hd b.count ≡ 1) × (hd b.start ≡ recnum) × (all_in_record recnum bs ≡ true)
unfolding all_in_record
in_record_parts recnum b bs h =
    let (c, k) = (&&_iff _ _).0 h in
    let (s, r) = (&&_iff _ _).0 k in ((==_iff _ _).0 c, (==_iff _ _).0 s, r)

-- The decoded coordinates make up the selections, without a record number and with one.
pub make_sels-plain :
    (ndim esize : ℕ) (bs : List Block) (doff : ℕ)
    → make_sels ndim esize [] []
        (map (memcpy ndim) (map (λ (b : Block). drop 0 b.start) bs))
        (map (memcpy ndim) (map (λ (b : Block). drop 0 b.count) bs))
        doff
      ≡ sels_of ndim esize bs doff
unfolding make_sels
make_sels-plain ndim esize [] doff = refl
make_sels-plain ndim esize (b ∷ bs) doff = rw extent-memcpy_all (
    ap (λ r. record { start = memcpy ndim b.start; count = memcpy ndim b.count; doff = doff } ∷ r)
      (make_sels-plain ndim esize bs _))

pub make_sels-record :
    (n esize recnum : ℕ) (bs : List Block) (doff : ℕ)
    → all_in_record recnum bs ≡ true
    → make_sels
        (suc n)
        esize
        (recnum ∷ [])
        (1 ∷ [])
        (map (memcpy n) (map (λ (b : Block). drop 1 b.start) bs))
        (map (memcpy n) (map (λ (b : Block). drop 1 b.count) bs))
        doff
      ≡ sels_of (suc n) esize bs doff
unfolding make_sels all_in_record
make_sels-record n esize recnum [] doff h = refl
make_sels-record n esize recnum (b ∷ bs) doff h =
    let (one, same, rest) = in_record_parts recnum b bs h in
    rw (extent-memcpy_all, drop-one, drop-one, one, same)
      (ap
        (λ r.
          record {
            start = recnum ∷ memcpy n (tl b.start);
            count = 1 ∷ memcpy n (tl b.count);
            doff = doff;
          }
          ∷ r)
        (make_sels-record n esize recnum bs _ rest))

-- `n` coordinates from dimension `skip` on of every block, in the form that `o` chooses.
abbrev pub vecs_of : Option (List ℕ) → ℕ → ℕ → List Block → List ℕ
vecs_of o n skip bs =
    put_vecs o n (map (λ (b : Block). drop skip b.start) bs)
    ++ put_vecs o n (map (λ (b : Block). drop skip b.count) bs)

-- Both loops of decoding.
starts_and_counts :
    (o : Option (List ℕ)) (ds : List ℕ) (n skip : ℕ) (bs : List Block)
    → SameSteps o n ds
    → AreVecs o n skip bs
    → let starts = get_vecs (is_encoded o) ds n (length bs) (vecs_of o n skip bs) in
      (starts.0 ≡ map (memcpy n) (map (λ (b : Block). drop skip b.start) bs))
      × ((get_vecs (is_encoded o) ds n (length bs) starts.1).0
          ≡ map (memcpy n) (map (λ (b : Block). drop skip b.count) bs))
starts_and_counts o ds n skip bs same h =
    let ss = map (λ (b : Block). drop skip b.start) bs in
    let cs = map (λ (b : Block). drop skip b.count) bs in
    let first =
      rw (length-map (λ (b : Block). drop skip b.start) bs) at
        (get_vecs-put_vecs o ds n ss (put_vecs o n cs) same (starts-AreVecs o n skip bs h)) in
    let second =
      rw (length-map (λ (b : Block). drop skip b.count) bs, append-nil) at
        (get_vecs-put_vecs o ds n cs [] same (counts-AreVecs o n skip bs h)) in
    (ap (λ p. p.0) first, rw first (ap (λ p. p.0) second))

-- What decoding makes of a header and blocks.
abbrev pub entry_of : DsetInfo → MetaHdr → ℕ → List Block → MetaEntry
entry_of dset hdr encdim bs = record {
  hdr = hdr;
  sels = sels_of dset.ndim dset.esize bs 0;
  dsize = data_size encdim dset.esize (sels_of dset.ndim dset.esize bs 0);
}

sels_entry-vecs :
    (dset : DsetInfo) (hdr : MetaHdr) (isrec : Bool) (recnum : ℕ) (o : Option (List ℕ)) (n skip : ℕ)
    (bs : List Block) (zbuf : List ℕ)
    → has_flag hdr.flag sel_encode_flag ≡ is_encoded o
    → (if is_encoded o then drop (8 * (n - 1)) zbuf else zbuf) ≡ vecs_of o n skip bs
    → SameSteps o n (get_words (n - 1) zbuf ++ (1 ∷ []))
    → AreVecs o n skip bs
    → make_sels dset.ndim dset.esize
        (if isrec then recnum ∷ [] else [])
        (if isrec then 1 ∷ [] else [])
        (map (memcpy n) (map (λ (b : Block). drop skip b.start) bs))
        (map (memcpy n) (map (λ (b : Block). drop skip b.count) bs))
        0
      ≡ sels_of dset.ndim dset.esize bs 0
    → sels_entry dset hdr isrec recnum n (length bs) zbuf ≡ entry_of dset hdr n bs
unfolding sels_entry
sels_entry-vecs dset hdr isrec recnum o n skip bs zbuf hf hz same h hm =
    let (first, second) =
      starts_and_counts o (get_words (n - 1) zbuf ++ (1 ∷ [])) n skip bs same h in
    rw (hf, hz, second, first, hm)

has_zero-memcpy : (n : ℕ) (ds : List ℕ) → has_zero n (memcpy n ds) ≡ has_zero n ds
unfolding has_zero
has_zero-memcpy zero ds = refl
has_zero-memcpy (suc n) ds = ap (λ b. (hd ds == 0) || b) (has_zero-memcpy n (tl ds))

-- Steps that are larger than offsets are not 0.
InSteps-has_zero : (n : ℕ) (ds cord : List ℕ) → InSteps n ds cord → has_zero n ds ≡ false
unfolding has_zero
InSteps-has_zero zero ds cord h = refl
InSteps-has_zero (suc n) ds cord (small, h) =
    let first : (hd ds == 0) ≡ false = ground (arith, small) in
    rw first (InSteps-has_zero n (tl ds) (tl cord) h)

steps_ok :
    (o : Option (List ℕ)) (n skip : ℕ) (bs : List Block) (dsteps : List ℕ)
    → 1 ≤ length bs
    → (is_encoded o ≡ true → 1 ≤ n)
    → SameSteps o n dsteps
    → AreVecs o n skip bs
    → is_encoded o && ((n == 0) || has_zero n dsteps) ≡ false
steps_ok none n skip bs dsteps ne many same h = refl
steps_ok (some ds) n skip [] dsteps ne many same h = absurd (omega (arith, ne))
steps_ok (some ds) n skip (b ∷ bs) dsteps ne many same h =
    let some_dim : (n == 0) ≡ false = let m = many refl in ground (arith, m) in
    let zeros =
      sym (has_zero-memcpy n dsteps)
      ∙ ap (has_zero n) same
      ∙ has_zero-memcpy n ds
      ∙ InSteps-has_zero n ds (drop skip b.start) h.0.0 in
    rw (some_dim, zeros) refl

decode_sels-vecs :
    (dset : DsetInfo) (hdr : MetaHdr) (isrec : Bool) (recnum : ℕ) (o : Option (List ℕ)) (n skip : ℕ)
    (bs : List Block) (zbuf : List ℕ)
    → 1 ≤ length bs
    → length bs < 2 ^ 31
    → (is_encoded o ≡ true → 1 ≤ n)
    → has_flag hdr.flag sel_encode_flag ≡ is_encoded o
    → (if is_encoded o then drop (8 * (n - 1)) zbuf else zbuf) ≡ vecs_of o n skip bs
    → SameSteps o n (get_words (n - 1) zbuf ++ (1 ∷ []))
    → AreVecs o n skip bs
    → make_sels dset.ndim dset.esize
        (if isrec then recnum ∷ [] else [])
        (if isrec then 1 ∷ [] else [])
        (map (memcpy n) (map (λ (b : Block). drop skip b.start) bs))
        (map (memcpy n) (map (λ (b : Block). drop skip b.count) bs))
        0
      ≡ sels_of dset.ndim dset.esize bs 0
    → decode_sels dset hdr isrec recnum n (length bs) zbuf ≡ ok (entry_of dset hdr n bs)
unfolding decode_sels
decode_sels-vecs dset hdr isrec recnum o n skip bs zbuf ne fits many hf hz same h hm =
    let low : leb (2 ^ 31) (length bs) ≡ false = ground (arith, fits) in
    let any : (length bs == 0) ≡ false = ground (arith, ne) in
    let steps = steps_ok o n skip bs (get_words (n - 1) zbuf ++ (1 ∷ [])) ne many same h in
    let entry = sels_entry-vecs dset hdr isrec recnum o n skip bs zbuf hf hz same h hm in
    let undivided : has_flag hdr.flag sel_encode_flag
          && ((n == 0) || has_zero n (get_words (n - 1) zbuf ++ (1 ∷ [])))
        ≡ false =
      rw hf steps in
    rw (low, any, undivided, decode_sels) (ap ok entry)

-- The steps of the first dimensions and a last step of 1 are the steps of a dataset.
make_dsteps-split :
    (n : ℕ) (dims : List ℕ)
    → memcpy n (make_dsteps (suc n) dims) ++ (1 ∷ []) ≡ make_dsteps (suc n) dims
unfolding make_dsteps
make_dsteps-split zero dims = refl
make_dsteps-split (suc n) dims =
    ap (λ r. hd (make_dsteps (suc (suc n)) dims) ∷ r) (make_dsteps-split n (tl dims))

make_dsteps-IsWord : (n : ℕ) (dims : List ℕ) → All IsWord (memcpy n (make_dsteps (suc n) dims))
unfolding make_dsteps
make_dsteps-IsWord zero dims = tt
make_dsteps-IsWord (suc n) dims = (omega arith, make_dsteps-IsWord n (tl dims))

-- The bytes of the steps in front of the coordinates, as the constructor writes them.
encoded_bytes :
    (k skip : ℕ) (dims : List ℕ) (bs : List Block)
    → let ds = make_dsteps (suc k) dims in
      let zbuf = put_words (memcpy k ds) ++ vecs_of (some ds) (suc k) skip bs in
      (drop (8 * k) zbuf ≡ vecs_of (some ds) (suc k) skip bs)
      × (memcpy (suc k) (get_words k zbuf ++ (1 ∷ [])) ≡ memcpy (suc k) ds)
encoded_bytes k skip dims bs =
    let ds = make_dsteps (suc k) dims in
    let later = vecs_of (some ds) (suc k) skip bs in
    (
      drop-put_words k ds later,
      rw (get_words-put_words k ds later (make_dsteps-IsWord k dims), make_dsteps-split k dims)
          refl,
    )

-- What the constructor writes behind the record number and the number of blocks.
abbrev pub body_of : Bool → DsetInfo → ℕ → ℕ → List Block → List ℕ
body_of enc dip n skip bs =
    (if enc then put_words (memcpy (n - 1) (drop skip dip.dsteps)) else [])
    ++ encode dip.ndim bs (if enc then some dip.dsteps else none) skip

-- Blocks whose coordinates are written element by element.
pub decode_plain :
    (isrec : Bool) (dset : DsetInfo) (hdr : MetaHdr) (recnum n skip : ℕ) (bs : List Block)
    → 1 ≤ length bs
    → length bs < 2 ^ 31
    → has_flag hdr.flag sel_encode_flag ≡ false
    → dset.ndim - skip ≡ n
    → AreVecs none n skip bs
    → make_sels dset.ndim dset.esize
        (if isrec then recnum ∷ [] else [])
        (if isrec then 1 ∷ [] else [])
        (map (memcpy n) (map (λ (b : Block). drop skip b.start) bs))
        (map (memcpy n) (map (λ (b : Block). drop skip b.count) bs))
        0
      ≡ sels_of dset.ndim dset.esize bs 0
    → decode_sels dset hdr isrec recnum n (length bs) (body_of false dset n skip bs)
      ≡ ok (entry_of dset hdr n bs)
unfolding encode
decode_plain isrec dset hdr recnum n skip bs ne fits hf hn h hm = rw hn (
    decode_sels-vecs dset hdr isrec recnum none n skip bs _ ne fits (λ e. absurd (cc e)) hf refl tt
      h hm)

-- Blocks whose coordinates are written as offsets.
pub decode_encoded :
    (isrec : Bool) (dset : DsetInfo) (hdr : MetaHdr) (recnum k skip : ℕ) (dims : List ℕ)
    (bs : List Block)
    → 1 ≤ length bs
    → length bs < 2 ^ 31
    → has_flag hdr.flag sel_encode_flag ≡ true
    → dset.ndim - skip ≡ suc k
    → drop skip dset.dsteps ≡ make_dsteps (suc k) dims
    → AreVecs (some (make_dsteps (suc k) dims)) (suc k) skip bs
    → make_sels dset.ndim dset.esize
        (if isrec then recnum ∷ [] else [])
        (if isrec then 1 ∷ [] else [])
        (map (memcpy (suc k)) (map (λ (b : Block). drop skip b.start) bs))
        (map (memcpy (suc k)) (map (λ (b : Block). drop skip b.count) bs))
        0
      ≡ sels_of dset.ndim dset.esize bs 0
    → decode_sels dset hdr isrec recnum (suc k) (length bs) (body_of true dset (suc k) skip bs)
      ≡ ok (entry_of dset hdr (suc k) bs)
unfolding encode
decode_encoded isrec dset hdr recnum k skip dims bs ne fits hf hn hs h hm =
    let ds = make_dsteps (suc k) dims in
    let pred : suc k - 1 ≡ k = omega arith in
    let (rest, same) = encoded_bytes k skip dims bs in
    rw (hs, hn, pred)
      (decode_sels-vecs dset hdr isrec recnum (some ds) (suc k) skip bs _ ne fits (λ e. omega arith)
        hf (rw pred rest) (rw pred same) h hm)
