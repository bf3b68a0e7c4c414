-- ===== src/Request/Decoded.antt =====
-- src/H5VL_logi_meta.cpp: lemmas on decoding the fields of a write request.
use vol_log_based.Prelude.{ℕ, suc, ◌-◌, ◌^◌, ◌≤◌, ◌<◌, ◌≡◌, refl, ap, ◌∙◌, sym}
use vol_log_based.Prelude.{List, [], ◌∷◌, ◌++◌, length, drop, tl, memcpy, All, arith}
use vol_log_based.Prelude.{Option, none, some, Bool, true, false, if◌then◌else◌, ok}
use vol_log_based.Prelude.Bytes.{put_le, get_le, get_le-put_le, drop-put_le}
use vol_log_based.Selections.{Block}
use vol_log_based.Dataset.{DsetInfo, make_dsteps}
use vol_log_based.Meta.{MetaHdr, has_flag, rec, mul_sel, sel_encode_flag, sel_deflate}
use vol_log_based.Meta.Decode.{decode_sels, decode_body, not_positive}
use vol_log_based.Meta.Steps.{Below, product, make_dsteps-InSteps, offset-lt-product}
use vol_log_based.Meta.Steps.{tl-make_dsteps, product-tl}
use vol_log_based.Request.Write.{all_in_record, first_record}
use vol_log_based.Request.Write.{flag_of}
use vol_log_based.Request.Fields.{IsWord}
use vol_log_based.Request.RoundTrip.{AreVecs, entry_of, body_of, decode_plain, decode_encoded}
use vol_log_based.Request.RoundTrip.{make_sels-plain, make_sels-record, drop-one}

-- The fields between the header and the coordinates.
abbrev pub fields_of : Bool → Bool → ℕ → ℕ → List ℕ → List ℕ
fields_of isrec mul recnum n body =
    (if isrec then put_le 8 recnum else []) ++ ((if mul then put_le 4 n else []) ++ body)

-- The number of blocks, where it is not written it is 1.
abbrev pub NumberOk : Bool → ℕ → Type 0
NumberOk true n = n < 2 ^ 31
NumberOk false n = n ≡ 1

pub decode_fields :
    (zlib : Option (List ℕ → ℕ → List ℕ)) (dset : DsetInfo) (hdr : MetaHdr) (isrec mul : Bool)
    (recnum n : ℕ) (body : List ℕ)
    → not_positive hdr.meta_size ≡ false
    → has_flag hdr.flag rec ≡ isrec
    → has_flag hdr.flag mul_sel ≡ mul
    → has_flag hdr.flag sel_deflate ≡ false
    → recnum < 2 ^ 64
    → NumberOk mul n
    → (k : ℕ) × (decode_body zlib dset hdr (fields_of isrec mul recnum n body)
        ≡ decode_sels dset hdr isrec k (if isrec then dset.ndim - 1 else dset.ndim) n body)
      × ((if isrec then recnum else k) ≡ k)
unfolding decode_body
decode_fields zlib dset hdr true true recnum n body pos hr hm hd' rw64 hn = (
  recnum,
  rw (
    hr,
    hm,
    hd',
    pos,
    get_le-put_le 8 recnum (put_le 4 n ++ body) rw64,
    drop-put_le 8 recnum (put_le 4 n ++ body),
    get_le-put_le 4 n body (omega arith),
    drop-put_le 4 n body,
  ),
  refl,
)
decode_fields zlib dset hdr true false recnum n body pos hr hm hd' rw64 hn = (
  recnum,
  rw (hr, hm, pos, get_le-put_le 8 recnum body rw64, drop-put_le 8 recnum body, hn),
  refl,
)
decode_fields zlib dset hdr false true recnum n body pos hr hm hd' rw64 hn = (
  get_le 8 (put_le 4 n ++ body),
  rw (hr, hm, hd', pos, get_le-put_le 4 n body (omega arith), drop-put_le 4 n body),
  refl,
)
decode_fields zlib dset hdr false false recnum n body pos hr hm hd' rw64 hn =
    (get_le 8 body, rw (hr, hm, pos, hn), refl)

-- Each flag is read back from the header's flags, which fit in an `int`.
pub flag_facts :
    (r m e : Bool)
    → (has_flag (flag_of r m e false) rec ≡ r)
      × (has_flag (flag_of r m e false) mul_sel ≡ m)
      × (has_flag (flag_of r m e false) sel_encode_flag ≡ e)
      × (has_flag (flag_of r m e false) sel_deflate ≡ false)
      × (flag_of r m e false < 2 ^ 32)
flag_facts true true true = (refl, refl, refl, refl, omega arith)
flag_facts true true false = (refl, refl, refl, refl, omega arith)
flag_facts true false true = (refl, refl, refl, refl, omega arith)
flag_facts true false false = (refl, refl, refl, refl, omega arith)
flag_facts false true true = (refl, refl, refl, refl, omega arith)
flag_facts false true false = (refl, refl, refl, refl, omega arith)
flag_facts false false true = (refl, refl, refl, refl, omega arith)
flag_facts false false false = (refl, refl, refl, refl, omega arith)

-- What a write with the record flag satisfies.
abbrev pub RecordOk : Bool → DsetInfo → List Block → Type 0
RecordOk true dip bs = (1 ≤ dip.ndim) × (all_in_record (first_record bs) bs ≡ true)
RecordOk false dip bs = Unit

-- Every coordinate is an `hsize_t`.
abbrev pub AreWords : ℕ → List Block → Type 0
AreWords ndim [] = Unit
AreWords ndim (b ∷ bs) =
    All IsWord (memcpy ndim b.start) × All IsWord (memcpy ndim b.count) × AreWords ndim bs

-- Every start and every size lies below the dataset's dimensions.
abbrev pub AreBelow : ℕ → List ℕ → List Block → Type 0
AreBelow ndim dims [] = Unit
AreBelow ndim dims (b ∷ bs) =
    Below ndim dims b.start × Below ndim dims b.count × AreBelow ndim dims bs

-- What an encoded write satisfies.
abbrev pub EncodeOk : Bool → DsetInfo → List Block → Type 0
EncodeOk true dip bs =
    (dip.dsteps ≡ make_dsteps dip.ndim dip.dims)
    × (product dip.ndim dip.dims < 2 ^ 64)
    × AreBelow dip.ndim dip.dims bs
EncodeOk false dip bs = Unit

pub plain_vecs : (n : ℕ) (bs : List Block) → AreWords n bs → AreVecs none n 0 bs
plain_vecs n [] h = tt
plain_vecs n (b ∷ bs) (hs, hc, h) = (hs, hc, plain_vecs n bs h)

plain_vecs_tl : (n : ℕ) (bs : List Block) → AreWords (suc n) bs → AreVecs none n 1 bs
plain_vecs_tl n [] h = tt
plain_vecs_tl n (b ∷ bs) (hs, hc, h) =
    rw (drop-one b.start, drop-one b.count) (hs.1, hc.1, plain_vecs_tl n bs h)

encoded_vecs :
    (n : ℕ) (dims : List ℕ) (bs : List Block)
    → product n dims < 2 ^ 64
    → AreBelow n dims bs
    → AreVecs (some (make_dsteps n dims)) n 0 bs
encoded_vecs n dims [] fits h = tt
encoded_vecs n dims (b ∷ bs) fits (hs, hc, h) = (
  (
    make_dsteps-InSteps n dims b.start hs fits,
    omega (arith, offset-lt-product n dims b.start hs fits),
  ),
  (
    make_dsteps-InSteps n dims b.count hc fits,
    omega (arith, offset-lt-product n dims b.count hc fits),
  ),
  encoded_vecs n dims bs fits h,
)

below_tl :
    (n : ℕ) (dims : List ℕ) (b : Block) (bs : List Block)
    → AreBelow (suc n) dims (b ∷ bs)
    → product (suc n) dims < 2 ^ 64
    → product n (tl dims) < 2 ^ 64
below_tl n dims b bs h fits = product-tl n dims (b.start) h.0 fits

encoded_vecs_tl :
    (n : ℕ) (dims : List ℕ) (bs : List Block)
    → product (suc n) dims < 2 ^ 64
    → AreBelow (suc n) dims bs
    → AreVecs (some (make_dsteps n (tl dims))) n 1 bs
encoded_vecs_tl n dims [] fits h = tt
encoded_vecs_tl n dims (b ∷ bs) fits h =
    let fits' = below_tl n dims b bs h fits in
    rw (drop-one b.start, drop-one b.count)
      (
        (
          make_dsteps-InSteps n (tl dims) (tl b.start) h.0.1 fits',
          omega (arith, offset-lt-product n (tl dims) (tl b.start) h.0.1 fits'),
        ),
        (
          make_dsteps-InSteps n (tl dims) (tl b.count) h.1.1 fits',
          omega (arith, offset-lt-product n (tl dims) (tl b.count) h.1.1 fits'),
        ),
        encoded_vecs_tl n dims bs fits h.2,
      )

-- The coordinates behind the fields, for each combination of the record and the encoding flag.
pub decode_coordinates :
    (isrec enc : Bool) (dip : DsetInfo) (hdr : MetaHdr) (k : ℕ) (bs : List Block)
    → has_flag hdr.flag sel_encode_flag ≡ enc
    → ((if isrec then first_record bs else k) ≡ k)
    → 1 ≤ length bs
    → length bs < 2 ^ 31
    → (enc ≡ true → 1 ≤ (if isrec then dip.ndim - 1 else dip.ndim))
    → RecordOk isrec dip bs
    → AreWords dip.ndim bs
    → EncodeOk enc dip bs
    → decode_sels dip hdr isrec k
        (if isrec then dip.ndim - 1 else dip.ndim)
        (length bs)
        (body_of enc dip (if isrec then dip.ndim - 1 else dip.ndim) (if isrec then 1 else 0) bs)
      ≡ ok (entry_of dip hdr (if isrec then dip.ndim - 1 else dip.ndim) bs)
decode_coordinates false false dip hdr k bs hf hk ne small many hr hw he =
    decode_plain false dip hdr k dip.ndim 0 bs ne small hf (omega arith) (plain_vecs dip.ndim bs hw)
      (make_sels-plain dip.ndim dip.esize bs 0)
decode_coordinates true false dip hdr k bs hf hk ne small many (pos, hr) hw he =
    let one : dip.ndim ≡ suc (dip.ndim - 1) = omega arith in
    decode_plain true dip hdr k (dip.ndim - 1) 1 bs ne small hf refl
      (plain_vecs_tl (dip.ndim - 1) bs (rw one at hw))
      (rw (sym one) at (make_sels-record (dip.ndim - 1) dip.esize k bs 0 (rw hk at hr)))
decode_coordinates false true dip hdr k bs hf hk ne small many hr hw (steps, fits, below) =
    let m = many refl in
    let one : dip.ndim ≡ suc (dip.ndim - 1) = omega arith in
    rw (sym one) at (
      decode_encoded false dip hdr k (dip.ndim - 1) 0 dip.dims bs ne small hf (omega arith)
        (rw one at steps)
        (encoded_vecs (suc (dip.ndim - 1)) dip.dims bs (rw one at fits) (rw one at below))
        (rw (sym one) (make_sels-plain dip.ndim dip.esize bs 0)))
decode_coordinates true true dip hdr k bs hf hk ne small many (pos, hr) hw (steps, fits, below) =
    let m = many refl in
    let one : dip.ndim - 1 ≡ suc (dip.ndim - 2) = omega arith in
    let two : dip.ndim ≡ suc (suc (dip.ndim - 2)) = omega arith in
    let whole : dip.ndim ≡ suc (dip.ndim - 1) = omega arith in
    let tails : drop 1 dip.dsteps ≡ make_dsteps (suc (dip.ndim - 2)) (tl dip.dims) =
      drop-one dip.dsteps ∙ (ap tl (rw two at steps) ∙ tl-make_dsteps _ dip.dims) in
    rw (sym one) at (
      decode_encoded true dip hdr k (dip.ndim - 2) 1 (tl dip.dims) bs ne small hf one tails
        (encoded_vecs_tl (suc (dip.ndim - 2)) dip.dims bs (rw two at fits) (rw two at below))
        (rw (sym one)
          (rw (sym whole) at (make_sels-record (dip.ndim - 1) dip.esize k bs 0 (rw hk at hr)))))
