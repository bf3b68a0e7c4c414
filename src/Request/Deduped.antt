-- ===== src/Request/Deduped.antt =====
-- src/H5VL_log_dataseti.cpp: lemmas on the entry that a write queues.
use vol_log_based.Prelude.{Option-cases}
use vol_log_based.Prelude.{
  ℕ, zero, suc, ◌+◌, ◌-◌, ◌*◌, ◌^◌, ◌<◌, ◌≡◌, refl, ap, sym, subst, ◌∙◌, arith,
}
use vol_log_based.Prelude.{List, [], ◌∷◌, length, take, drop, All, inl, inr, ◌⊎◌, ◌++◌, take-append}
use vol_log_based.Prelude.{Option, none, some, Bool, true, false, ◌&&◌, Bool-cases}
use vol_log_based.Prelude.{ltb, ◌==◌, sub64, &&_iff, bit_or}
use vol_log_based.Prelude.Bytes.{get_le, get_le-put_le}
use vol_log_based.Meta.{has_flag, sel_ref, sel_deflate, rec}
use vol_log_based.Meta.Codec.{hdr_size}
use vol_log_based.Request.Write.{WReq, hash, wreq_eq, flag_of, resize}
use vol_log_based.Request.Submit.{
  clear_flag, find, refer, same_record, sel_size, uncompressed, compress, trim,
}

-- The flags are those that the constructor sets.
abbrev pub IsMade : WReq → Type 0
IsMade r = (isrec mul enc deflate : Bool) × (r.hdr.flag ≡ flag_of isrec mul enc deflate)

-- The entry begins with a reference to `t` in place of its selection.
abbrev pub Refers : ℕ → WReq → WReq → Type 0
Refers mdsize t e =
    (has_flag e.hdr.flag sel_ref ≡ true) × (get_le 8 e.sel_buf ≡ sub64 t.meta_off mdsize)

abbrev pub Plain : WReq → Type 0
Plain e = has_flag e.hdr.flag sel_ref ≡ false

-- What stays of a request in its entry.
abbrev pub Kept : WReq → WReq → Type 0
Kept r e = (e.meta_off ≡ r.meta_off) × (e.hdr.did ≡ r.hdr.did)

-- The entry `e` has the record number and the selection of `r` itself: its bytes, or what `zip` makes
-- of them, by the flag of a compressed entry.
abbrev pub Own : Option (List ℕ → Option (List ℕ)) → WReq → WReq → Type 0
Own none r e =
    (e.record_field ≡ r.record_field)
    × (e.hdr.flag ≡ r.hdr.flag)
    × (take (sel_size r) e.sel_buf ≡ take (sel_size r) r.sel_buf)
Own (some zip) r e =
    (e.record_field ≡ r.record_field)
    × (((has_flag e.hdr.flag sel_deflate ≡ false)
          × (take (sel_size r) e.sel_buf ≡ take (sel_size r) r.sel_buf))
        ⊎ ((has_flag e.hdr.flag sel_deflate ≡ true)
            × ((c : List ℕ) × (zip (take (sel_size r) r.sel_buf) ≡ some c)
                × (take (length c) e.sel_buf ≡ c))))

pub made_flags :
    (isrec mul enc deflate : Bool)
    → (let flag = flag_of isrec mul enc deflate in
        let ref = clear_flag (bit_or flag sel_ref) sel_deflate in
        (has_flag flag sel_ref ≡ false)
        × (has_flag (clear_flag flag sel_deflate) sel_ref ≡ false)
        × (has_flag ref sel_ref ≡ true)
        × (has_flag ref sel_deflate ≡ false)
        × (has_flag (clear_flag ref rec) sel_ref ≡ true)
        × (has_flag (clear_flag ref rec) sel_deflate ≡ false))
made_flags true true true true = (refl, refl, refl, refl, refl, refl)
made_flags true true true false = (refl, refl, refl, refl, refl, refl)
made_flags true true false true = (refl, refl, refl, refl, refl, refl)
made_flags true true false false = (refl, refl, refl, refl, refl, refl)
made_flags true false true true = (refl, refl, refl, refl, refl, refl)
made_flags true false true false = (refl, refl, refl, refl, refl, refl)
made_flags true false false true = (refl, refl, refl, refl, refl, refl)
made_flags true false false false = (refl, refl, refl, refl, refl, refl)
made_flags false true true true = (refl, refl, refl, refl, refl, refl)
made_flags false true true false = (refl, refl, refl, refl, refl, refl)
made_flags false true false true = (refl, refl, refl, refl, refl, refl)
made_flags false true false false = (refl, refl, refl, refl, refl, refl)
made_flags false false true true = (refl, refl, refl, refl, refl, refl)
made_flags false false true false = (refl, refl, refl, refl, refl, refl)
made_flags false false false true = (refl, refl, refl, refl, refl, refl)
made_flags false false false false = (refl, refl, refl, refl, refl, refl)

abbrev from_some : WReq → Option WReq → WReq
from_some r none = r
from_some r (some t) = t

pub find_lem {ℓ} :
    (P : WReq → Type ℓ) (r : WReq) (ts : List WReq) {t : WReq}
    → All P ts
    → find r ts ≡ some t
    → P t × (wreq_eq r t ≡ true)
unfolding find
find_lem P r [] h e = ground arith
find_lem P r (u ∷ us) (hu, hs) e = elim (Bool-cases ((hash r == hash u) && wreq_eq r u)) [
  | inl f ↦
      let g : some u ≡ some _ = sym (rw (f, find) refl) ∙ e in
      subst (λ x. P x × (wreq_eq r x ≡ true)) (ap (from_some u) g)
        (hu, ((&&_iff (hash r == hash u) (wreq_eq r u)).0 f).1)
  | inr f ↦ find_lem P r us hs (rw (f, find) at e)
]

-- `refer` and the rest of the path of a request that refers.
pub refer_lem :
    (mdsize : ℕ) (t r : WReq)
    → IsMade r
    → t.meta_off < 2 ^ 64
    → mdsize < 2 ^ 64
    → Refers mdsize t (refer mdsize t r)
      × Kept r (refer mdsize t r)
      × (has_flag (refer mdsize t r).hdr.flag sel_deflate ≡ false)
unfolding refer
refer_lem mdsize t r (b, c, d, f, made) ht hm =
    let (_, _, ref, plain, ref_rec, plain_rec) = made_flags b c d f in
    let off = sub64 t.meta_off mdsize in
    let word = λ (rest : List ℕ). get_le-put_le 8 off rest (omega (arith, ht, hm)) in
    elim (Bool-cases (same_record r t)) [
      | inl e ↦ rw (e, refer, made) ((ref_rec, word r.sel_buf), (refl, refl), plain_rec)
      | inr e ↦ rw (e, refer, made) ((ref, word (drop 8 r.sel_buf)), (refl, refl), plain)
    ]

pub compress_plain :
    (zip : List ℕ → Option (List ℕ)) (r : WReq) (n : ℕ)
    → has_flag r.hdr.flag sel_deflate ≡ false
    → compress zip r n ≡ (r, n)
unfolding compress
compress_plain zip r n e = rw e refl

pub compress_made :
    (zip : List ℕ → Option (List ℕ)) (r : WReq) (n : ℕ)
    → IsMade r
    → Plain (compress zip r n).0 × Kept r (compress zip r n).0
unfolding compress
compress_made zip r n (b, c, d, f, made) =
    let (plain, cleared, _, _, _, _) = made_flags b c d f in
    let fine : has_flag r.hdr.flag sel_ref ≡ false = rw made plain in
    let off : has_flag (clear_flag r.hdr.flag sel_deflate) sel_ref ≡ false = rw made cleared in
    elim (Bool-cases (has_flag r.hdr.flag sel_deflate)) [
      | inr e ↦ rw (e, compress) (fine, (refl, refl))
      | inl e ↦ elim (Option-cases (zip (take n r.sel_buf))) [
        | inl z ↦ rw (e, z, compress) (off, (refl, refl))
        | inr z ↦ elim (Bool-cases (ltb (length z.0) n)) [
          | inl l ↦ rw (e, z.1, l, compress) (fine, (refl, refl))
          | inr l ↦ rw (e, z.1, l, compress) (off, (refl, refl))
        ]
      ]
    ]

pub trim-Kept : (r : WReq) (n : ℕ) → Kept r (trim r n) × ((trim r n).hdr.flag ≡ r.hdr.flag)
unfolding trim
trim-Kept r n = ground arith

pub get_le-take : (n : ℕ) (bs : List ℕ) → get_le n (take n bs) ≡ get_le n bs
unfolding get_le
get_le-take zero bs = refl
get_le-take (suc n) [] = refl
get_le-take (suc n) (b ∷ bs) = ap (λ t. b + 256 * t) (get_le-take n bs)

pub trim_word : (r : WReq) → get_le 8 (trim r 8).sel_buf ≡ get_le 8 r.sel_buf
unfolding trim resize
trim_word r =
    let size = hdr_size + length r.record_field + 8 in
    let left : size - hdr_size - length r.record_field ≡ 8 = omega arith in
    elim (Bool-cases (ltb size r.hdr.meta_size)) [
      | inl e ↦ rw (e, trim, left) (get_le-take 8 r.sel_buf)
      | inr e ↦ rw (e, trim) refl
    ]

made_cleared :
    (isrec mul enc deflate : Bool)
    → has_flag (clear_flag (flag_of isrec mul enc deflate) sel_deflate) sel_deflate ≡ false
made_cleared true true true true = refl
made_cleared true true true false = refl
made_cleared true true false true = refl
made_cleared true true false false = refl
made_cleared true false true true = refl
made_cleared true false true false = refl
made_cleared true false false true = refl
made_cleared true false false false = refl
made_cleared false true true true = refl
made_cleared false true true false = refl
made_cleared false true false true = refl
made_cleared false true false false = refl
made_cleared false false true true = refl
made_cleared false false true false = refl
made_cleared false false false true = refl
made_cleared false false false false = refl

take_twice : (n : ℕ) (xs : List ℕ) → take n (take n xs) ≡ take n xs
take_twice zero xs = refl
take_twice (suc n) [] = refl
take_twice (suc n) (x ∷ xs) = ap (λ r. x ∷ r) (take_twice n xs)

-- A trim to `n` bytes keeps these, and the fields around them.
trim-take :
    (r : WReq) (n : ℕ)
    → (take n (trim r n).sel_buf ≡ take n r.sel_buf) × ((trim r n).record_field ≡ r.record_field)
unfolding trim resize
trim-take r n =
    let size = hdr_size + length r.record_field + n in
    let left : size - hdr_size - length r.record_field ≡ n = omega arith in
    elim (Bool-cases (ltb size r.hdr.meta_size)) [
      | inl e ↦ rw (e, trim, left) (take_twice n r.sel_buf, refl)
      | inr e ↦ rw (e, trim) (refl, refl)
    ]

pub trim-Own_plain : (r : WReq) → Own none r (trim r (sel_size r))
trim-Own_plain r =
    let (bytes, field) = trim-take r (sel_size r) in (field, (trim-Kept r (sel_size r)).1, bytes)

trim_cleared :
    (zip : List ℕ → Option (List ℕ)) (r d : WReq)
    → d.sel_buf ≡ r.sel_buf
    → d.record_field ≡ r.record_field
    → has_flag d.hdr.flag sel_deflate ≡ false
    → Own (some zip) r (trim d (sel_size r))
trim_cleared zip r d same field clear =
    let (bytes, field') = trim-take d (sel_size r) in
    (
      field' ∙ field,
      inl (rw (trim-Kept d (sel_size r)).1 clear, bytes ∙ ap (take (sel_size r)) same),
    )

-- A request that is not deduplicated, behind its compression.
pub compress-Own :
    (zip : List ℕ → Option (List ℕ)) (r : WReq)
    → IsMade r
    → let p = compress zip r (sel_size r) in Own (some zip) r (trim p.0 p.1)
unfolding compress
compress-Own zip r (b, c, d, f, made) =
    let n = sel_size r in
    let off : has_flag (clear_flag r.hdr.flag sel_deflate) sel_deflate ≡ false =
      rw made (made_cleared b c d f) in
    let is = λ (p : WReq × ℕ). Own (some zip) r (trim p.0 p.1) in
    elim (Bool-cases (has_flag r.hdr.flag sel_deflate)) [
      | inr e ↦ subst is (sym (compress_plain zip r n e)) (trim_cleared zip r r refl refl e)
      | inl e ↦ elim (Option-cases (zip (take n r.sel_buf))) [
        | inl z ↦
            let same : compress zip r n ≡ (uncompressed r, n) = rw (e, z, compress) refl in
            subst is (sym same) (trim_cleared zip r (uncompressed r) refl refl off)
        | inr z ↦ elim (Bool-cases (ltb (length z.0) n)) [
          | inr l ↦
              let same : compress zip r n ≡ (uncompressed r, n) = rw (e, z.1, l, compress) refl in
              subst is (sym same) (trim_cleared zip r (uncompressed r) refl refl off)
          | inl l ↦
              let q = record r { sel_buf = z.0 ++ drop (length z.0) r.sel_buf } in
              let same : compress zip r n ≡ (q, length z.0) = rw (e, z.1, l, compress) refl in
              let (bytes, field) = trim-take q (length z.0) in
              subst is (sym same) (
                field,
                inr (
                  rw (trim-Kept q (length z.0)).1 e,
                  (z.0, z.1, bytes ∙ take-append z.0 (drop (length z.0) r.sel_buf)),
                ),
              )
        ]
      ]
    ]
