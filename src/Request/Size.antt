-- ===== src/Request/Size.antt =====
-- src/H5VL_logi_nb.cpp: lemmas on the number of bytes of a write request.
use vol_log_based.Prelude.{ℕ, ◌+◌, ◌-◌, ◌*◌, ◌≡◌, refl, ap, ◌∙◌, arith, map}
use vol_log_based.Prelude.{List, [], ◌∷◌, Option, none, some, Bool, true, false, if◌then◌else◌}
use vol_log_based.Prelude.{length, length-append, length-map, length-memcpy, memcpy, drop}
use vol_log_based.Prelude.Bytes.{put_le, length-put_le}
use vol_log_based.Selections.{Block}
use vol_log_based.Dataset.{DsetInfo}
use vol_log_based.Meta.{MetaHdr}
use vol_log_based.Meta.Codec.{put_hdr, put_words, put_vec, put_vecs, encode, sel_encode, hdr_size}
use vol_log_based.Request.Write.{meta_buf, make_with, encode_sels, entry_size}
use vol_log_based.Request.Write.{first_record}

pub length-put_hdr : (h : MetaHdr) → length (put_hdr h) ≡ hdr_size
unfolding put_hdr put_le
length-put_hdr h = refl

pub length-put_words : (ws : List ℕ) → length (put_words ws) ≡ 8 * length ws
unfolding put_words
length-put_words [] = refl
length-put_words (w ∷ ws) =
    omega (arith, length-append (put_le 8 w) (put_words ws), length-put_le 8 w, length-put_words ws)

length-put_vecs_plain :
    (n : ℕ) (vs : List (List ℕ)) → length (put_vecs none n vs) ≡ 8 * (n * length vs)
unfolding put_vecs put_vec
length-put_vecs_plain n [] = omega arith
length-put_vecs_plain n (v ∷ vs) = omega (
  arith,
  length-append (put_words (memcpy n v)) (put_vecs none n vs),
  length-put_words (memcpy n v),
  length-memcpy n v,
  length-put_vecs_plain n vs,
)

length-put_vecs_encoded :
    (dsteps : List ℕ) (n : ℕ) (vs : List (List ℕ))
    → length (put_vecs (some dsteps) n vs) ≡ 8 * length vs
unfolding put_vecs put_vec
length-put_vecs_encoded dsteps n [] = omega arith
length-put_vecs_encoded dsteps n (v ∷ vs) = omega (
  arith,
  length-append (put_le 8 (sel_encode n dsteps v)) (put_vecs (some dsteps) n vs),
  length-put_le 8 (sel_encode n dsteps v),
  length-put_vecs_encoded dsteps n vs,
)

abbrev pub vec_words : Option (List ℕ) → ℕ → ℕ
vec_words none n = n
vec_words (some dsteps) n = 1

pub length-encode :
    (ndim : ℕ) (blocks : List Block) (dsteps : Option (List ℕ)) (dimoff : ℕ)
    → length (encode ndim blocks dsteps dimoff)
      ≡ 16 * (vec_words dsteps (ndim - dimoff) * length blocks)
unfolding encode
length-encode ndim blocks none dimoff =
    let n = ndim - dimoff in
    let starts = map (λ (b : Block). drop dimoff b.start) blocks in
    let counts = map (λ (b : Block). drop dimoff b.count) blocks in
    rw
      (
        length-append (put_vecs none n starts) (put_vecs none n counts),
        length-put_vecs_plain,
        length-put_vecs_plain,
        length-map,
        length-map,
      )
      (omega arith)
length-encode ndim blocks (some dsteps) dimoff =
    let n = ndim - dimoff in
    let starts = map (λ (b : Block). drop dimoff b.start) blocks in
    let counts = map (λ (b : Block). drop dimoff b.count) blocks in
    rw
      (
        length-append (put_vecs (some (drop dimoff dsteps)) n starts)
            (put_vecs (some (drop dimoff dsteps)) n counts),
        length-put_vecs_encoded,
        length-put_vecs_encoded,
        length-map,
        length-map,
      )
      (omega arith)

record_part :
    (isrec : Bool) (r : ℕ) → length (if isrec then put_le 8 r else []) ≡ (if isrec then 8 else 0)
record_part true r = length-put_le 8 r
record_part false r = refl

number_part :
    (mul : Bool) (n : ℕ) → length (if mul then put_le 4 n else []) ≡ (if mul then 4 else 0)
number_part true n = length-put_le 4 n
number_part false n = refl

steps_part :
    (enc : Bool) (encdim : ℕ) (dsteps : List ℕ)
    → length (if enc then put_words (memcpy (encdim - 1) dsteps) else [])
      ≡ (if enc then 8 * (encdim - 1) else 0)
steps_part true encdim dsteps =
    length-put_words _ ∙ ap (λ k. 8 * k) (length-memcpy (encdim - 1) dsteps)
steps_part false encdim dsteps = refl

blocks_part :
    (enc isrec : Bool) (ndim n : ℕ) (dsteps : List ℕ)
    → 16 * (vec_words (if enc then some dsteps else none) (ndim - (if isrec then 1 else 0)) * n)
      ≡ (if enc then 16 * n else 8 * ((if isrec then ndim - 1 else ndim) * n * 2))
blocks_part true isrec ndim n dsteps = omega arith
blocks_part false true ndim n dsteps = omega arith
blocks_part false false ndim n dsteps = ground arith

parts_sum :
    (isrec mul enc : Bool) (encdim n : ℕ)
    → 28
        + ((if isrec then 8 else 0)
            + ((if mul then 4 else 0)
                + ((if enc then 8 * (encdim - 1) else 0)
                    + (if enc then 16 * n else 8 * (encdim * n * 2)))))
      ≡ entry_size isrec mul enc encdim n
parts_sum isrec mul enc encdim n = ground arith

pub length-make_with :
    (dip : DsetInfo) (did mdsize : ℕ) (blocks : List Block) (isrec mul enc deflate : Bool)
    → let encdim = if isrec then dip.ndim - 1 else dip.ndim in
      length (meta_buf (make_with dip did mdsize blocks isrec mul enc deflate))
      ≡ entry_size isrec mul enc encdim (length blocks)
unfolding make_with meta_buf encode_sels
length-make_with dip did mdsize blocks isrec mul enc deflate =
    rw
      (
        length-append,
        length-put_hdr,
        length-append,
        length-append,
        length-append,
        length-encode,
        record_part isrec (first_record blocks),
        number_part mul (length blocks),
        steps_part,
        blocks_part,
      )
      (parts_sum isrec mul enc _ (length blocks))
