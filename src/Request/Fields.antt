-- ===== src/Request/Fields.antt =====
-- What is read back of a header, of an array of words and of the coordinates of a selection.
use vol_log_based.Prelude.{ℕ, zero, suc, ◌+◌, ◌*◌, ◌/◌, ◌%◌, ◌^◌, ◌<◌, ◌≡◌, refl, ap}
use vol_log_based.Prelude.{
  List, [], ◌∷◌, ◌++◌, append_assoc, map, length, drop, hd, tl, memcpy, All,
}
use vol_log_based.Prelude.{Option, none, some, Bool, true, false, arith}
use vol_log_based.Prelude.Bytes.{put_le, get_le-put_le, drop-put_le}
use native.Mathlib.Nat.{zero-add}
use vol_log_based.Meta.{MetaHdr}
use vol_log_based.Meta.Codec.{put_hdr, get_hdr, put_words, get_words, put_vec, put_vecs, hdr_size}
use vol_log_based.Meta.Codec.{sel_encode, sel_decode}
use vol_log_based.Meta.Steps.{InSteps, offset, sel_decode-sel_encode, sel_encode-offset}
use vol_log_based.Meta.Decode.{get_vecs}

-- Every field is a value of its C type.
pub record IsHdr (h : MetaHdr) : Type 0 where
  pub meta_size_fits : h.meta_size < 2 ^ 32
  pub did_fits : h.did < 2 ^ 32
  pub flag_fits : h.flag < 2 ^ 32
  pub foff_fits : h.foff < 2 ^ 64
  pub fsize_fits : h.fsize < 2 ^ 64

drop-put_le_more : (n m x : ℕ) (r : List ℕ) → drop (n + m) (put_le n x ++ r) ≡ drop m r
unfolding put_le
drop-put_le_more zero m x r = rw zero-add
drop-put_le_more (suc n) m x r =
    let e : suc n + m ≡ suc (n + m) = omega arith in rw e (drop-put_le_more n m (x / 256) r)

pub get_hdr-put_hdr : (h : MetaHdr) (r : List ℕ) → IsHdr h → get_hdr (put_hdr h ++ r) ≡ h
unfolding get_hdr put_hdr put_le
get_hdr-put_hdr h r v = λ i. record {
  meta_size = get_le-put_le 4 h.meta_size (put_le 4 h.did ++ fourth) v.meta_size_fits i;
  did = get_le-put_le 4 h.did fourth v.did_fits i;
  flag = get_le-put_le 4 h.flag fifth v.flag_fits i;
  foff = get_le-put_le 8 h.foff (put_le 8 h.fsize ++ r) v.foff_fits i;
  fsize = get_le-put_le 8 h.fsize r v.fsize_fits i;
}
  where
    fifth : List ℕ
    fifth = put_le 8 h.foff ++ (put_le 8 h.fsize ++ r)

    fourth : List ℕ
    fourth = put_le 4 h.flag ++ fifth

pub drop-put_hdr : (h : MetaHdr) (r : List ℕ) → drop hdr_size (put_hdr h ++ r) ≡ r
unfolding put_hdr put_le
drop-put_hdr h r = refl

abbrev pub IsWord : ℕ → Type 0
IsWord w = w < 2 ^ 64

pub get_words-put_words :
    (n : ℕ) (v r : List ℕ)
    → All IsWord (memcpy n v)
    → get_words n (put_words (memcpy n v) ++ r) ≡ memcpy n v
unfolding get_words put_words
get_words-put_words zero v r h = refl
get_words-put_words (suc n) v r (h, hs) = rw (
  append_assoc,
  get_le-put_le 8 (hd v) (put_words (memcpy n (tl v)) ++ r) h,
  drop-put_le 8 (hd v) (put_words (memcpy n (tl v)) ++ r),
  get_words-put_words n (tl v) r hs,
)

pub drop-put_words : (n : ℕ) (v r : List ℕ) → drop (8 * n) (put_words (memcpy n v) ++ r) ≡ r
unfolding put_words
drop-put_words zero v r = refl
drop-put_words (suc n) v r =
    let e : 8 * suc n ≡ 8 + 8 * n = omega arith in
    rw (e, append_assoc, drop-put_le_more 8 (8 * n) (hd v) (put_words (memcpy n (tl v)) ++ r))
      (drop-put_words n (tl v) r)

-- The condition on an array for the form in which it is written.
abbrev pub IsVec : Option (List ℕ) → ℕ → List ℕ → Type 0
IsVec none n v = All IsWord (memcpy n v)
IsVec (some dsteps) n v = InSteps n dsteps v × (offset n dsteps v < 2 ^ 64)

abbrev pub is_encoded : Option (List ℕ) → Bool
is_encoded none = false
is_encoded (some dsteps) = true

sel_decode-memcpy :
    (n : ℕ) (ds : List ℕ) (off : ℕ) → sel_decode n ds off ≡ sel_decode n (memcpy n ds) off
unfolding sel_decode
sel_decode-memcpy zero ds off = refl
sel_decode-memcpy (suc n) ds off =
    ap (λ r. (off / hd ds) ∷ r) (sel_decode-memcpy n (tl ds) (off % hd ds))

-- The steps that decoding uses are, as far as they are read, those of the encoding.
abbrev pub SameSteps : Option (List ℕ) → ℕ → List ℕ → Type 0
SameSteps none n ds = Unit
SameSteps (some dsteps) n ds = memcpy n ds ≡ memcpy n dsteps

-- The loops of decoding read back the arrays that `encode` wrote, and leave what follows them.
-- Only the first `n` steps matter.
pub get_vecs-put_vecs :
    (dsteps : Option (List ℕ)) (ds : List ℕ) (n : ℕ) (vs : List (List ℕ)) (r : List ℕ)
    → SameSteps dsteps n ds
    → All (IsVec dsteps n) vs
    → get_vecs (is_encoded dsteps) ds n (length vs) (put_vecs dsteps n vs ++ r)
      ≡ (map (memcpy n) vs, r)
unfolding get_vecs put_vecs put_vec
get_vecs-put_vecs none ds n [] r hd' h = refl
get_vecs-put_vecs (some dsteps) ds n [] r hd' h = refl
get_vecs-put_vecs none ds n (v ∷ vs) r hd' (hv, h) = rw (
  append_assoc,
  drop-put_words n v (put_vecs none n vs ++ r),
  get_words-put_words n v (put_vecs none n vs ++ r) hv,
  get_vecs-put_vecs none ds n vs r hd' h,
)
get_vecs-put_vecs (some dsteps) ds n (v ∷ vs) r hd' ((small, fits), h) = rw (
  append_assoc,
  get_le-put_le 8 (sel_encode n dsteps v) (put_vecs (some dsteps) n vs ++ r)
      (rw (sel_encode-offset n dsteps v fits) fits),
  drop-put_le 8 (sel_encode n dsteps v) (put_vecs (some dsteps) n vs ++ r),
  sel_decode-memcpy n ds (sel_encode n dsteps v),
  hd',
  ← sel_decode-memcpy n dsteps (sel_encode n dsteps v),
  sel_decode-sel_encode n dsteps v small fits,
  get_vecs-put_vecs (some dsteps) ds n vs r hd' h,
)
