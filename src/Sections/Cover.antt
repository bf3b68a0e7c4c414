-- ===== src/Sections/Cover.antt =====
-- src/H5VL_log_filei_meta.cpp, src/H5VL_logi_nb.cpp: reading the metadata datasets of a file whole
-- and in parts.
use vol_log_based.Prelude.{ℕ, zero, suc, ◌+◌, ◌^◌, ◌≤◌, ◌<◌, ◌≡◌, refl, ap, ◌∙◌}
use vol_log_based.Prelude.{List, [], ◌∷◌, length, take, drop, arith}
use vol_log_based.Prelude.{true, if◌then◌else◌, sub64, mul64}
use vol_log_based.Prelude.{Result, ok, err, ◌>>=◌, append-nil}
use vol_log_based.Meta.Codec.{put_words}
use vol_log_based.Sections.Update.{Under, IdxState, metaupdate, update_dataset, update_from, ready}
use vol_log_based.Sections.Layout.{
  join_all, size, ends, map_end, image, length-image, length-map, first_word, length-join_all,
  range-middle,
}

-- The calls of the underlying VOL give the bytes of the metadata datasets, which hold `files`.
pub record Holds (under : Under) (n : ℕ) (files : ℕ → List (List ℕ)) : Type 0 where
  pub sizes : (i : ℕ) → i < n → under.size i ≡ ok (length (image (files i)))
  pub reads :
      (i start count : ℕ)
      → i < n
      → start + count ≤ length (image (files i))
      → under.read i start count ≡ ok (take count (drop start (image (files i))))
  pub fits : (i : ℕ) → i < n → length (image (files i)) < 2 ^ 63
  pub some_section : (i : ℕ) → i < n → 0 < length (files i)

-- The entries of `k` datasets from number `i` on.
abbrev pub bodies : (ℕ → List (List ℕ)) → ℕ → ℕ → List (List ℕ)
bodies files zero i = []
bodies files (suc k) i = join_all (files i) ∷ bodies files k (suc i)

-- Blocks of entries parsed one after the other.
abbrev pub parse_all {u} : {I : Type u} → (List ℕ → I → Result I) → List (List ℕ) → I → Result I
parse_all parse [] idx = ok idx
parse_all parse (b ∷ bs) idx = parse b idx >>= parse_all parse bs

pub body_lem : (cs : List (List ℕ)) → take (size cs) (drop (map_end cs) (image cs)) ≡ join_all cs
body_lem cs =
    let front = put_words (length cs ∷ ends (map_end cs) cs) in
    rw (append-nil (join_all cs)) at (
      range-middle (map_end cs) (size cs) front (join_all cs) [] (length-map cs)
        (length-join_all cs))

pub bind_cong {u v} :
    {A : Type u} {B : Type v} (r : Result A) (f g : A → Result B)
    → ((a : A) → f a ≡ g a)
    → (r >>= f) ≡ (r >>= g)
bind_cong (ok a) f g h = h a
bind_cong (err e) f g h = refl

module _ {u} {I : Type u} (under : Under) (parse_block : List ℕ → I → Result I) (clear : I → I)
    (flush : IdxState I → IdxState I) {n : ℕ} {files : ℕ → List (List ℕ)}
    (holds : Holds under n files) where
  pub count_read : (i : ℕ) → i < n → under.read i 0 8 ≡ ok (take 8 (image (files i)))
  count_read i h = holds.reads i 0 8 h (omega (arith, length-image (files i)))

  update_dataset_lem :
      (i : ℕ) (idx : I)
      → i < n
      → update_dataset under parse_block clear flush i idx ≡ parse_block (join_all (files i)) idx
  unfolding update_dataset
  update_dataset_lem i idx h =
      let cs = files i in
      let len = length-image cs in
      let fit = holds.fits i h in
      let start : mul64 8 (length cs + 1) ≡ map_end cs = omega (arith, len, fit) in
      let count : sub64 (length (image cs)) (map_end cs) ≡ size cs = omega (arith, len, fit) in
      rw
        (
          holds.sizes i h,
          count_read i h,
          first_word cs (omega (arith, len, fit)),
          start,
          count,
          holds.reads i (map_end cs) (size cs) h (omega (arith, len)),
          body_lem cs,
        )
        refl

  update_from_lem :
      (k i : ℕ) (idx : I)
      → i + k ≤ n
      → update_from under parse_block clear flush k i idx
        ≡ parse_all parse_block (bodies files k i) idx
  unfolding update_from
  update_from_lem zero i idx h = refl
  update_from_lem (suc k) i idx h = rw (update_dataset_lem i idx (omega arith)) (
      bind_cong (parse_block (join_all (files i)) idx) _ _
        (λ x. update_from_lem k (suc i) x (omega arith)))

  -- An update reads the entries of all sections of the file's metadata datasets into an empty
  -- index, in order, and marks the index as valid; an exception of the index passes through.
  pub metaupdate-reads :
      (s : IdxState I)
      → (if s.metadirty then flush s else s).nmdset ≡ n
      → metaupdate under parse_block clear flush s ≡ (
          let t = if s.metadirty then flush s else s in
          parse_all parse_block (bodies files n 0) (clear t.idx) >>= λ idx.
          ok (record t { idx = idx; idxvalid = true }))
  unfolding metaupdate ready
  metaupdate-reads s count =
      let t = if s.metadirty then flush s else s in
      ap (λ r. r >>= λ idx. ok (record t { idx = idx; idxvalid = true }))
        (ap (λ k. update_from under parse_block clear flush k 0 (clear t.idx)) count
          ∙ update_from_lem n 0 (clear t.idx) (omega arith))
