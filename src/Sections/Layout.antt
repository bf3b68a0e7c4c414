-- ===== src/Sections/Layout.antt =====
-- src/H5VL_log_filei_meta.cpp: lemmas on the bytes of a metadata dataset, its map and sections.
use vol_log_based.Prelude.{ℕ, zero, suc, ◌+◌, ◌*◌, ◌^◌, ◌≤◌, ◌<◌, ◌≡◌, refl, ap, sym, ◌∙◌}
use vol_log_based.Prelude.{List, [], ◌∷◌, ◌++◌, length, take, drop, get_or, arith}
use vol_log_based.Prelude.{
  length-append, take-append, drop-append, append_assoc, append-nil, take-drop,
}
use vol_log_based.Prelude.Bytes.{get_le, put_le, length-put_le, get_le-put_le, drop-put_le}
use vol_log_based.Meta.Codec.{put_words, get_words}
use vol_log_based.Request.Size.{length-put_words}
use vol_log_based.Sections.Update.{section_begin}

-- The bytes of the sections, one behind the other, and how many they are.
abbrev pub join_all : List (List ℕ) → List ℕ
join_all [] = []
join_all (c ∷ cs) = c ++ join_all cs

abbrev pub size : List (List ℕ) → ℕ
size [] = 0
size (c ∷ cs) = length c + size cs

-- The ends of the sections that follow `off`.
abbrev pub ends : ℕ → List (List ℕ) → List ℕ
ends off [] = []
ends off (c ∷ cs) = (off + length c) ∷ ends (off + length c) cs

abbrev pub map_end : List (List ℕ) → ℕ
map_end cs = 8 * (length cs + 1)

-- A metadata dataset: the number of its sections, where each ends, and their bytes.
abbrev pub image : List (List ℕ) → List ℕ
image cs = put_words (length cs ∷ ends (map_end cs) cs) ++ join_all cs

pub length-ends : (off : ℕ) (cs : List (List ℕ)) → length (ends off cs) ≡ length cs
length-ends off [] = refl
length-ends off (c ∷ cs) = ap suc (length-ends (off + length c) cs)

pub length-join_all : (cs : List (List ℕ)) → length (join_all cs) ≡ size cs
length-join_all [] = refl
length-join_all (c ∷ cs) = omega (arith, length-append c (join_all cs), length-join_all cs)

pub length-map :
    (cs : List (List ℕ)) → length (put_words (length cs ∷ ends (map_end cs) cs)) ≡ map_end cs
length-map cs =
    omega (arith, length-put_words (length cs ∷ ends (map_end cs) cs), length-ends (map_end cs) cs)

pub length-image : (cs : List (List ℕ)) → length (image cs) ≡ map_end cs + size cs
length-image cs = omega (
  arith,
  length-append (put_words (length cs ∷ ends (map_end cs) cs)) (join_all cs),
  length-map cs,
  length-join_all cs,
)

-- Reading a range: the list is cut at its two ends.
module _ {ℓ} {A : Type ℓ} where
  pub range-middle :
      (k n : ℕ) (pre mid post : List A)
      → length pre ≡ k
      → length mid ≡ n
      → take n (drop k (pre ++ (mid ++ post))) ≡ mid
  range-middle k n pre mid post hk hn =
      rw (sym hk, sym hn, drop-append pre (mid ++ post)) (take-append mid post)

pub first_word :
    (cs : List (List ℕ)) → length cs < 2 ^ 64 → get_le 8 (take 8 (image cs)) ≡ length cs
unfolding put_words
first_word cs h =
    let n = length cs in
    let rest = put_words (ends (map_end cs) cs) in
    let cut = range-middle 0 8 [] (put_le 8 n) (rest ++ join_all cs) refl (length-put_le 8 n) in
    rw (append_assoc (put_le 8 n) rest (join_all cs), cut)
      (rw (append-nil (put_le 8 n)) at (get_le-put_le 8 n [] h))

get_words-put_words_all :
    (off : ℕ) (cs : List (List ℕ))
    → off + size cs < 2 ^ 64
    → get_words (length cs) (put_words (ends off cs)) ≡ ends off cs
unfolding get_words put_words
get_words-put_words_all off [] h = refl
get_words-put_words_all off (c ∷ cs) h =
    let e = off + length c in
    rw
      (
        get_le-put_le 8 e (put_words (ends e cs)) (omega (arith, h)),
        drop-put_le 8 e (put_words (ends e cs)),
      )
      (ap (λ t. e ∷ t) (get_words-put_words_all e cs (omega (arith, h))))

-- The words behind the first are the ends of the sections.
pub end_words :
    (cs : List (List ℕ))
    → map_end cs + size cs < 2 ^ 64
    → get_words (length cs) (take (8 * length cs) (drop 8 (image cs))) ≡ ends (map_end cs) cs
unfolding put_words
end_words cs h =
    let n = length cs in
    let es = ends (map_end cs) cs in
    let len : length (put_words es) ≡ 8 * n =
      omega (arith, length-put_words es, length-ends (map_end cs) cs) in
    let cut =
      range-middle 8 (8 * n) (put_le 8 n) (put_words es) (join_all cs) (length-put_le 8 n) len in
    rw (append_assoc (put_le 8 n) (put_words es) (join_all cs), cut)
      (get_words-put_words_all (map_end cs) cs h)

-- The sections before number `k`, and those from it on.
pub size-split :
    (k j : ℕ) (cs : List (List ℕ))
    → size (take (k + j) cs) ≡ size (take k cs) + size (take j (drop k cs))
size-split zero j cs = let e : 0 + j ≡ j = omega arith in rw e (omega arith)
size-split (suc k) zero [] = let e : suc k + 0 ≡ suc (k + 0) = omega arith in rw e refl
size-split (suc k) (suc j) [] = let e : suc k + suc j ≡ suc (k + suc j) = omega arith in rw e refl
size-split (suc k) j (c ∷ cs) =
    let e : suc k + j ≡ suc (k + j) = omega arith in rw e (omega (arith, size-split k j cs))

join_all-append : (cs ds : List (List ℕ)) → join_all (cs ++ ds) ≡ join_all cs ++ join_all ds
join_all-append [] ds = refl
join_all-append (c ∷ cs) ds =
    ap (λ t. c ++ t) (join_all-append cs ds) ∙ sym (append_assoc c (join_all cs) (join_all ds))

pub join_all-cut :
    (k : ℕ) (cs : List (List ℕ)) → join_all (take k cs) ++ join_all (drop k cs) ≡ join_all cs
join_all-cut k cs = sym (join_all-append (take k cs) (drop k cs)) ∙ ap join_all (take-drop k cs)

-- Where a section ends and begins, by the map.
pub get_or-ends :
    (off i : ℕ) (cs : List (List ℕ))
    → i < length cs
    → get_or (ends off cs) i 0 ≡ off + size (take (suc i) cs)
get_or-ends off zero [] h = elim h [ ]
get_or-ends off (suc i) [] h = elim h [ ]
get_or-ends off zero (c ∷ cs) h = omega arith
get_or-ends off (suc i) (c ∷ cs) h =
    omega (arith, get_or-ends (off + length c) i cs (omega (arith, h)))

pub section_begin_lem :
    (k : ℕ) (cs : List (List ℕ))
    → map_end cs < 2 ^ 64
    → k ≤ length cs
    → section_begin (length cs) (ends (map_end cs) cs) k ≡ map_end cs + size (take k cs)
unfolding section_begin
section_begin_lem zero cs fits h = omega (arith, fits)
section_begin_lem (suc k) cs fits h = get_or-ends (map_end cs) k cs (omega (arith, h))

-- The bytes between the begin of section `k` and the end of the `j`-th from there.
pub range-sections :
    (k j : ℕ) (cs : List (List ℕ))
    → take (size (take j (drop k cs))) (drop (map_end cs + size (take k cs)) (image cs))
      ≡ join_all (take j (drop k cs))
range-sections k j cs =
    let front = put_words (length cs ∷ ends (map_end cs) cs) in
    let pre = join_all (take k cs) in
    let mid = join_all (take j (drop k cs)) in
    let post = join_all (drop j (drop k cs)) in
    let whole : join_all cs ≡ pre ++ (mid ++ post) =
      sym (ap (λ t. pre ++ t) (join_all-cut j (drop k cs)) ∙ join_all-cut k cs) in
    let len : length (front ++ pre) ≡ map_end cs + size (take k cs) =
      omega (arith, length-append front pre, length-map cs, length-join_all (take k cs)) in
    rw (whole, ← append_assoc front pre (mid ++ post))
      (range-middle _ _ (front ++ pre) mid post len (length-join_all (take j (drop k cs))))
