-- ===== src/Sections/Written.antt =====
-- src/H5VL_log_filei_meta.cpp: what the processes of a group write in one metadata flush.
use vol_log_based.Prelude.{ℕ, suc, ◌+◌, ◌^◌, ◌<◌, ◌≡◌, refl, ap}
use vol_log_based.Prelude.{List, [], ◌∷◌, ◌++◌, length, take, get_or, All, map, arith}
use vol_log_based.Prelude.{Option, some, to_int, add64}
use vol_log_based.Prelude.{length-append, append_assoc}
use vol_log_based.Meta.Codec.{put_words}
use vol_log_based.Request.Write.{WReq, meta_buf}
use vol_log_based.Sections.Flush.{
  MetaState, MdOutput, to_file, entries, accumulate, with_total, mdoffs_snd, hindexed, add_lens,
  widen, cleared,
}
use vol_log_based.Sections.Layout.{map_end, join_all, size, ends, image}

-- The metadata size in a request's header is that of its entry, and fits an `int`.
abbrev pub IsSized : WReq → Type 0
IsSized r = (r.hdr.meta_size ≡ length (meta_buf r)) × (length (meta_buf r) < 2 ^ 31)

-- The section of a process: the entries of its requests.
abbrev pub section : List WReq → List ℕ
section [] = []
section (r ∷ rs) = meta_buf r ++ section rs

-- The pairs that are sent, as they lie in the array.
abbrev pub flatten : List (ℕ × ℕ) → List ℕ
flatten [] = []
flatten ((a, b) ∷ ps) = a ∷ (b ∷ flatten ps)

pub take_all : (xs : List ℕ) → take (length xs) xs ≡ xs
take_all [] = refl
take_all (x ∷ xs) = ap (λ t. x ∷ t) (take_all xs)

pub hindexed-entries : (rs : List WReq) → All IsSized rs → hindexed (entries rs) ≡ section rs
unfolding hindexed entries
hindexed-entries [] h = refl
hindexed-entries (r ∷ rs) ((hs, hb), hr) =
    let e : to_int r.hdr.meta_size ≡ length (meta_buf r) = omega (arith, hs, hb) in
    rw (e, take_all (meta_buf r)) (ap (λ t. meta_buf r ++ t) (hindexed-entries rs hr))

pub add_lens-entries :
    (off : ℕ) (rs : List WReq)
    → All IsSized rs
    → off + length (section rs) < 2 ^ 63
    → add_lens off (entries rs) ≡ off + length (section rs)
unfolding add_lens entries
add_lens-entries off [] h fits = omega arith
add_lens-entries off (r ∷ rs) ((hs, hb), hr) fits =
    let len = length-append (meta_buf r) (section rs) in
    let e : add64 off (widen (to_int r.hdr.meta_size)) ≡ off + length (meta_buf r) =
      ground (arith, hs, hb, len) in
    rw (add_lens, e)
      (omega (arith, len, add_lens-entries (off + length (meta_buf r)) rs hr (omega (arith, len))))

abbrev pub sections : List MetaState → List (List ℕ)
sections [] = []
sections (s ∷ ss) = section s.queue.wreqs ∷ sections ss

abbrev pub AllSized : List MetaState → Type 0
AllSized [] = Unit
AllSized (s ∷ ss) = All IsSized s.queue.wreqs × AllSized ss

-- What the processes write: the map goes in front of the first section.
abbrev pub chunks : List (List ℕ) → List (List ℕ)
chunks [] = []
chunks (c ∷ cs) = let all = c ∷ cs in (put_words (length all ∷ ends (map_end all) all) ++ c) ∷ cs

-- Each process has created the dataset of `total` bytes, and the byte strings lie one behind the
-- other in the file.
abbrev pub tiles : ℕ → ℕ → List MetaState → List (List ℕ) → List (MetaState × Option ℕ × MdOutput)
tiles total off [] cs = []
tiles total off (s ∷ ss) [] = []
tiles total off (s ∷ ss) (c ∷ cs) =
    (cleared (record s { nmdset = suc s.nmdset }), some total, to_file off c)
    ∷ tiles total (off + length c) ss cs

abbrev pub starts : ℕ → List (List ℕ) → List ℕ
starts off [] = []
starts off (c ∷ cs) = off ∷ starts (off + length c) cs

pub length-sections : (ss : List MetaState) → length (sections ss) ≡ length ss
length-sections [] = refl
length-sections (s ∷ ss) = ap suc (length-sections ss)

pub join_all-chunks :
    (c : List ℕ) (cs : List (List ℕ)) → join_all (chunks (c ∷ cs)) ≡ image (c ∷ cs)
join_all-chunks c cs =
    append_assoc (put_words (length (c ∷ cs) ∷ ends (map_end (c ∷ cs)) (c ∷ cs))) c (join_all cs)

pub accumulate-lengths :
    (off : ℕ) (xs : List (List ℕ))
    → off + size xs < 2 ^ 64
    → accumulate off (map length xs) ≡ ends off xs
unfolding accumulate
accumulate-lengths off [] h = refl
accumulate-lengths off (x ∷ xs) h =
    let e : add64 (length x) off ≡ off + length x = omega (arith, h) in
    rw (accumulate, e)
      (ap (λ t. (off + length x) ∷ t) (accumulate-lengths (off + length x) xs (omega (arith, h))))

take-starts : (off : ℕ) (xs : List (List ℕ)) → take (length xs) (off ∷ ends off xs) ≡ starts off xs
take-starts off [] = refl
take-starts off (x ∷ xs) = ap (λ t. off ∷ t) (take-starts (off + length x) xs)

last-ends :
    (off : ℕ) (xs : List (List ℕ)) → get_or (off ∷ ends off xs) (length xs) 0 ≡ off + size xs
last-ends off [] = omega arith
last-ends off (x ∷ xs) = omega (arith, last-ends (off + length x) xs)

abbrev pub to_pairs : ℕ → List ℕ → List (ℕ × ℕ)
to_pairs total [] = []
to_pairs total (o ∷ os) = (o, total) ∷ to_pairs total os

with_total-flatten : (total : ℕ) (os : List ℕ) → with_total total os ≡ flatten (to_pairs total os)
unfolding with_total
with_total-flatten total [] = refl
with_total-flatten total (o ∷ os) = ap (λ t. o ∷ (total ∷ t)) (with_total-flatten total os)

-- The array that rank 0 scatters.
pub snd_lem :
    (n : ℕ) (xs : List (List ℕ))
    → n ≡ length xs
    → size xs < 2 ^ 64
    → mdoffs_snd n (map length xs) ≡ flatten (to_pairs (size xs) (starts 0 xs))
unfolding mdoffs_snd
snd_lem n xs hn h =
    let last : get_or (0 ∷ ends 0 xs) (length xs) 0 ≡ size xs = omega (arith, last-ends 0 xs) in
    rw (hn, accumulate-lengths 0 xs (omega (arith, h)), last, take-starts 0 xs)
      (with_total-flatten (size xs) (starts 0 xs))
