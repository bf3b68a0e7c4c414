-- ===== src/Transfer/Room.antt =====
-- src/H5VL_log_dataseti.cpp: the types of a read are made, do not overlap, and fit into the arrays
-- that were allocated for as many as were counted.
use vol_log_based.Prelude.{
  ℕ, zero, suc, ◌+◌, ◌-◌, ◌*◌, ◌≤◌, ◌<◌, ◌^◌, ◌≡◌, refl, ap, sym, subst, ◌∙◌, arith, inl, inr,
  Option-cases,
}
use vol_log_based.Prelude.{
  Bool, true, false, List, [], ◌∷◌, ◌++◌, map, length, length-append, length-map, some, ltb, hd, tl,
  All, to_int,
}
use vol_log_based.Prelude.{ok}
use vol_log_based.Transfer.{ReadPiece}
use vol_log_based.Transfer.Sort.{Offsets, sortoffsets}
use vol_log_based.Transfer.Exchange.{Exchanged, Exchanged-All}
use vol_log_based.Transfer.Bubble.{Ascends}
use vol_log_based.Transfer.Sorted.{sortoffsets-IsSortOf}
use vol_log_based.Transfer.Rows.{ReadBlock, row_piece, row_count, positions}
use vol_log_based.Transfer.Nested.{Positive, nested, length-nested, break_down-nested}
use vol_log_based.Transfer.Trim.{Copy, adjust, adjust_for}
use vol_log_based.Transfer.Disjoint.{Bounded, NotBefore, Behind, EachPair, adjust-EachPair}
use vol_log_based.Transfer.Types.{
  Part, bytes, piece_array, piece_list, group_rows, sort_rows, interleaved, single, group_types,
  count_types, make_types, gen_rtypes, mark_groups,
}

length-piece_list : (i n : ℕ) (a : Offsets) → length (piece_list i n a) ≡ n
length-piece_list i zero a = refl
length-piece_list i (suc n) a = ap suc (length-piece_list (suc i) n a)

All-piece_list :
    (P : ReadPiece → Type 0) (i n : ℕ) (a : Offsets)
    → ((p : ℕ) → i ≤ p → p < i + n → P (a p))
    → All P (piece_list i n a)
All-piece_list P i zero a h = tt
All-piece_list P i (suc n) a h = (
  h i (omega arith) (omega arith),
  All-piece_list P (suc i) n a (λ p l u. h p (omega (arith, l)) (omega (arith, u))),
)

All-piece_array :
    (P : ReadPiece → Type 0) (ps : List ReadPiece) (p : ℕ)
    → All P ps
    → p < length ps
    → P (piece_array ps p)
All-piece_array P [] p h k = absurd (omega (arith, k))
All-piece_array P (q ∷ qs) zero (h, hs) k = h
All-piece_array P (q ∷ qs) (suc p) (h, hs) k = All-piece_array P qs p hs (omega (arith, k))

EachPair-piece_list :
    (i n : ℕ) (a : Offsets) → Ascends i (i + n) a → EachPair NotBefore (piece_list i n a)
EachPair-piece_list i zero a asc = tt
EachPair-piece_list i (suc n) a asc = (
  All-piece_list (NotBefore (a i)) (suc i) n a
      (λ p l u. inr (asc i p (omega arith) (omega (arith, l)) (omega (arith, u)))),
  EachPair-piece_list (suc i) n a (λ p q l m u. asc p q (omega (arith, l)) m (omega (arith, u))),
)

-- The sort of the rows ends, and its pieces are adjusted.
sort_rows-sorted :
    (rows : List ReadPiece)
    → (a : Offsets) × (sort_rows rows ≡ ok (adjust (length rows) (piece_list 0 (length rows) a)))
      × Exchanged 0 (length rows) (piece_array rows) a
      × Ascends 0 (length rows) a
unfolding sort_rows
sort_rows-sorted rows =
    let start : 0 + length rows ≡ length rows = omega arith in
    let sorted =
      rw start at (
        sortoffsets-IsSortOf (suc (length rows)) 0 (length rows) (piece_array rows)
          (omega arith)) in
    elim (Option-cases (sortoffsets (suc (length rows)) 0 (length rows) (piece_array rows))) [
      | inl f ↦ absurd (rw f at sorted)
      | inr (a, f) ↦ let (x, asc) = rw f at sorted in (a, rw (f, sort_rows) refl, x, asc)
    ]

-- For rows below 2 ^ 63: the sort and the adjustment end with a piece for each row, of which each
-- begins behind the end of those in front of it or is empty.
pub sort_rows-EachPair :
    (rows : List ReadPiece)
    → All Bounded rows
    → (pieces : List ReadPiece) × (copies : List Copy) × (sort_rows rows ≡ ok (pieces, copies))
      × EachPair Behind pieces
      × (length pieces ≡ length rows)
sort_rows-EachPair rows bounded =
    let (a, e, x, asc) = sort_rows-sorted rows in
    let n = length rows in
    let ls = piece_list 0 (length rows) a in
    let start : 0 + length rows ≡ length rows = omega arith in
    let kept = All-piece_list Bounded 0 (length rows) a (λ q k v.
      Exchanged-All Bounded x (λ p l u. All-piece_array Bounded rows p bounded u) q k
        (omega (arith, v))) in
    let (pairs, size) =
      adjust-EachPair (length rows) ls (length-piece_list 0 (length rows) a) kept
        (EachPair-piece_list 0 (length rows) a (rw start asc)) in
    ((adjust (length rows) ls).0, (adjust (length rows) ls).1, e, pairs, size)

length-adjust_for : (k : ReadPiece) (ls : List ReadPiece) → length (adjust_for k ls).0 ≡ length ls
unfolding adjust_for
length-adjust_for k [] = refl
length-adjust_for k (l ∷ ls) = let rest = length-adjust_for k ls in ground (arith, rest)

length-adjust : (n : ℕ) (ls : List ReadPiece) → length (adjust n ls).0 ≡ length ls
unfolding adjust
length-adjust zero ls = refl
length-adjust (suc n) [] = refl
length-adjust (suc n) (k ∷ ls) =
    ap suc (length-adjust n (adjust_for k ls).0 ∙ length-adjust_for k ls)

-- A block of a dataset of `suc n` dimensions with elements in each.
abbrev pub HasRows : ℕ → ReadBlock → Type 0
HasRows n b = (b.info.ndim ≡ suc n) × Positive (suc n) b.hit.count

-- The rows of all blocks.
abbrev pub total_rows : ℕ → List ReadBlock → ℕ
total_rows n [] = 0
total_rows n (b ∷ bs) = positions n b.hit.count + total_rows n bs

total_rows-append :
    (n : ℕ) (bs cs : List ReadBlock) → total_rows n (bs ++ cs) ≡ total_rows n bs + total_rows n cs
total_rows-append n [] cs = omega arith
total_rows-append n (b ∷ bs) cs = omega (arith, total_rows-append n bs cs)

All-append {ℓ} :
    {A : Type ℓ} (P : A → Type 0) (xs ys : List A) → All P xs → All P ys → All P (xs ++ ys)
All-append P [] ys h k = k
All-append P (x ∷ xs) ys (p, h) k = (p, All-append P xs ys h k)

positions_pos : (n : ℕ) (count : List ℕ) → Positive n count → 0 < positions n count
unfolding positions
positions_pos zero count h = omega arith
positions_pos (suc n) count (h, k) = let rest = positions_pos n (tl count) k in grind (arith, rest)

fewer : (n : ℕ) (count : List ℕ) → Positive (suc n) count → Positive n count
fewer zero count h = tt
fewer (suc n) count (h, k) = (h, fewer n (tl count) k)

row_count-positions :
    (n nrow : ℕ) (count : List ℕ)
    → Positive n count
    → nrow * positions n count < 2 ^ 32
    → row_count n nrow count ≡ nrow * positions n count
unfolding row_count positions
row_count-positions zero nrow count h k = grind arith
row_count-positions (suc n) nrow count (h, pos) k =
    let rest = positions_pos n (tl count) pos in
    let regroup : nrow * (hd count * positions n (tl count))
        ≡ nrow * hd count * positions n (tl count) =
      grind arith in
    let fits : nrow * hd count ≤ nrow * hd count * positions n (tl count) = grind (arith, rest) in
    let kept : to_int (nrow * hd count) ≡ nrow * hd count = omega (arith, fits, regroup, k) in
    rw kept (
      row_count-positions n (nrow * hd count) (tl count) pos (omega (arith, regroup, k))
      ∙ sym regroup)

module _ (n : ℕ) where
  group_rows-total :
      (group : List ReadBlock)
      → All (HasRows n) group
      → (rows : List ReadPiece) × (group_rows (suc n) group ≡ ok rows)
        × (length rows ≡ total_rows n group)
  unfolding group_rows
  group_rows-total [] h = ([], refl, refl)
  group_rows-total (b ∷ bs) ((e, pos), h) =
      let (later, f, size) = group_rows-total bs h in
      let made = break_down-nested n b pos in
      let deep : ltb 0 (suc n) ≡ true = ground arith in
      let here = map (row_piece (suc n) b) (nested n b.hit.count) in
      let count =
        length-map (row_piece (suc n) b) (nested n b.hit.count) ∙ length-nested n b.hit.count in
      (
        here ++ later,
        rw (group_rows, deep, made) (rw f refl),
        length-append here later ∙ omega (arith, count, size),
      )

  group_types-total :
      (group : List ReadBlock) (nt : ℕ)
      → All (HasRows n) group
      → nt + total_rows n group < 2 ^ 31
      → group_types (suc n) group nt ≡ nt + total_rows n group
  unfolding group_types
  group_types-total [] nt h k = omega arith
  group_types-total (b ∷ bs) nt ((e, pos), h) k =
      let less : suc n - 1 ≡ n = omega arith in
      let rows : row_count n 1 b.hit.count ≡ 1 * positions n b.hit.count =
        row_count-positions n 1 b.hit.count (fewer n b.hit.count pos) (omega (arith, k)) in
      let kept : to_int (nt + row_count n 1 b.hit.count) ≡ nt + positions n b.hit.count =
        omega (arith, rows, k) in
      rw (less, kept)
        (group_types-total bs (nt + positions n b.hit.count) h (omega (arith, k)) ∙ omega arith)

  interleaved-total :
      (group : List ReadBlock)
      → All (HasRows n) group
      → (pieces : List ReadPiece) × (copies : List Copy) × (interleaved (suc n) group
          ≡ ok (pieces, copies))
        × (length pieces ≡ total_rows n group)
  unfolding interleaved
  interleaved-total group h =
      let (rows, e, size) = group_rows-total group h in
      let (a, f, x, asc) = sort_rows-sorted rows in
      let ls = piece_list 0 (length rows) a in
      let made = length-adjust (length rows) ls ∙ length-piece_list 0 (length rows) a ∙ size in
      ((adjust (length rows) ls).0, (adjust (length rows) ls).1, rw (e, f) refl, made)

-- A block that stands alone has one type or none.
length-single : (b : ReadBlock) → length (single b) ≤ 1
unfolding single
length-single b = ground arith

module _ (n : ℕ) where
  -- The types are made, and are no more than were counted.
  abbrev Fits : List ReadBlock → List ReadBlock → List Bool → ℕ → Type 0
  Fits group bs marks nt =
      (parts : List Part) × (copies : List Copy) × (make_types group bs marks ≡ ok (parts, copies))
      × (nt + length parts ≤ count_types group bs marks nt)

  make_types-Fits :
      (group bs : List ReadBlock) (marks : List Bool) (nt : ℕ)
      → All (HasRows n) group
      → All (HasRows n) bs
      → nt + total_rows n group + total_rows n bs < 2 ^ 31
      → Fits group bs marks nt
  unfolding make_types count_types
  make_types-Fits group [] marks nt hg hb k = ([], [], refl, omega arith)
  make_types-Fits group (b ∷ bs) [] nt hg hb k = ([], [], refl, omega arith)
  make_types-Fits group (b ∷ bs) (false ∷ marks) nt hg (h, hb) k =
      make_types-Fits (group ++ (b ∷ [])) bs marks nt
        (All-append (HasRows n) group (b ∷ []) hg (h, tt)) hb
        (omega (arith, k, total_rows-append n group (b ∷ [])))
  make_types-Fits [] (b ∷ bs) (true ∷ marks) nt hg (h, hb) k =
      let one = positions_pos n b.hit.count (fewer n b.hit.count h.1) in
      let (parts, copies, e, fits) =
        make_types-Fits [] bs marks (nt + 1) tt hb (omega (arith, k, one)) in
      let kept : to_int (nt + 1) ≡ nt + 1 = omega (arith, k, one) in
      (
        single b ++ parts,
        copies,
        rw e refl,
        rw kept (omega (arith, length-append (single b) parts, length-single b, fits)),
      )
  make_types-Fits (g ∷ gs) (b ∷ bs) (true ∷ marks) nt hg (h, hb) k =
      let group = (g ∷ gs) ++ (b ∷ []) in
      let whole = All-append (HasRows n) (g ∷ gs) (b ∷ []) hg (h, tt) in
      let size = total_rows-append n (g ∷ gs) (b ∷ []) in
      let (pieces, made, f, count) = interleaved-total n group whole in
      let counted = group_types-total n group nt whole (omega (arith, k, size)) in
      let (parts, copies, e, fits) =
        make_types-Fits [] bs marks (nt + total_rows n group) tt hb (omega (arith, k, size)) in
      let f' = subst (λ d. interleaved d group ≡ ok (pieces, made)) (sym h.0) f in
      let counted' =
        subst (λ d. group_types d group nt ≡ nt + total_rows n group) (sym h.0) counted in
      (
        map bytes pieces ++ parts,
        made ++ copies,
        rw (f', e) refl,
        rw counted' (
            omega (
              arith,
              length-append (map bytes pieces) parts,
              length-map bytes pieces,
              count,
              fits,
            )),
      )

-- For blocks that the sort returns, of datasets of `n + 1` dimensions and with elements in each, of
-- which all rows are less than 2 ^ 31: the types of a read are made, and they are no more than were
-- counted, for which the arrays have room.
pub gen_rtypes-Fits :
    (n : ℕ) (sort : List ReadBlock → List ReadBlock) (b : ReadBlock) (bs : List ReadBlock)
    → All (HasRows n) (sort (b ∷ bs))
    → total_rows n (sort (b ∷ bs)) < 2 ^ 31
    → (room : ℕ) × (parts : List Part) × (copies : List Copy) × (gen_rtypes sort (b ∷ bs)
        ≡ some (room, ok (parts, copies)))
      × (length parts ≤ room)
unfolding gen_rtypes
gen_rtypes-Fits n sort b bs h k =
    let blocks = sort (b ∷ bs) in
    let (parts, copies, e, fits) =
      make_types-Fits n [] blocks (mark_groups blocks) 0 tt h (omega (arith, k)) in
    (count_types [] blocks (mark_groups blocks) 0, parts, copies, rw e refl, omega (arith, fits))
