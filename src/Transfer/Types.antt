-- ===== src/Transfer/Types.antt =====
-- src/H5VL_log_dataseti.cpp: `H5VL_log_dataset_readi_gen_rtypes`.
use vol_log_based.Prelude.{
  ℕ, zero, suc, ◌+◌, ◌-◌, Bool, true, false, ◌&&◌, List, [], ◌∷◌, ◌++◌, Option, none, some, ltb,
  ◌==◌, if◌then◌else◌, get_or, length, map, add64, to_int,
}
use vol_log_based.Prelude.{Result, ok, err, undefined_behaviour, ◌>>=◌}
use vol_log_based.Index.Ordering.{interleve, exceeds}
use vol_log_based.Transfer.{ReadPiece}
use vol_log_based.Transfer.Sort.{Offsets, sortoffsets}
use vol_log_based.Transfer.Rows.{ReadBlock, break_down, row_count}
use vol_log_based.Transfer.Trim.{Copy, adjust}

-- The loop that fills `newgroup`, where `j` is the block that the next one is compared with.
unfoldable pub newgroup : ReadBlock → List ReadBlock → List Bool
newgroup j [] = []
newgroup j (b ∷ []) = true ∷ []
newgroup j (b ∷ (c ∷ rest)) = elim b.zbuf [
  | some z ↦ true ∷ newgroup c (c ∷ rest)
  | none ↦
      if (j.hit.foff == c.hit.foff)
        && (j.hit.doff == c.hit.doff)
        && interleve j.info.ndim j.hit.dstart j.hit.count c.hit.dstart
      then false ∷ newgroup (if exceeds c.info.ndim c.hit j.hit then c else j) (c ∷ rest)
      else true ∷ newgroup c (c ∷ rest)
]

-- An element of the arrays of types: bytes, or a subarray of elements in the file and in memory.
pub data Part : Type 0 where
  bytes : ReadPiece → Part
  subarray : ReadBlock → Part

-- What is counted for a group of interleaving blocks, whose last has `ndim` dimensions: a type for
-- each row.
unfoldable pub group_types : ℕ → List ReadBlock → ℕ → ℕ
group_types ndim [] nt = nt
group_types ndim (b ∷ bs) nt =
    group_types ndim bs (to_int (nt + row_count (ndim - 1) 1 b.hit.count))

-- The number of types: `group` has the blocks of the current group in front of the rest.
unfoldable pub count_types : List ReadBlock → List ReadBlock → List Bool → ℕ → ℕ
unfolding group_types
count_types group [] marks nt = nt
count_types group (b ∷ bs) [] nt = nt
count_types group (b ∷ bs) (false ∷ marks) nt = count_types (group ++ (b ∷ [])) bs marks nt
count_types [] (b ∷ bs) (true ∷ marks) nt = count_types [] bs marks (to_int (nt + 1))
count_types (g ∷ gs) (b ∷ bs) (true ∷ marks) nt =
    count_types [] bs marks (group_types b.info.ndim ((g ∷ gs) ++ (b ∷ [])) nt)

-- The types of a block that stands alone.
unfoldable pub single : ReadBlock → List Part
single b = elim b.zbuf [
  | some z ↦
      if ltb 0 b.hit.fsize
      then bytes (record { foff = b.hit.foff; moff = z; len = to_int b.hit.fsize }) ∷ []
      else []
  | none ↦
      if ltb 0 b.info.ndim
      then subarray b ∷ []
      else bytes (record {
        foff = add64 b.hit.foff b.hit.doff;
        moff = b.hit.xbuf;
        len = to_int b.info.esize;
      })
        ∷ []
]

-- The rows of all blocks of a group, whose last has `ndim` dimensions. Without dimensions the sizes
-- are written in front of their array; the other case is the end of the fuel for the rows.
unfoldable pub group_rows : ℕ → List ReadBlock → Result (List ReadPiece)
group_rows ndim [] = ok []
group_rows ndim (b ∷ bs) = elim (ltb 0 ndim) [
  | false ↦ err undefined_behaviour
  | true ↦ elim (break_down ndim b) [
    | none ↦ err undefined_behaviour
    | some rows ↦ group_rows ndim bs >>= λ later. ok (rows ++ later)
  ]
]

-- The pieces as arrays, and back.
abbrev pub piece_array : List ReadPiece → Offsets
piece_array ps i = get_or ps i (record { foff = 0; moff = 0; len = 0 })

abbrev pub piece_list : ℕ → ℕ → Offsets → List ReadPiece
piece_list i zero a = []
piece_list i (suc n) a = a i ∷ piece_list (suc i) n a

-- The rows of a group are sorted and adjusted for overlaps; the sort has enough fuel.
unfoldable pub sort_rows : List ReadPiece → Result (List ReadPiece × List Copy)
sort_rows rows = elim (sortoffsets (suc (length rows)) 0 (length rows) (piece_array rows)) [
  | none ↦ err undefined_behaviour
  | some a ↦ ok (adjust (length rows) (piece_list 0 (length rows) a))
]

-- A group of interleaving blocks.
unfoldable pub interleaved : ℕ → List ReadBlock → Result (List ReadPiece × List Copy)
interleaved ndim group = group_rows ndim group >>= λ rows. sort_rows rows

-- The loop that makes the types.
unfoldable pub make_types :
    List ReadBlock → List ReadBlock → List Bool → Result (List Part × List Copy)
make_types group [] marks = ok ([], [])
make_types group (b ∷ bs) [] = ok ([], [])
make_types group (b ∷ bs) (false ∷ marks) = make_types (group ++ (b ∷ [])) bs marks
make_types [] (b ∷ bs) (true ∷ marks) =
    make_types [] bs marks >>= λ later. ok (single b ++ later.0, later.1)
make_types (g ∷ gs) (b ∷ bs) (true ∷ marks) =
    interleaved b.info.ndim ((g ∷ gs) ++ (b ∷ [])) >>= λ pieces.
    make_types [] bs marks >>= λ later. ok (map bytes pieces.0 ++ later.0, pieces.1 ++ later.1)

-- `newgroup` of all blocks, of which the first is compared first.
unfoldable pub mark_groups : List ReadBlock → List Bool
unfolding newgroup
mark_groups [] = []
mark_groups (first ∷ rest) = newgroup first (first ∷ rest)

-- `H5VL_log_dataset_readi_gen_rtypes`, with `std::sort` as an argument: the room that the arrays
-- have, and what is written into them. `none` are the null types.
unfoldable pub gen_rtypes :
    (List ReadBlock → List ReadBlock) → List ReadBlock → Option (ℕ × Result (List Part × List Copy))
gen_rtypes sort [] = none
gen_rtypes sort (b ∷ bs) =
    let blocks = sort (b ∷ bs) in
    some (count_types [] blocks (mark_groups blocks) 0, make_types [] blocks (mark_groups blocks))
