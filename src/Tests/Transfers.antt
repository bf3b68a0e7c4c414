-- ===== src/Tests/Transfers.antt =====
-- The pieces of a read: three pieces out of order, a block of two rows, and blocks of one entry.
use vol_log_based.Prelude.{
  ℕ, ◌+◌, ◌-◌, ◌≤◌, ◌≡◌, ◌↔◌, refl, arith, List, [], ◌∷◌, map, length, none, some, ok, err,
  undefined_behaviour,
}
use vol_log_based.Transfer.{ReadPiece}
use vol_log_based.Transfer.Sort.{sortoffsets}
use vol_log_based.Transfer.Bubble.{IsSortOf}
use vol_log_based.Transfer.Sorted.{sortoffsets-IsSortOf}
use vol_log_based.Transfer.Rows.{ReadBlock, row_piece, break_down, positions}
use vol_log_based.Transfer.Nested.{nested, break_down-nested}
use vol_log_based.Transfer.Trim.{Copy, copy_ctx}
use vol_log_based.Transfer.Types.{Part, piece_array, sort_rows, gen_rtypes}
use vol_log_based.Transfer.Disjoint.{Behind, EachPair, copy_ctx_iff}
use vol_log_based.Transfer.Room.{sort_rows-EachPair, gen_rtypes-Fits}
use vol_log_based.Transfer.Scalar.{gen_rtypes-scalars}

abbrev piece : ℕ → ℕ → ℕ → ReadPiece
piece f m n = record { foff = f; moff = m; len = n }

abbrev three : List ReadPiece
three = piece 20 0 10 ∷ (piece 5 100 10 ∷ (piece 12 200 20 ∷ []))

sortoffsets-IsSortOf_example :
    IsSortOf 0 (0 + 3) (piece_array three) (sortoffsets 4 0 3 (piece_array three))
sortoffsets-IsSortOf_example = sortoffsets-IsSortOf 4 0 3 (piece_array three) (omega arith)

sort_rows-EachPair_example :
    (pieces : List ReadPiece) × (copies : List Copy) × (sort_rows three ≡ ok (pieces, copies))
    × EachPair Behind pieces
    × (length pieces ≡ length three)
sort_rows-EachPair_example =
    sort_rows-EachPair three
      ((omega arith, omega arith), ((omega arith, omega arith), ((omega arith, omega arith), tt)))

copy_ctx_iff_example :
    ((copy_ctx (piece 0 1000 100) (piece 10 2000 20)).src ≡ 1000 + (10 - 0)) ↔ (0 + 100 ≤ 10 + 20)
copy_ctx_iff_example =
    copy_ctx_iff (piece 0 1000 100) (piece 10 2000 20) (omega arith, omega arith)
      (omega arith, omega arith) (omega arith) (omega arith)

-- A block of an entry of 4 by 3 elements of 8 bytes.
abbrev block : ℕ → ℕ → ReadBlock
block row column = record {
  hit = record {
    info = 0;
    dsize = 4 ∷ (3 ∷ []);
    dstart = row ∷ (column ∷ []);
    msize = 2 ∷ (2 ∷ []);
    mstart = 0 ∷ (0 ∷ []);
    count = 2 ∷ (2 ∷ []);
    xsize = 96;
    doff = 0;
    xbuf = 5000;
    foff = 64;
    fsize = 96;
  };
  info = record {
    ndim = 2;
    esize = 8;
    dims = 4 ∷ (3 ∷ []);
    mdims = 4 ∷ (3 ∷ []);
    dsteps = 3 ∷ (1 ∷ []);
  };
  zbuf = none;
}

break_down-nested_example :
    break_down 2 (block 1 0) ≡ some (map (row_piece 2 (block 1 0)) (nested 1 (2 ∷ (2 ∷ []))))
break_down-nested_example = break_down-nested 1 (block 1 0) (omega arith, (omega arith, tt))

gen_rtypes-Fits_example :
    (room : ℕ) × (parts : List Part) × (copies : List Copy) × (gen_rtypes
        (λ bs. bs)
        (block 0 0 ∷ (block 0 1 ∷ []))
      ≡ some (room, ok (parts, copies)))
    × (length parts ≤ room)
unfolding positions
gen_rtypes-Fits_example =
    gen_rtypes-Fits 1 (λ bs. bs) (block 0 0) (block 0 1 ∷ [])
      ((refl, (omega arith, (omega arith, tt))), ((refl, (omega arith, (omega arith, tt))), tt))
      (omega arith)

-- A block of a scalar entry.
abbrev scalar : ℕ → ReadBlock
scalar to = record {
  hit = record {
    info = 0;
    dsize = [];
    dstart = [];
    msize = [];
    mstart = [];
    count = [];
    xsize = 8;
    doff = 0;
    xbuf = to;
    foff = 64;
    fsize = 8;
  };
  info = record { ndim = 0; esize = 8; dims = []; mdims = []; dsteps = [] };
  zbuf = none;
}

gen_rtypes-scalars_example :
    (room : ℕ) × (gen_rtypes (λ bs. bs) (scalar 5000 ∷ (scalar 6000 ∷ []))
      ≡ some (room, err undefined_behaviour))
gen_rtypes-scalars_example =
    gen_rtypes-scalars (λ bs. bs) (scalar 5000) (scalar 6000) (scalar 5000) (scalar 6000) refl refl
      refl refl refl refl
