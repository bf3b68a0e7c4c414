-- ===== src/Tests/Orders.antt =====
-- Blocks of one log entry: one of three rows and one column, and two beside it.
use vol_log_based.Prelude.{ℕ, ◌≡◌, refl, ◌↔◌, arith, List, [], ◌∷◌, true, false}
use vol_log_based.Selections.{lessthan}
use vol_log_based.Index.{SearchRet}
use vol_log_based.Index.Ordering.{precedes, exceeds, end_behind, interleve}
use vol_log_based.Index.Ordering.Strict.{IsStrictWeak, precedes-IsStrictWeak}
use vol_log_based.Index.Ordering.Apart.{Inside, interleve_iff}

abbrev block_at : List ℕ → List ℕ → SearchRet
block_at start sides = record {
  info = 0;
  dsize = 3 ∷ (3 ∷ []);
  dstart = start;
  msize = 3 ∷ (3 ∷ []);
  mstart = start;
  count = sides;
  xsize = 36;
  doff = 0;
  xbuf = 0;
  foff = 64;
  fsize = 36;
}

abbrev column : SearchRet
column = block_at (0 ∷ (0 ∷ [])) (3 ∷ (1 ∷ []))

abbrev corner : SearchRet
corner = block_at (0 ∷ (1 ∷ [])) (1 ∷ (1 ∷ []))

-- The corner's last element comes before the column's, and it exceeds the column.
exceeds-corner : exceeds 2 corner column ≡ true
unfolding exceeds end_behind
exceeds-corner = refl

precedes-IsStrictWeak_example : IsStrictWeak (precedes 2)
precedes-IsStrictWeak_example = precedes-IsStrictWeak 2

interleve_iff_example :
    (interleve 2 (0 ∷ (1 ∷ [])) (1 ∷ (1 ∷ [])) (1 ∷ (0 ∷ [])) ≡ false)
    ↔ ((p : List ℕ) → Inside 2 (0 ∷ (1 ∷ [])) (1 ∷ (1 ∷ [])) p → lessthan 2 p (1 ∷ (0 ∷ [])) ≡ true)
interleve_iff_example =
    interleve_iff 2 (0 ∷ (1 ∷ [])) (1 ∷ (1 ∷ [])) (1 ∷ (0 ∷ []))
      (omega arith, omega arith, (omega arith, omega arith, tt)) (omega arith, (omega arith, tt))
