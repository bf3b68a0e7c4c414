-- ===== src/Transfer/Scalar.antt =====
-- src/H5VL_log_dataseti.cpp: two reads of one scalar entry.
use vol_log_based.Prelude.{ℕ, ◌≡◌, refl, arith, List, [], ◌∷◌, true, false, none, some}
use vol_log_based.Prelude.{err, undefined_behaviour}
use vol_log_based.Index.Ordering.{interleve}
use vol_log_based.Transfer.Rows.{ReadBlock}
use vol_log_based.Transfer.Types.{
  newgroup, mark_groups, group_rows, interleaved, make_types, count_types, gen_rtypes,
}

interleve_flat : (n : ℕ) (sa ca sb : List ℕ) → n ≡ 0 → interleve n sa ca sb ≡ true
unfolding interleve
interleve_flat n sa ca sb e = rw e refl

group_rows_flat :
    (n : ℕ) (b : ReadBlock) (bs : List ReadBlock)
    → n ≡ 0
    → group_rows n (b ∷ bs) ≡ err undefined_behaviour
unfolding group_rows
group_rows_flat n b bs e = rw (e, group_rows) refl

one_group :
    (b c : ReadBlock)
    → b.info.ndim ≡ 0
    → b.zbuf ≡ none
    → b.hit.foff ≡ c.hit.foff
    → b.hit.doff ≡ c.hit.doff
    → mark_groups (b ∷ (c ∷ [])) ≡ false ∷ (true ∷ [])
unfolding mark_groups newgroup
one_group b c n z f d =
    let meets = interleve_flat b.info.ndim b.hit.dstart b.hit.count c.hit.dstart n in
    ground (arith, meets)

-- For two blocks without dimensions or filters that the sort returns and that stand at one place of
-- the file: the types of the read are not defined.
pub gen_rtypes-scalars :
    (sort : List ReadBlock → List ReadBlock) (b c b' c' : ReadBlock)
    → sort (b ∷ (c ∷ [])) ≡ b' ∷ (c' ∷ [])
    → b'.info.ndim ≡ 0
    → c'.info.ndim ≡ 0
    → b'.zbuf ≡ none
    → b'.hit.foff ≡ c'.hit.foff
    → b'.hit.doff ≡ c'.hit.doff
    → (room : ℕ) × (gen_rtypes sort (b ∷ (c ∷ [])) ≡ some (room, err undefined_behaviour))
unfolding gen_rtypes make_types interleaved
gen_rtypes-scalars sort b c b' c' e n m z f d = (
  count_types [] (b' ∷ (c' ∷ [])) (mark_groups (b' ∷ (c' ∷ []))) 0,
  rw (e, one_group b' c' n z f d) (rw (group_rows_flat c'.info.ndim b' (c' ∷ []) m) refl),
)
