-- ===== src/Sections/Searched.antt =====
-- src/H5VL_logi_nb.cpp: lemmas on the parts of the metadata that a search reads.
use vol_log_based.Prelude.{ℕ, zero, suc, ◌+◌, ◌≡◌, refl, ap}
use vol_log_based.Prelude.{List, [], ◌∷◌, ◌++◌, length, leb, All}
use vol_log_based.Prelude.{none, some, true, false}
use vol_log_based.Prelude.{Result, ok, ◌>>=◌, inl, inr, ◌⊎◌}
use vol_log_based.Sections.Update.{IdxState, next_part}
use vol_log_based.Sections.Layout.{join_all}
use vol_log_based.Sections.Parts.{IsPart}

-- The sections of `k` metadata datasets from number `i` on, and those of a list of parts.
abbrev pub sections_of : (ℕ → List (List ℕ)) → ℕ → ℕ → List (List ℕ)
sections_of files zero i = []
sections_of files (suc k) i = files i ++ sections_of files k (suc i)

abbrev pub flat : List (List (List ℕ)) → List (List ℕ)
flat [] = []
flat (p ∷ ps) = p ++ flat ps

abbrev pub count_of : (ℕ → List (List ℕ)) → ℕ → ℕ → ℕ
count_of files zero i = 0
count_of files (suc k) i = length (files i) + count_of files k (suc i)

-- Each part read into an empty index and searched.
abbrev pub search_each {u v} :
    {I : Type u} {H : Type v}
    → (List ℕ → I → Result I)
    → (I → I)
    → (I → H → H)
    → List (List (List ℕ))
    → IdxState I
    → H
    → Result (IdxState I × H)
search_each parse clear search [] s hits = ok (s, hits)
search_each parse clear search (p ∷ ps) s hits = parse (join_all p) (clear s.idx) >>= λ idx.
    search_each parse clear search ps (record s { idx = idx }) (search idx hits)

pub ℕ-cases : (k : ℕ) → (k ≡ 0) ⊎ ((j : ℕ) × (k ≡ suc j))
ℕ-cases zero = inl refl
ℕ-cases (suc j) = inr (j, refl)

module _ (nmdset nsec md i : ℕ) where
  pub next_end : leb nsec i ≡ true → leb nmdset (suc md) ≡ true → next_part nmdset nsec md i ≡ none
  unfolding next_part
  next_end e f = rw (e, f) refl

  pub next_dataset :
      leb nsec i ≡ true
      → leb nmdset (suc md) ≡ false
      → next_part nmdset nsec md i ≡ some (suc md, 0)
  unfolding next_part
  next_dataset e f = rw (e, f) refl

  pub next_section :
      leb nsec i ≡ false → leb nmdset md ≡ false → next_part nmdset nsec md i ≡ some (md, i)
  unfolding next_part
  next_section e f = rw (e, f) refl

-- Single sections are parts.
pub singles : List (List ℕ) → List (List (List ℕ))
singles [] = []
singles (c ∷ cs) = (c ∷ []) ∷ singles cs

pub flat-singles : (cs : List (List ℕ)) → flat (singles cs) ≡ cs
unfolding singles
flat-singles [] = refl
flat-singles (c ∷ cs) = ap (λ t. c ∷ t) (flat-singles cs)

pub singles-IsPart : (limit : ℕ) (cs : List (List ℕ)) → All (IsPart limit) (singles cs)
unfolding singles
singles-IsPart limit [] = tt
singles-IsPart limit (c ∷ cs) = (inl refl, singles-IsPart limit cs)
