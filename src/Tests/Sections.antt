-- ===== src/Tests/Sections.antt =====
-- Two processes with one small entry each, and a file with a metadata dataset of two sections.
use vol_log_based.Prelude.{ℕ, ◌+◌, ◌≡◌, refl, ap, arith, List, [], ◌∷◌, ◌++◌, length, take, drop}
use vol_log_based.Prelude.{none, some, true, false, if◌then◌else◌, leb, le→leb, All}
use vol_log_based.Prelude.{Result, ok, err, ◌>>=◌, failed_call}
use vol_log_based.Prelude.Bytes.{put_le}
use vol_log_based.Request.Write.{WReq, meta_buf}
use vol_log_based.Sections.Flush.{MetaState, flush_group}
use vol_log_based.Sections.Update.{Under, IdxState, metaupdate}
use vol_log_based.Sections.Search.{read_idx_search}
use vol_log_based.Sections.Layout.{image, join_all, length-image}
use vol_log_based.Sections.Written.{flatten, sections, chunks, tiles}
use vol_log_based.Sections.Tiled.{flush_group-image}
use vol_log_based.Sections.Cover.{Holds, bodies, parse_all, metaupdate-reads}
use vol_log_based.Sections.Parts.{IsPart}
use vol_log_based.Sections.Searched.{flat, sections_of, search_each}
use vol_log_based.Sections.Complete.{read_idx_search-covers}

abbrev entry : ℕ → WReq
entry did = record {
  hdr = record { meta_size = 30; did = did; flag = 0; foff = 0; fsize = 4 };
  record_field = [];
  sel_buf = 1 ∷ (2 ∷ []);
  nsel = 1;
  meta_off = 0;
  dbufs = [];
}

abbrev process : ℕ → MetaState
process did = record {
  queue = record {
    wreqs = entry did ∷ [];
    mreqs = [];
    nflushed = 1;
    mdsize = 30;
    nldset = 1;
    metadirty = true;
    buffers = record { bsize = none; bused = 0; live = [] };
  };
  nmdset = 0;
  idxvalid = true;
  wreq_hash = [];
}

abbrev same : List ℕ → List ℕ
same xs = xs

abbrev two_by_two : List ℕ → List (ℕ × ℕ)
two_by_two [] = []
two_by_two (a ∷ []) = []
two_by_two (a ∷ (b ∷ r)) = (a, b) ∷ two_by_two r

two_by_two-flatten : (ps : List (ℕ × ℕ)) → two_by_two (flatten ps) ≡ ps
two_by_two-flatten [] = refl
two_by_two-flatten ((a, b) ∷ ps) = ap (λ r. (a, b) ∷ r) (two_by_two-flatten ps)

flush_group-image_example :
    (flush_group same two_by_two (none, some 4096) (process 3 ∷ (process 4 ∷ []))
      ≡ tiles
          (length (image (sections (process 3 ∷ (process 4 ∷ [])))))
          4096
          (process 3 ∷ (process 4 ∷ []))
          (chunks (sections (process 3 ∷ (process 4 ∷ [])))))
    × (join_all (chunks (sections (process 3 ∷ (process 4 ∷ []))))
        ≡ image (sections (process 3 ∷ (process 4 ∷ []))))
unfolding meta_buf put_le vol_log_based.Sections.Flush.found
flush_group-image_example =
    flush_group-image same two_by_two (λ xs. refl) two_by_two-flatten (none, some 4096) 4096
      (process 3) (process 4 ∷ []) refl (((refl, omega arith), tt), (((refl, omega arith), tt), tt))
      (omega arith) (omega arith)
      (omega (arith, length-image (sections (process 3 ∷ (process 4 ∷ [])))))

abbrev files : ℕ → List (List ℕ)
files i = (7 ∷ (8 ∷ (9 ∷ []))) ∷ ((5 ∷ (6 ∷ [])) ∷ [])

abbrev bytes : List ℕ
bytes = image (files 0)

abbrev under : Under
under = record {
  size = λ i. ok (length bytes);
  read = λ i start count.
      if leb (start + count) (length bytes)
      then ok (take count (drop start bytes))
      else err failed_call;
}

under-Holds : Holds under 1 files
under-Holds = record {
  sizes = λ i h. refl;
  reads = λ i start count h e. rw (le→leb (start + count) (length bytes) e) refl;
  fits = λ i h. omega (arith, length-image (files 0));
  some_section = λ i h. omega arith;
}

-- An index that keeps the bytes parsed into it, and a search that collects them.
abbrev parse : List ℕ → List ℕ → Result (List ℕ)
parse block idx = ok (idx ++ block)

abbrev clear : List ℕ → List ℕ
clear idx = []

abbrev clean : IdxState (List ℕ)
clean = record { nmdset = 1; metadirty = false; idxvalid = false; idx = 1 ∷ [] }

abbrev flush : IdxState (List ℕ) → IdxState (List ℕ)
flush s = s

abbrev search : List ℕ → List (List ℕ) → List (List ℕ)
search idx hits = idx ∷ hits

metaupdate-reads_example : metaupdate under parse clear flush clean ≡ (
    parse_all parse (bodies files 1 0) (clear clean.idx) >>= λ idx.
    ok (record clean { idx = idx; idxvalid = true }))
metaupdate-reads_example = metaupdate-reads under parse clear flush under-Holds clean refl

read_idx_search-covers_example :
    (parts : List (List (List ℕ))) × (flat parts ≡ sections_of files 1 0)
    × All (IsPart 4) parts
    × (read_idx_search under parse clear flush 4 search false 2 clean []
        ≡ some (search_each parse clear search parts clean []))
read_idx_search-covers_example =
    read_idx_search-covers under parse clear flush 4 search under-Holds 2 clean [] refl refl
      (omega arith) (omega arith)
