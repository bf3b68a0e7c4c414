-- ===== src/Sections/Update.antt =====
-- src/H5VL_log_filei_meta.cpp: `H5VL_log_filei_metaupdate` and `H5VL_log_filei_metaupdate_part`,
-- which read the metadata datasets into the index.
use vol_log_based.Prelude.{ℕ, zero, suc, ◌+◌, ◌-◌, List, [], ◌∷◌, get_or}
use vol_log_based.Prelude.{Option, none, some, Bool, true, drop, if◌then◌else◌}
use vol_log_based.Prelude.{Result, ok, ◌>>=◌, ◌>>◌, throw_if, invalid_section}
use vol_log_based.Prelude.{out_of_buffer}
use vol_log_based.Prelude.{ltb, leb, sub64, mul64}
use vol_log_based.Prelude.Bytes.{get_le}
use vol_log_based.Meta.Codec.{get_words}

-- The calls that open the metadata dataset of a number and ask for its size, and that read bytes
-- of it from an offset on.
pub record Under : Type 0 where
  pub size : ℕ → Result ℕ
  pub read : ℕ → ℕ → ℕ → Result (List ℕ)

-- The fields of `H5VL_log_file_t` that the functions use, over a type of indexes.
pub record IdxState {u} (I : Type u) : Type u where
  pub nmdset : ℕ
  pub metadirty : Bool
  pub idxvalid : Bool
  pub idx : I

module _ {u} {I : Type u} (under : Under) (parse_block : List ℕ → I → Result I) (clear : I → I)
    (flush : IdxState I → IdxState I) where
  -- `if (fp->metadirty) metaflush`, and `fp->idx->clear ()`.
  unfoldable pub ready : IdxState I → IdxState I
  ready s = let t = if s.metadirty then flush s else s in record t { idx = clear t.idx }

  -- One metadata dataset: what is behind the map of its sections.
  unfoldable pub update_dataset : ℕ → I → Result I
  update_dataset i idx = do
    mdsize ← under.size i
    nsec ← under.read i 0 8
    let start = mul64 8 (get_le 8 nsec + 1)
    buf ← under.read i start (sub64 mdsize start)
    parse_block buf idx

  -- The loop over the metadata datasets, of which `n` are left.
  unfoldable pub update_from : ℕ → ℕ → I → Result I
  unfolding update_dataset
  update_from zero i idx = ok idx
  update_from (suc n) i idx = update_dataset i idx >>= update_from n (suc i)

  unfoldable pub metaupdate : IdxState I → Result (IdxState I)
  unfolding ready update_from
  metaupdate s =
      let t = ready s in
      update_from t.nmdset 0 t.idx >>= λ idx. ok (record t { idx = idx; idxvalid = true })

-- The loop that counts the sections that fit: it stops at the first whose end is too far from
-- `start`. The list is the ends of the sections from `i` on.
unfoldable pub fitting : ℕ → ℕ → ℕ → List ℕ → ℕ
fitting limit start i [] = i
fitting limit start i (o ∷ os) =
    let rest = fitting limit start (suc i) os in if ltb limit (sub64 o start) then i else rest

-- The place behind the sections up to `i`; `none` is -1, the end of the metadata datasets.
unfoldable pub next_part : ℕ → ℕ → ℕ → ℕ → Option (ℕ × ℕ)
next_part nmdset nsec md i =
    if leb nsec i
    then if leb nmdset (suc md) then none else some (suc md, 0)
    else if leb nmdset md
    then none
    else some (md, i)

-- The begin of a section: the first stands behind the map.
unfoldable pub section_begin : ℕ → List ℕ → ℕ → ℕ
section_begin nsec offs zero = mul64 8 (nsec + 1)
section_begin nsec offs (suc sec) = get_or offs sec 0

module _ {u} {I : Type u} (under : Under) (parse_block : List ℕ → I → Result I) (clear : I → I)
    (flush : IdxState I → IdxState I) (mbuf_size : ℕ) where
  -- The sections of dataset `md` from `sec` on that fit in the limit, at least one, are read; with
  -- the place of the next call.
  unfoldable pub read_part : IdxState I → ℕ → ℕ → Result (IdxState I × Option (ℕ × ℕ))
  unfolding fitting next_part section_begin get_words
  read_part s md sec = do
    mdsize ← under.size md
    first ← under.read md 0 8
    let nsec = get_le 8 first
    ends ← under.read md 8 (mul64 8 nsec)
    let offs = get_words nsec ends
    throw_if (leb nsec sec) invalid_section
    let start = section_begin nsec offs sec
    let i = fitting mbuf_size start (suc sec) (drop (suc sec) offs)
    throw_if (leb i sec) out_of_buffer
    buf ← under.read md start (sub64 (get_or offs (i - 1) 0) start)
    idx ← parse_block buf s.idx
    ok (record s { idx = idx }, next_part s.nmdset nsec md i)

  -- They are read into an empty index.
  unfoldable pub metaupdate_part : IdxState I → ℕ → ℕ → Result (IdxState I × Option (ℕ × ℕ))
  unfolding ready read_part
  metaupdate_part s md sec = read_part (ready under parse_block clear flush s) md sec
