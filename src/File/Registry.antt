-- ===== src/File/Registry.antt =====
-- src/H5VL_log_filei.cpp and src/H5VL_log_file.cpp: the map of opened files, and the counts of
-- references to them.
pub mod Live
use vol_log_based.Prelude.{
  ℕ, zero, suc, ◌+◌, ◌-◌, Bool, true, false, not, ◌&&◌, Option, none, some, ◌==◌, if◌then◌else◌,
}
use vol_log_based.Prelude.{Result, ok, err, failed_call, undefined_behaviour, throw_if, ◌>>=◌, ◌>>◌}

-- An assignment to a key of a map.
abbrev pub put {u} : {A : Type u} → (ℕ → A) → ℕ → A → ℕ → A
put f k v i = if i == k then v else f i

-- The fields of `H5VL_log_file_t` that the functions of this file use; `ino` is `none` where
-- `has_ino` is false, and before the registration, until which the constructor leaves it unset.
pub record Handle : Type 0 where
  pub ino : Option ℕ
  pub refcnt : ℕ

-- The allocated handles by their addresses, and the map `files` from inodes to addresses.
pub record Files : Type 0 where
  pub handles : ℕ → Option Handle
  pub files : ℕ → Option ℕ

-- `H5VL_log_filei_search`, with the answer of `stat`.
unfoldable pub search_file : Option ℕ → Files → Option ℕ
search_file stat s = elim stat [ none ↦ none | some i ↦ s.files i ]

-- `H5VL_log_filei_register` of the handle at `p`.
unfoldable pub register : Option ℕ → ℕ → Handle → Files → Files
register stat p h s = elim stat [
  | some i ↦ record {
    handles = put s.handles p (some (record h { ino = some i }));
    files = put s.files i (some p);
  }
  | none ↦ record s { handles = put s.handles p (some (record h { ino = none })) }
]

-- `H5VL_log_filei_rm`.
unfoldable pub rm : Handle → Files → Files
rm h s = elim h.ino [ some i ↦ record s { files = put s.files i none } | none ↦ s ]

-- The end of `H5VL_log_filei_close`; `closed` tells whether the calls in front of it succeeded.
unfoldable pub close_handle : Bool → ℕ → Handle → Files → Result Files
unfolding rm
close_handle closed p h s = do
  throw_if (not closed) failed_call
  let s' = rm h s
  ok (record s' { handles = put s'.handles p none })

-- `H5VL_log_filei_inc_ref`, which a reopen calls.
unfoldable pub inc_ref : ℕ → Files → Result Files
inc_ref p s = elim (s.handles p) [
  | none ↦ err undefined_behaviour
  | some h ↦ ok (record s { handles = put s.handles p (some (record h { refcnt = suc h.refcnt })) })
]

-- `H5VL_log_filei_dec_ref`, which `H5VL_log_file_close` calls.
unfoldable pub dec_ref : Bool → ℕ → Files → Result Files
unfolding close_handle
dec_ref closed p s = elim (s.handles p) [
  | none ↦ err undefined_behaviour
  | some h ↦
      let fewer = record h { refcnt = h.refcnt - 1 } in
      let s' = record s { handles = put s.handles p (some fewer) } in
      if h.refcnt - 1 == 0 then close_handle closed p fewer s' else ok s'
]

-- What the calls behind an open or a create answer: `stat` before and behind it, whether the file
-- was opened by the underlying VOL, and whether the connector's ID was closed.
pub record Answers : Type 0 where
  pub before : Option ℕ
  pub behind : Option ℕ
  pub was_opened : Bool
  pub id_closed : Bool

-- `H5VL_log_file_open` with the address `p` of the new handle, which is null behind an error. An
-- error behind the registration deletes the handle.
unfoldable pub file_open : Answers → ℕ → Files → Option ℕ × Files
file_open a p s = elim (search_file a.before s) [
  | some q ↦ (none, s)
  | none ↦
      if not a.was_opened
      then (none, s)
      else let s' = register a.behind p (record { ino = none; refcnt = 1 }) s in
        if a.id_closed then (some p, s') else (none, record s' { handles = put s'.handles p none })
]

-- `H5VL_log_file_create`, which leaves the registration to `H5VL_log_filei_post_create`.
unfoldable pub file_create : Answers → ℕ → Files → Option ℕ × Files
file_create a p s = elim (search_file a.before s) [
  | some q ↦ (none, s)
  | none ↦
      if a.was_opened && a.id_closed
      then (
        some p,
        record s { handles = put s.handles p (some (record { ino = none; refcnt = 1 })) },
      )
      else (none, s)
]

-- The registration at the end of `H5VL_log_filei_post_create`.
unfoldable pub post_create_register : Option ℕ → ℕ → Files → Result Files
unfolding register
post_create_register stat p s = elim (s.handles p) [
  | none ↦ err undefined_behaviour
  | some h ↦ ok (register stat p h s)
]
