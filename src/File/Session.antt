-- ===== src/File/Session.antt =====
-- src/H5VL_log_filei.cpp: the internal attribute of a file and of its subfiles, as a file is
-- created, closed and opened again.
pub mod Reopened
pub mod Paths
use vol_log_based.Prelude.{
  ℕ, zero, suc, ◌+◌, ◌-◌, ◌^◌, ◌≡◌, Bool, true, false, not, ◌&&◌, ◌||◌, Option, none, some, List,
  [], ◌∷◌, ◌++◌, ◌==◌, leb, ltb, if◌then◌else◌, bit_and, bit_or,
}
use vol_log_based.Prelude.{Result, ok, err, failed_call, throw_if, ◌>>=◌, ◌>>◌}
use vol_log_based.Config
use vol_log_based.File.Settings.{with_bit, without_bit}
use vol_log_based.File.Groups.{Place, calc_node_rank, colour}

-- The five elements of `attbuf`.
pub record Attribute : Type 0 where
  pub ndset : ℕ
  pub nldset : ℕ
  pub nmdset : ℕ
  pub config : ℕ
  pub ngroup : ℕ

-- A path, by its characters.
abbrev pub FileName : Type 0
FileName = List ℕ

-- The internal attributes of the files by their paths. A file without one is no file of the log
-- VOL.
abbrev pub Disk : Type 0
Disk = FileName → Option Attribute

-- The fields of `H5VL_log_file_t` that the functions of this file set. `sfp` is `none` where the
-- file has no subfile of its own, so that `sfp` is `uo`.
pub record File : Type 0 where
  pub name : FileName
  pub rank : ℕ
  pub np : ℕ
  pub read_only : Bool
  pub is_log_based_file : Bool
  pub attribute : Attribute
  pub numbering : Place
  pub group_rank : ℕ
  pub group_np : ℕ
  pub scount : ℕ
  pub ssize : ℕ
  pub sfp : Option FileName
  pub subname : FileName
  pub fd : Bool

-- The answers of the calls outside: of MPI (the ranks in the groups of a split by colours or by
-- nodes, the sizes of the groups and the number that a root broadcasts), of the C library for paths
-- and numbers, and whether the calls that open and make things succeed.
pub record System : Type 0 where
  pub split : (ℕ → ℕ) → ℕ → ℕ
  pub split_nodes : ℕ → ℕ
  pub group_size : ℕ → ℕ
  pub broadcast : ℕ → ℕ
  pub basename : FileName → FileName
  pub to_string : ℕ → FileName
  pub subfiles : FileName
  pub dot : FileName
  pub stripes : Option (ℕ × ℕ)
  pub folder_ready : Bool
  pub subfile_ready : Bool
  pub group_ready : Bool
  pub posix_ready : Bool
  pub mpi_ready : Bool
  pub close_ready : Bool

-- A test of a bit of `config`.
abbrev pub has : ℕ → ℕ → Bool
has bit config = not (bit_and config bit == 0)

-- An `int` above 0.
abbrev pub is_positive : ℕ → Bool
is_positive x = ltb 0 x && ltb x (2 ^ 31)

-- `H5VL_log_filei_calc_node_rank`: the split by the number of groups, or by nodes where that is
-- negative.
unfoldable pub place_in_group : System → File → File
unfolding calc_node_rank colour
place_in_group sys f =
    let ranks =
      if is_positive f.attribute.ngroup
      then sys.split (colour f.attribute.ngroup f.np)
      else sys.split_nodes in
    let numbering =
      calc_node_rank ranks sys.broadcast (has Config.data_align f.attribute.config) f.scount f.np
        f.rank f.numbering in
    record f {
      numbering = numbering;
      attribute = record f.attribute { ngroup = numbering.ngroup };
      group_rank = ranks f.rank;
      group_np = sys.group_size f.rank;
    }

-- The other branch: all processes are one group.
unfoldable pub single_group : File → File
single_group f = record f {
  attribute = record f.attribute { ngroup = 1 };
  numbering = record f.numbering { group_id = 0; ngroup = 1 };
  group_rank = f.rank;
  group_np = f.np;
}

-- `fp->config &= ~bit`.
unfoldable pub without_align : File → File
without_align f = record f {
  attribute = record f.attribute { config = without_bit Config.data_align f.attribute.config };
}

-- An attribute for a subfile, which has no subfiling flag.
unfoldable pub sub_attribute : Attribute → Attribute
sub_attribute a = record a { config = without_bit Config.subfiling a.config }

abbrev pub path_eq : FileName → FileName → Bool
path_eq [] [] = true
path_eq [] (c ∷ cs) = false
path_eq (b ∷ bs) [] = false
path_eq (b ∷ bs) (c ∷ cs) = (b == c) && path_eq bs cs

-- `H5VL_logi_add_att` and `H5VL_logi_put_att`: the attribute of one file is written.
unfoldable pub put_att : FileName → Attribute → Disk → Disk
put_att path a d p = if path_eq p path then some a else d p

-- The path of a subfile, made from the file's name for the folder and a name inside of it.
unfoldable pub subfile_path : System → FileName → FileName → ℕ → FileName
subfile_path sys name inner id = name ++ (sys.subfiles ++ (inner ++ (sys.dot ++ sys.to_string id)))

-- `H5VL_log_filei_create_subfile`, with `basename` of the name inside of the folder.
unfoldable pub create_subfile : System → Disk → File → Result (Disk × File)
create_subfile sys d f = do
  throw_if (not sys.folder_ready) failed_call
  let path = subfile_path sys f.name (sys.basename f.name) f.numbering.group_id
  throw_if (not sys.subfile_ready) failed_call
  ok (put_att path (sub_attribute f.attribute) d, record f { subname = path; sfp = some path })

-- `H5VL_log_filei_open_subfile`, with the whole name inside of the folder. The numbers of log and
-- metadata datasets are read from the attribute of the main file.
unfoldable pub open_subfile : System → Disk → File → Result File
open_subfile sys d f = do
  throw_if (not sys.folder_ready) failed_call
  let path = subfile_path sys f.name f.name f.numbering.group_id
  throw_if (not sys.subfile_ready) failed_call
  elim (d path) [
    | none ↦ err failed_call
    | some sub ↦ elim (d f.name) [
      | none ↦ err failed_call
      | some a ↦ ok (record f {
        subname = path;
        sfp = some path;
        attribute = record f.attribute { nldset = a.nldset; nmdset = a.nmdset };
      })
    ]
  ]

-- The stripes of the file system for aligned data, without which the data is not aligned.
unfoldable pub with_stripes : System → File → File
with_stripes sys f =
    if has Config.data_align f.attribute.config
    then elim sys.stripes [
      | none ↦ without_align (record f { scount = 2 ^ 32 - 1; ssize = 2 ^ 64 - 1 })
      | some (count, size) ↦
          let g = record f { scount = count; ssize = size } in
          if is_positive count && not (size == 0) then g else without_align g
    ]
    else f

-- `H5VL_log_filei_post_create`, but for the registration.
unfoldable pub post_create : System → Disk → File → Result (Disk × File)
post_create sys d f =
    let f1 = with_stripes sys f in
    let f2 =
      if has Config.data_align f1.attribute.config || has Config.subfiling f1.attribute.config
      then place_in_group sys f1
      else single_group f1 in
    (if has Config.subfiling f2.attribute.config
      then create_subfile sys d (without_align f2)
      else ok (d, record f2 { subname = f2.name; sfp = none }))
    >>= λ made.
        let f3 = made.1 in
        throw_if (not sys.group_ready) failed_call
        >> (let aligned = has Config.data_align f3.attribute.config in
            throw_if (aligned && not sys.posix_ready) failed_call
            >> (throw_if (not sys.mpi_ready) failed_call
                >> ok (put_att f3.name f3.attribute made.0, record f3 { fd = aligned })))

-- The state behind the attribute's read in `H5VL_log_filei_post_open`; the number of groups is
-- read from the element of the configuration.
unfoldable pub loaded : Attribute → File → File
loaded a f = record f {
  attribute = record a { ngroup = a.config };
  group_rank = f.rank;
  numbering = record f.numbering { group_id = 0 };
}

-- The groups in `H5VL_log_filei_post_open`.
unfoldable pub number_groups : System → File → File
number_groups sys f =
    if has Config.subfiling f.attribute.config
    then without_align (place_in_group sys f)
    else single_group f

-- `H5VL_log_filei_post_open` behind the read of the attribute, but for the index and the visit of
-- the datasets.
unfoldable pub open_log : System → Disk → Attribute → File → Result File
open_log sys d a f =
    let g = number_groups sys (loaded a f) in
    (if has Config.subfiling g.attribute.config
      then open_subfile sys d g
      else ok (record g { sfp = none; subname = g.name }))
    >>= λ h.
        throw_if (not sys.group_ready) failed_call
        >> (throw_if (not sys.mpi_ready) failed_call >> ok h)

-- `H5VL_log_filei_post_open`: a file without the attribute is no file of the log VOL.
unfoldable pub post_open : System → Disk → File → Result File
post_open sys d f = elim (d f.name) [
  | none ↦ ok (record f { is_log_based_file = false })
  | some a ↦ open_log sys d a f
]

-- The attribute of the main file of subfiles, which have all of the data.
unfoldable pub main_attribute : Attribute → Attribute
unfolding sub_attribute
main_attribute a = record a {
  nldset = 0;
  nmdset = 0;
  config = with_bit Config.subfiling (without_bit Config.subfiling a.config);
}

-- The attributes that `H5VL_log_filei_close` writes: with a subfile, the main file has no data.
unfoldable pub write_attributes : File → Disk → Disk
unfolding put_att
write_attributes f d = elim f.sfp [
  | none ↦ put_att f.name f.attribute d
  | some path ↦
      put_att f.name (main_attribute f.attribute) (put_att path (sub_attribute f.attribute) d)
]

-- What a close flushes and writes; nothing where the file was opened to be read.
unfoldable pub flushed :
    (Bool → File → Result File) → (File → Result File) → Disk → File → Result Disk
flushed flush metaflush d f =
    if f.read_only
    then ok d
    else (flush (has Config.data_align f.attribute.config) f >>= λ g.
        metaflush g >>= λ h. ok (write_attributes h d))

-- `H5VL_log_filei_close` up to the release of memory. `flush` flushes the writes, aligned or not,
-- and `metaflush` the metadata.
unfoldable pub close_file :
    System → (Bool → File → Result File) → (File → Result File) → Disk → File → Result Disk
unfolding flushed
close_file sys flush metaflush d f =
    if f.is_log_based_file
    then (flushed flush metaflush d f >>= λ d'. throw_if (not sys.close_ready) failed_call >> ok d')
    else ok d
