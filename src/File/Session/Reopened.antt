-- ===== src/File/Session/Reopened.antt =====
-- src/H5VL_log_filei.cpp: what a file that was closed has when it is opened again.
use vol_log_based.Prelude.{
  ℕ, zero, suc, ◌≡◌, ◌<◌, refl, ap, ◌∙◌, arith, Bool, true, false, ◌&&◌, none, some, [], ◌∷◌, ◌^◌,
  ==-self, &&_iff,
}
use vol_log_based.Prelude.{Result, ok, err, failed_call}
use vol_log_based.Config
use vol_log_based.File.Settings.{with_bit, without_bit}
use vol_log_based.File.Session.{
  Attribute, FileName, Disk, File, System, has, path_eq, put_att, sub_attribute, write_attributes,
  flushed, main_attribute, close_file, post_open, open_log, loaded, number_groups, single_group,
  place_in_group, without_align, open_subfile, subfile_path,
}

path_eq_self : (p : FileName) → path_eq p p ≡ true
path_eq_self [] = refl
path_eq_self (c ∷ cs) = rw (==-self c, path_eq_self cs) refl

-- All calls that open, make and close things succeed.
abbrev pub IsReady : System → Type 0
IsReady sys =
    (sys.folder_ready ≡ true)
    × (sys.subfile_ready ≡ true)
    × (sys.group_ready ≡ true)
    × (sys.mpi_ready ≡ true)
    × (sys.close_ready ≡ true)

flushed-written :
    (flush : Bool → File → Result File) (metaflush : File → Result File) (d : Disk) (f g h : File)
    → f.read_only ≡ false
    → flush (has Config.data_align f.attribute.config) f ≡ ok g
    → metaflush g ≡ ok h
    → flushed flush metaflush d f ≡ ok (write_attributes h d)
unfolding flushed
flushed-written flush metaflush d f g h writes e e' = ground (arith, writes, e, e')

close_file-written :
    (sys : System) (flush : Bool → File → Result File) (metaflush : File → Result File) (d : Disk)
    (f g h : File)
    → IsReady sys
    → f.is_log_based_file ≡ true
    → f.read_only ≡ false
    → flush (has Config.data_align f.attribute.config) f ≡ ok g
    → metaflush g ≡ ok h
    → close_file sys flush metaflush d f ≡ ok (write_attributes h d)
unfolding close_file
close_file-written sys flush metaflush d f g h ready log writes e e' =
    ground (arith, log, flushed-written flush metaflush d f g h writes e e', ready.4)

-- The attribute without a subfile.
attribute-written :
    (h : File) (d : Disk) → h.sfp ≡ none → write_attributes h d h.name ≡ some h.attribute
unfolding write_attributes put_att
attribute-written h d e = ground (arith, e, path_eq_self h.name)

-- The state of a file without subfiles.
abbrev plain_state : Attribute → File → File
plain_state a k = record k {
  attribute = record a { ngroup = 1 };
  numbering = record k.numbering { group_id = 0; ngroup = 1 };
  group_rank = k.rank;
  group_np = k.np;
  sfp = none;
  subname = k.name;
}

open_log-plain :
    (sys : System) (d : Disk) (a : Attribute) (k : File)
    → IsReady sys
    → has Config.subfiling a.config ≡ false
    → open_log sys d a k ≡ ok (plain_state a k)
unfolding open_log number_groups single_group loaded
open_log-plain sys d a k ready whole = ground (arith, ready, whole)

post_open-found :
    (sys : System) (d : Disk) (a : Attribute) (k : File)
    → d k.name ≡ some a
    → post_open sys d k ≡ open_log sys d a k
unfolding post_open
post_open-found sys d a k e = rw (post_open, e) refl

-- The main file of subfiles keeps the flag, also without the one for aligned data.
flags_kept : ℕ → Bool
flags_kept c =
    has Config.subfiling (with_bit Config.subfiling (without_bit Config.subfiling c))
    && has Config.subfiling
        (without_bit Config.data_align (with_bit Config.subfiling (without_bit Config.subfiling c)))

all_below : ℕ → (ℕ → Bool) → Bool
all_below zero p = true
all_below (suc n) p = p n && all_below n p

all_below-lt : (n : ℕ) (p : ℕ → Bool) (x : ℕ) → all_below n p ≡ true → x < n → p x ≡ true
unfolding all_below
all_below-lt zero p x h lt = absurd (omega (arith, lt))
all_below-lt (suc n) p x h lt = ground (arith, all_below-lt n p x)

flags_table : all_below (2 ^ 11) flags_kept ≡ true
unfolding all_below flags_kept
flags_table = refl

flags :
    (c : ℕ)
    → c < 2 ^ 11
    → let c' = with_bit Config.subfiling (without_bit Config.subfiling c) in
      (has Config.subfiling c' ≡ true)
      × (has Config.subfiling (without_bit Config.data_align c') ≡ true)
unfolding flags_kept
flags c h = (&&_iff _ _).0 (all_below-lt (2 ^ 11) flags_kept c flags_table h)

-- The path at which a subfile is looked for.
abbrev pub opened_path : System → Attribute → File → FileName
opened_path sys a k =
    subfile_path sys k.name k.name (place_in_group sys (loaded a k)).numbering.group_id

open_subfile-found :
    (sys : System) (d : Disk) (a b : Attribute) (k : File)
    → IsReady sys
    → d k.name ≡ some a
    → d (subfile_path sys k.name k.name k.numbering.group_id) ≡ some b
    → open_subfile sys d k
      ≡ ok (record k {
        subname = subfile_path sys k.name k.name k.numbering.group_id;
        sfp = some (subfile_path sys k.name k.name k.numbering.group_id);
        attribute = record k.attribute { nldset = a.nldset; nmdset = a.nmdset };
      })
unfolding open_subfile
open_subfile-found sys d a b k ready e f = ground (arith, ready, e, f)

pub open_subfile-missing :
    (sys : System) (d : Disk) (k : File)
    → d (subfile_path sys k.name k.name k.numbering.group_id) ≡ none
    → open_subfile sys d k ≡ err failed_call
unfolding open_subfile
open_subfile-missing sys d k f = ground (arith, f)

open_log-placed :
    (sys : System) (d : Disk) (a : Attribute) (k g h : File)
    → IsReady sys
    → number_groups sys (loaded a k) ≡ g
    → has Config.subfiling g.attribute.config ≡ true
    → open_subfile sys d g ≡ ok h
    → open_log sys d a k ≡ ok h
unfolding open_log
open_log-placed sys d a k g h ready e sub f = rw (open_log, e) (ground (arith, ready, sub, f))

number_groups-subfiling :
    (sys : System) (a : Attribute) (k : File)
    → has Config.subfiling a.config ≡ true
    → number_groups sys (loaded a k) ≡ without_align (place_in_group sys (loaded a k))
unfolding number_groups loaded
number_groups-subfiling sys a k sub = ground (arith, sub)

open_log-subfile :
    (sys : System) (d : Disk) (a b : Attribute) (k : File)
    → IsReady sys
    → has Config.subfiling a.config ≡ true
    → has Config.subfiling (without_bit Config.data_align a.config) ≡ true
    → d k.name ≡ some a
    → d (opened_path sys a k) ≡ some b
    → (t : File) × (open_log sys d a k ≡ ok t)
      × (t.attribute.nldset ≡ a.nldset)
      × (t.attribute.nmdset ≡ a.nmdset)
unfolding without_align loaded place_in_group
open_log-subfile sys d a b k ready sub sub' e f =
    let g = without_align (place_in_group sys (loaded a k)) in
    let found = open_subfile-found sys d a b g ready e f in
    let t = record g {
      subname = opened_path sys a k;
      sfp = some (opened_path sys a k);
      attribute = record g.attribute { nldset = a.nldset; nmdset = a.nmdset };
    } in
    (
      t,
      open_log-placed sys d a k g t ready (number_groups-subfiling sys a k sub) sub' found,
      refl,
      refl,
    )

subfile-written :
    (h : File) (d : Disk) (path : FileName)
    → h.sfp ≡ some path
    → path_eq path h.name ≡ false
    → (write_attributes h d h.name ≡ some (main_attribute h.attribute))
      × (write_attributes h d path ≡ some (sub_attribute h.attribute))
unfolding write_attributes put_att
subfile-written h d path e n =
    (ground (arith, e, path_eq_self h.name), ground (arith, e, n, path_eq_self path))

module _ (a : Attribute) where
  main-nldset : (main_attribute a).nldset ≡ 0
  unfolding main_attribute
  main-nldset = refl

  main-nmdset : (main_attribute a).nmdset ≡ 0
  unfolding main_attribute
  main-nmdset = refl

  main-flag :
      has Config.subfiling (with_bit Config.subfiling (without_bit Config.subfiling a.config))
        ≡ true
      → has Config.subfiling (main_attribute a).config ≡ true
  unfolding main_attribute
  main-flag h = h

  main-flag_align :
      has Config.subfiling (
          without_bit Config.data_align
            (with_bit Config.subfiling (without_bit Config.subfiling a.config)))
        ≡ true
      → has Config.subfiling (without_bit Config.data_align (main_attribute a).config) ≡ true
  unfolding main_attribute
  main-flag_align h = h

module _ (sys : System) (flush : Bool → File → Result File) (metaflush : File → Result File)
    (d : Disk) (f g h k : File) (ready : IsReady sys) (log : f.is_log_based_file ≡ true)
    (writes : f.read_only ≡ false) (e : flush (has Config.data_align f.attribute.config) f ≡ ok g)
    (e' : metaflush g ≡ ok h) (named : k.name ≡ h.name) where
  -- A file without subfiles that is closed and open_log again.
  pub post_open-close_file :
      h.sfp ≡ none
      → has Config.subfiling h.attribute.config ≡ false
      → (d' : Disk) × (t : File) × (close_file sys flush metaflush d f ≡ ok d')
        × (post_open sys d' k ≡ ok t)
        × (t.attribute.ndset ≡ h.attribute.ndset)
        × (t.attribute.nldset ≡ h.attribute.nldset)
        × (t.attribute.nmdset ≡ h.attribute.nmdset)
        × (t.attribute.config ≡ h.attribute.config)
        × (t.attribute.ngroup ≡ 1)
  post_open-close_file plain whole =
      let d' = write_attributes h d in
      let found : write_attributes h d k.name ≡ some h.attribute =
        ap (write_attributes h d) named ∙ attribute-written h d plain in
      (
        write_attributes h d,
        plain_state h.attribute k,
        close_file-written sys flush metaflush d f g h ready log writes e e',
        post_open-found sys d' h.attribute k found
            ∙ open_log-plain sys d' h.attribute k ready whole,
        refl,
        refl,
        refl,
        refl,
        refl,
      )

  -- A file with subfiles that is closed and open_log again, with the same path for the subfile.
  pub post_open-subfiles :
      (path : FileName)
      → h.sfp ≡ some path
      → path_eq path h.name ≡ false
      → h.attribute.config < 2 ^ 11
      → opened_path sys (main_attribute h.attribute) k ≡ path
      → (d' : Disk) × (t : File) × (close_file sys flush metaflush d f ≡ ok d')
        × (d' path ≡ some (sub_attribute h.attribute))
        × (post_open sys d' k ≡ ok t)
        × (t.attribute.nldset ≡ 0)
        × (t.attribute.nmdset ≡ 0)
  post_open-subfiles path plain other small same =
      let d' = write_attributes h d in
      let (whole, whole') = flags h.attribute.config small in
      let main : write_attributes h d k.name ≡ some (main_attribute h.attribute) =
        ap (write_attributes h d) named ∙ (subfile-written h d path plain other).0 in
      let sub = (subfile-written h d path plain other).1 in
      let (t, o, l, m) =
        open_log-subfile sys d' (main_attribute h.attribute) (sub_attribute h.attribute) k ready
          (main-flag h.attribute whole) (main-flag_align h.attribute whole') main
          (ap d' same ∙ sub) in
      (
        d',
        t,
        close_file-written sys flush metaflush d f g h ready log writes e e',
        sub,
        post_open-found sys d' (main_attribute h.attribute) k main ∙ o,
        l ∙ main-nldset h.attribute,
        m ∙ main-nmdset h.attribute,
      )
