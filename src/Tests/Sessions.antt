-- ===== src/Tests/Sessions.antt =====
-- Four processes in two groups, an opened file, and a file of two groups that is closed.
use vol_log_based.Prelude.{
  ℕ, ◌+◌, ◌≡◌, ◌↔◌, refl, ap, hd, arith, true, false, Option, none, some, [], ◌∷◌, ◌%◌, ok, err,
  failed_call,
}
use vol_log_based.File.Groups.{Place, calc_node_rank, roots}
use vol_log_based.File.Groups.Chain.{calc_node_rank-Chained}
use vol_log_based.File.Registry.{Answers, file_open}
use vol_log_based.File.Registry.Live.{IsLive, no_files, here, next, opens, Reach-IsLive}
use vol_log_based.File.Session.{
  FileName, Disk, File, System, sub_attribute, main_attribute, close_file, post_open,
  create_subfile, open_subfile, subfile_path, place_in_group, loaded,
}
use vol_log_based.File.Session.Reopened.{opened_path, post_open-close_file, post_open-subfiles}
use vol_log_based.File.Session.Paths.{open_subfile-create_subfile}

abbrev nowhere : Place
nowhere = record { group_id = 0; ngroup = 0; target_ost = 0; prev_rank = none; next_rank = none }

-- Processes 0 and 1 are one group, and 2 and 3 another.
abbrev pairs : ℕ → ℕ
pairs rank = rank % 2

calc_node_rank-Chained_example :
    ((calc_node_rank pairs (λ n. n) true 1 4 0 nowhere).next_rank ≡ some 2
      ↔ (calc_node_rank pairs (λ n. n) true 1 4 2 nowhere).prev_rank ≡ some 0)
    × ((calc_node_rank pairs (λ n. n) true 1 4 0 nowhere).next_rank ≡ some 2
        → (calc_node_rank pairs (λ n. n) true 1 4 0 nowhere).target_ost
          ≡ (calc_node_rank pairs (λ n. n) true 1 4 2 nowhere).target_ost)
calc_node_rank-Chained_example =
    calc_node_rank-Chained pairs (λ n. n) 1 4 0 2 nowhere (omega arith) (omega arith) (omega arith)
      refl refl (λ n. refl)

abbrev answers : Answers
answers = record { before = some 9; behind = some 9; was_opened = true; id_closed = true }

Reach-IsLive_example : IsLive (file_open answers 7 no_files).1
Reach-IsLive_example = Reach-IsLive (next here (opens answers 7 no_files refl refl))

abbrev system : System
system = record {
  split = λ colour rank. rank % 2;
  split_nodes = λ rank. 0;
  group_size = λ rank. 2;
  broadcast = λ n. n;
  basename = λ name. name;
  to_string = λ n. (n + 48) ∷ [];
  subfiles = 47 ∷ [];
  dot = 46 ∷ [];
  stripes = none;
  folder_ready = true;
  subfile_ready = true;
  group_ready = true;
  posix_ready = true;
  mpi_ready = true;
  close_ready = true;
}

-- A file with three datasets, of which the log has two datasets of data and one of metadata.
abbrev file_of : ℕ → Option FileName → File
file_of config path = record {
  name = 97 ∷ [];
  rank = 0;
  np = 4;
  read_only = false;
  is_log_based_file = true;
  attribute = record { ndset = 3; nldset = 2; nmdset = 1; config = config; ngroup = 2 };
  numbering = nowhere;
  group_rank = 0;
  group_np = 2;
  scount = 0;
  ssize = 0;
  sfp = path;
  subname = 97 ∷ [];
  fd = false;
}

abbrev no_disk : Disk
no_disk path = none

abbrev whole_file : File
whole_file = file_of 0x03 none

post_open-close_file_example :
    (d' : Disk) × (t : File) × (close_file system (λ align f. ok f) (λ f. ok f) no_disk whole_file
      ≡ ok d')
    × (post_open system d' whole_file ≡ ok t)
    × (t.attribute.ndset ≡ 3)
    × (t.attribute.nldset ≡ 2)
    × (t.attribute.nmdset ≡ 1)
    × (t.attribute.config ≡ 0x03)
    × (t.attribute.ngroup ≡ 1)
post_open-close_file_example =
    post_open-close_file system (λ align f. ok f) (λ f. ok f) no_disk whole_file whole_file
      whole_file whole_file (refl, refl, refl, refl, refl) refl refl refl refl refl refl refl

-- The path of the first subfile.
abbrev first_subfile : FileName
first_subfile = 97 ∷ (47 ∷ (97 ∷ (46 ∷ (48 ∷ []))))

abbrev sub_file : File
sub_file = file_of 0x203 (some first_subfile)

first_path : opened_path system (main_attribute sub_file.attribute) sub_file ≡ first_subfile
unfolding subfile_path main_attribute place_in_group loaded roots
first_path = refl

post_open-subfiles_example :
    (d' : Disk) × (t : File) × (close_file system (λ align f. ok f) (λ f. ok f) no_disk sub_file
      ≡ ok d')
    × (d' first_subfile ≡ some (sub_attribute sub_file.attribute))
    × (post_open system d' sub_file ≡ ok t)
    × (t.attribute.nldset ≡ 0)
    × (t.attribute.nmdset ≡ 0)
post_open-subfiles_example =
    post_open-subfiles system (λ align f. ok f) (λ f. ok f) no_disk sub_file sub_file sub_file
      sub_file (refl, refl, refl, refl, refl) refl refl refl refl refl first_subfile refl refl
      (omega arith) first_path

-- The base name of a path in a folder.
abbrev in_folder : System
in_folder = record system { basename = λ name. 98 ∷ [] }

open_subfile-create_subfile_example :
    (d' : Disk) × (t : File) × (create_subfile in_folder no_disk whole_file ≡ ok (d', t))
    × (open_subfile in_folder d' whole_file ≡ err failed_call)
open_subfile-create_subfile_example =
    open_subfile-create_subfile in_folder no_disk whole_file whole_file
      (refl, refl, refl, refl, refl) (λ h. absurd (omega (arith, ap hd h))) refl refl refl
