-- ===== src/File/Session/Paths.antt =====
-- src/H5VL_log_filei.cpp: the path at which a subfile is made, and that at which it is looked for.
use vol_log_based.Prelude.{
  ℕ, ◌≡◌, refl, sym, ap, ap₂, ◌∙◌, arith, true, none, some, [], ◌∷◌, ◌++◌, ◌==◌, ==_iff, &&_iff,
  Bool-cases, inl, inr,
}
use vol_log_based.Prelude.{ok, err, failed_call}
use mathlib.Core.List.{append_cancel_left, append_cancel_right}
use vol_log_based.File.Session.{
  FileName, Disk, File, System, path_eq, put_att, sub_attribute, create_subfile, open_subfile,
  subfile_path,
}
use vol_log_based.File.Session.Reopened.{IsReady, open_subfile-missing}

eq_of_path_eq : (p q : FileName) → path_eq p q ≡ true → p ≡ q
eq_of_path_eq [] [] h = refl
eq_of_path_eq [] (c ∷ cs) h = cc h
eq_of_path_eq (b ∷ bs) [] h = cc h
eq_of_path_eq (b ∷ bs) (c ∷ cs) h =
    let (e, r) = (&&_iff (b == c) (path_eq bs cs)).0 h in
    cc ((==_iff b c).0 e, eq_of_path_eq bs cs r)

inner_of_path :
    (sys : System) (name inner inner' : FileName) (id : ℕ)
    → subfile_path sys name inner id ≡ subfile_path sys name inner' id
    → inner ≡ inner'
unfolding subfile_path
inner_of_path sys name inner inner' id h =
    append_cancel_right inner inner' (sys.dot ++ sys.to_string id)
      (append_cancel_left sys.subfiles _ _ (append_cancel_left name _ _ h))

put_att-other :
    (sys : System) (name inner : FileName) (id : ℕ) (f : File) (d : Disk)
    → (inner ≡ name → ⊥)
    → d (subfile_path sys name name id) ≡ none
    → put_att
        (subfile_path sys name inner id)
        (sub_attribute f.attribute)
        d
        (subfile_path sys name name id)
      ≡ none
unfolding put_att
put_att-other sys name inner id f d other empty =
    elim (Bool-cases (path_eq (subfile_path sys name name id) (subfile_path sys name inner id))) [
      | inl e ↦ absurd (other (sym (inner_of_path sys name name inner id (eq_of_path_eq _ _ e))))
      | inr e ↦ rw e empty
    ]

-- For a file whose name is not its base name, as one in another folder, and a disk without a file
-- at the path with the whole name inside of the folder, where the calls outside succeed: the subfile
-- is made, and an open by the same name and group fails.
pub open_subfile-create_subfile :
    (sys : System) (d : Disk) (f k : File)
    → IsReady sys
    → (sys.basename f.name ≡ f.name → ⊥)
    → d (subfile_path sys f.name f.name f.numbering.group_id) ≡ none
    → k.name ≡ f.name
    → k.numbering.group_id ≡ f.numbering.group_id
    → (d' : Disk) × (t : File) × (create_subfile sys d f ≡ ok (d', t))
      × (open_subfile sys d' k ≡ err failed_call)
unfolding create_subfile
open_subfile-create_subfile sys d f k ready other empty name id =
    let made = subfile_path sys f.name (sys.basename f.name) f.numbering.group_id in
    let d' = put_att made (sub_attribute f.attribute) d in
    (
      d',
      record f { subname = made; sfp = some made },
      ground (arith, ready),
      open_subfile-missing sys d' k (
          ap d' (ap₂ (λ n i. subfile_path sys n n i) name id)
          ∙ put_att-other sys f.name (sys.basename f.name) f.numbering.group_id f d other empty),
    )
