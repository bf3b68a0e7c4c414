-- ===== src/Index/Represents.antt =====
-- src/H5VL_logi_idx_list.cpp, src/H5VL_logi_idx_compact.cpp: the operations of the two index
-- classes side by side.
use vol_log_based.Prelude.{ℕ, zero, suc, ◌-◌, ◌<◌, ◌≡◌, refl, ◌∙◌, sym}
use vol_log_based.Prelude.{List, [], ◌∷◌, ◌++◌, map, map-append, length, get_or, set, replicate}
use vol_log_based.Prelude.{
  length-set, length-map, length-append, ltb, if◌then◌else◌, arith, ==_iff, ◌==◌,
}
use vol_log_based.Prelude.{Bool-cases, inl, inr, length-replicate}
use vol_log_based.Meta.{MetaEntry}
use vol_log_based.Index.Array
use vol_log_based.Index.Compact
use vol_log_based.Index.Compact.{CompactEntry, own_entry}
use vol_log_based.Index.Equiv.{Represents}

get_or-set {ℓ} :
    {A : Type ℓ} (xs : List A) (i j : ℕ) (v d : A)
    → i < length xs
    → get_or (set xs i v) j d ≡ (if j == i then v else get_or xs j d)
get_or-set [] i j v d h = absurd (omega arith)
get_or-set (x ∷ xs) zero zero v d h = ground arith
get_or-set (x ∷ xs) zero (suc j) v d h = ground arith
get_or-set (x ∷ xs) (suc i) zero v d h = ground arith
get_or-set (x ∷ xs) (suc i) (suc j) v d h = ground (arith, get_or-set xs i j v d)

get_or-replicate {ℓ} : {A : Type ℓ} (n i : ℕ) (d : A) → get_or (replicate n d) i d ≡ d
get_or-replicate zero i d = refl
get_or-replicate (suc n) zero d = refl
get_or-replicate (suc n) (suc i) d = get_or-replicate n i d

get_or-append_replicate {ℓ} :
    {A : Type ℓ} (xs : List A) (n i : ℕ) (d : A) → get_or (xs ++ replicate n d) i d ≡ get_or xs i d
get_or-append_replicate [] n i d = get_or-replicate n i d
get_or-append_replicate (x ∷ xs) n zero d = refl
get_or-append_replicate (x ∷ xs) n (suc i) d = get_or-append_replicate xs n i d

abbrev empty_list {ℓ κ} : {A : Type ℓ} {B : Type κ} → A → List B
empty_list x = []

get_or-clear {ℓ κ} :
    {A : Type ℓ} {B : Type κ} (xs : List A) (i : ℕ)
    → get_or (map (empty_list {A = A} {B = B}) xs) i [] ≡ []
get_or-clear [] i = refl
get_or-clear (x ∷ xs) zero = refl
get_or-clear (x ∷ xs) (suc i) = get_or-clear xs i

-- `insert` of an entry of a dataset that both indexes have room for.
pub insert-Represents :
    (ndims : ℕ → ℕ) (a : Array.ArrayIdx) (c : Compact.CompactIdx) (meta : MetaEntry)
    → Represents ndims a c
    → meta.hdr.did < length a
    → Represents ndims (Array.insert a meta) (Compact.insert c (ndims meta.hdr.did) meta)
unfolding Array.insert Compact.insert
insert-Represents ndims a c meta (len, rep) h = (
  length-set c did _ ∙ len ∙ sym (length-set a did _),
  λ j.
      rw (get_or-set c did j _ [] (omega arith), get_or-set a did j _ [] h)
        (elim (Bool-cases (j == did)) [
          | inl e ↦ rw e (rw ((==_iff j did).0 e, map-append, rep did))
          | inr e ↦ rw e (rep j)
        ]),
)
  where
    did : ℕ
    did = meta.hdr.did

pub reserve-Represents :
    (ndims : ℕ → ℕ) (a : Array.ArrayIdx) (c : Compact.CompactIdx) (size : ℕ)
    → Represents ndims a c
    → Represents ndims (Array.reserve a size) (Compact.reserve c size)
unfolding Array.reserve Compact.reserve
reserve-Represents ndims a c size (len, rep) = rw len (elim (Bool-cases (ltb (length a) size)) [
  | inl e ↦ rw e (
    ground (
      arith,
      len,
      length-append c (replicate (size - length a) []),
      length-append a (replicate (size - length a) []),
      length-replicate {A = List CompactEntry} (size - length a) [],
      length-replicate {A = List MetaEntry} (size - length a) [],
    ),
    λ did. rw (get_or-append_replicate, get_or-append_replicate) (rep did),
  )
  | inr e ↦ rw e (len, rep)
])

pub clear-Represents :
    (ndims : ℕ → ℕ) (a : Array.ArrayIdx) (c : Compact.CompactIdx)
    → Represents ndims a c
    → Represents ndims (Array.clear a) (Compact.clear c)
unfolding Array.clear Compact.clear
clear-Represents ndims a c (len, rep) = (
  length-map _ c ∙ len ∙ sym (length-map _ a),
  λ did. rw (get_or-clear c did, get_or-clear a did),
)
