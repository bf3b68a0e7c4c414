-- ===== src/Request/Outcome.antt =====
-- src/H5VL_log_dataseti.cpp: the entry of a write, whether an equal one was found or not.
use vol_log_based.Prelude.{Option-cases}
use vol_log_based.Prelude.{ℕ, ◌^◌, ◌<◌, ◌≡◌, refl, ◌∙◌}
use vol_log_based.Prelude.{List, [], ◌∷◌, length, take, All, ◌⊎◌, inl, inr}
use vol_log_based.Prelude.{Option, none, some, true, false, ◌&&◌, Bool-cases}
use vol_log_based.Prelude.{ltb, ==-self}
use vol_log_based.Meta.{has_flag, sel_deflate}
use vol_log_based.Request.Write.{WReq, hash, wreq_eq, bytes_eq}
use vol_log_based.Request.Submit.{find, refer, sel_size, dedup, compress, trim, entry_for}
use vol_log_based.Config
use vol_log_based.Request.Deduped.{
  IsMade, Refers, Plain, Own, Kept, trim-Own_plain, compress-Own, made_flags, find_lem, refer_lem,
  compress_plain, compress_made, trim-Kept, trim_word,
}

-- An entry and the table behind it, by whether an equal entry was found.
abbrev pub Outcome :
    Option (List ℕ → Option (List ℕ)) → ℕ → List WReq → WReq → WReq × List WReq → Type 0
Outcome zip mdsize table r p =
    Kept r p.0
    × (((Plain p.0 × Own zip r p.0) × ((p.1 ≡ table) ⊎ (p.1 ≡ r ∷ table)))
        ⊎ ((t : WReq) × (find r table ≡ some t) × Refers mdsize t p.0 × (p.1 ≡ table)))

-- The part behind the deduplication.
abbrev finish : Option (List ℕ → Option (List ℕ)) → WReq → ℕ → WReq
finish none d size = trim d size
finish (some z) d size = trim (compress z d size).0 (compress z d size).1

trim-Plain : (r d : WReq) (n : ℕ) → Plain d → Kept r d → Plain (trim d n) × Kept r (trim d n)
trim-Plain r d n p (a, b) = let ((a', b'), f) = trim-Kept d n in (rw f p, (a' ∙ a, b' ∙ b))

finish-Plain :
    (zip : Option (List ℕ → Option (List ℕ))) (r : WReq) (n : ℕ)
    → IsMade r
    → Plain (finish zip r n) × Kept r (finish zip r n)
finish-Plain none r n (b, c, d, f, made) =
    trim-Plain r r n (rw made (made_flags b c d f).0) (refl, refl)
finish-Plain (some z) r n made =
    let (p, k) = compress_made z r n made in trim-Plain r (compress z r n).0 (compress z r n).1 p k

finish-Own :
    (zip : Option (List ℕ → Option (List ℕ))) (r : WReq)
    → IsMade r
    → Own zip r (finish zip r (sel_size r))
finish-Own none r made = trim-Own_plain r
finish-Own (some z) r made = compress-Own z r made

trim-Refers :
    (mdsize : ℕ) (t r d : WReq)
    → Refers mdsize t d
    → Kept r d
    → Refers mdsize t (trim d 8) × Kept r (trim d 8)
trim-Refers mdsize t r d (p, w) (a, b) =
    let ((a', b'), f) = trim-Kept d 8 in ((rw f p, trim_word d ∙ w), (a' ∙ a, b' ∙ b))

finish-Refers :
    (zip : Option (List ℕ → Option (List ℕ))) (mdsize : ℕ) (t r d : WReq)
    → Refers mdsize t d
    → Kept r d
    → has_flag d.hdr.flag sel_deflate ≡ false
    → Refers mdsize t (finish zip d 8) × Kept r (finish zip d 8)
finish-Refers none mdsize t r d p k e = trim-Refers mdsize t r d p k
finish-Refers (some z) mdsize t r d p k e =
    rw (compress_plain z d 8 e) (trim-Refers mdsize t r d p k)

entry_for-finish :
    (zip : Option (List ℕ → Option (List ℕ))) (config mdsize : ℕ) (table : List WReq) (r : WReq)
    → (let (d, n, ts) = dedup config mdsize table r in
        entry_for zip config mdsize table r ≡ (finish zip d n, ts))
unfolding entry_for
entry_for-finish none config mdsize table r = refl
entry_for-finish (some z) config mdsize table r = refl

found-Refers :
    (zip : Option (List ℕ → Option (List ℕ))) (mdsize : ℕ) (t r : WReq)
    → IsMade r
    → t.meta_off < 2 ^ 64
    → mdsize < 2 ^ 64
    → Refers mdsize t (finish zip (refer mdsize t r) 8) × Kept r (finish zip (refer mdsize t r) 8)
found-Refers zip mdsize t r made ht hm =
    let (q, j, d) = refer_lem mdsize t r made ht hm in
    finish-Refers zip mdsize t r (refer mdsize t r) q j d

-- Where an equal entry is found the entry refers to it.
pub entry_for_found :
    (zip : Option (List ℕ → Option (List ℕ))) (config mdsize : ℕ) (table : List WReq) (t r : WReq)
    → IsMade r
    → t.meta_off < 2 ^ 64
    → mdsize < 2 ^ 64
    → (has_flag config Config.metadata_share && ltb 8 (sel_size r)) ≡ true
    → find r table ≡ some t
    → Refers mdsize t (entry_for zip config mdsize table r).0
unfolding dedup
entry_for_found zip config mdsize table t r made ht hm e f =
    rw (entry_for-finish zip config mdsize table r)
      (rw (e, f, dedup) (found-Refers zip mdsize t r made ht hm).0)

pub entry_for_lem :
    (zip : Option (List ℕ → Option (List ℕ))) (config mdsize : ℕ) (table : List WReq) (r : WReq)
    → IsMade r
    → All (λ (t : WReq). t.meta_off < 2 ^ 64) table
    → mdsize < 2 ^ 64
    → Outcome zip mdsize table r (entry_for zip config mdsize table r)
unfolding dedup
entry_for_lem zip config mdsize table r made fits hm =
    let (plain, k) = finish-Plain zip r (sel_size r) made in
    let own = finish-Own zip r made in
    rw (entry_for-finish zip config mdsize table r)
      (elim (Bool-cases (has_flag config Config.metadata_share && ltb 8 (sel_size r))) [
        | inr e ↦ rw (e, dedup) (k, inl ((plain, own), inl refl))
        | inl e ↦ elim (Option-cases (find r table)) [
          | inl f ↦ rw (e, f, dedup) (k, inl ((plain, own), inr refl))
          | inr f ↦
              let ht = (find_lem _ r table fits f.1).0 in
              let (q, j) = found-Refers zip mdsize f.0 r made ht hm in
              rw (e, f.1, dedup) (j, inr (f.0, refl, q, refl))
        ]
      ])

bytes_eq_self : (bs : List ℕ) → bytes_eq bs (take (length bs) bs) ≡ true
unfolding bytes_eq
bytes_eq_self [] = refl
bytes_eq_self (b ∷ bs) = rw (==-self b) (bytes_eq_self bs)

-- A request is found in a table that it was put in last.
pub find_self : (r : WReq) (ts : List WReq) → find r (r ∷ ts) ≡ some r
unfolding find wreq_eq
find_self r ts = rw (==-self (hash r), ==-self r.hdr.meta_size, bytes_eq_self r.sel_buf) refl

-- Where none is found the request is put in the table.
pub table_grows :
    (zip : Option (List ℕ → Option (List ℕ))) (config mdsize : ℕ) (table : List WReq) (r : WReq)
    → (has_flag config Config.metadata_share && ltb 8 (sel_size r)) ≡ true
    → find r table ≡ none
    → (entry_for zip config mdsize table r).1 ≡ r ∷ table
unfolding dedup
table_grows zip config mdsize table r e f =
    rw (entry_for-finish zip config mdsize table r) (rw (e, f, dedup) refl)
