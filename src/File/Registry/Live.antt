-- ===== src/File/Registry/Live.antt =====
-- src/H5VL_log_filei.cpp: the map of opened files points to live handles.
use vol_log_based.Prelude.{
  ℕ, suc, ◌≡◌, refl, sym, ap, subst, ◌∙◌, arith, Bool-cases, inl, inr, ◌⊎◌, ◌-◌,
}
use vol_log_based.Prelude.{Bool, true, false, ◌&&◌, Option, none, some, ◌==◌, ==_iff, Option-cases}
use vol_log_based.Prelude.{Result, ok}
use vol_log_based.File.Registry.{
  put, Handle, Files, search_file, register, rm, close_handle, inc_ref, dec_ref, Answers, file_open,
  file_create, post_create_register,
}

-- Every entry of the map is a live handle that knows its inode.
abbrev pub IsLive : Files → Type 0
IsLive s = (i p : ℕ) → s.files i ≡ some p → (h : Handle) × (s.handles p ≡ some h) × (h.ino ≡ some i)

-- No entry of the map is the handle at `p`.
abbrev IsUnlisted : ℕ → Files → Type 0
IsUnlisted p s = (i : ℕ) → s.files i ≡ some p → ⊥

abbrev pub no_files : Files
no_files = record { handles = λ p. none; files = λ i. none }

some_inj {ℓ} : {A : Type ℓ} (a b : A) → ◌≡◌ {A = Option A} (some a) (some b) → a ≡ b
some_inj a b h = cc h

ok_inj {ℓ} : {A : Type ℓ} (a b : A) → ◌≡◌ {A = Result A} (ok a) (ok b) → a ≡ b
ok_inj a b h = cc h

pub put-cases {ℓ} :
    {A : Type ℓ} (f : ℕ → A) (k : ℕ) (v : A) (i : ℕ)
    → ((i ≡ k) × (put f k v i ≡ v)) ⊎ ((i ≡ k → ⊥) × (put f k v i ≡ f i))
put-cases f k v i = elim (Bool-cases (i == k)) [
  | inl e ↦ inl ((==_iff i k).0 e, rw e refl)
  | inr e ↦ inr (λ h. ground (arith, e, h), rw e refl)
]

pub put_self {ℓ} : {A : Type ℓ} (f : ℕ → A) (k : ℕ) (v : A) → put f k v k ≡ v
put_self f k v = rw ((==_iff k k).1 refl) refl

fresh-IsUnlisted : (p : ℕ) (s : Files) → IsLive s → s.handles p ≡ none → IsUnlisted p s
fresh-IsUnlisted p s live fresh i e = let (h, at, ino) = live i p e in cc (at, fresh)

unregistered-IsUnlisted :
    (p : ℕ) (h : Handle) (s : Files)
    → IsLive s
    → s.handles p ≡ some h
    → h.ino ≡ none
    → IsUnlisted p s
unregistered-IsUnlisted p h s live at e i f =
    let (h', at', ino) = live i p f in
    let same = some_inj h h' (sym at ∙ at') in cc (e, ino, ap (λ (x : Handle). x.ino) same)

-- A handle that is not in the map may change.
other-IsLive :
    (p : ℕ) (x : Option Handle) (s : Files)
    → IsUnlisted p s
    → IsLive s
    → IsLive (record s { handles = put s.handles p x })
other-IsLive p x s un live i q e = elim (put-cases s.handles p x q) [
  | inl (at, v) ↦ absurd (un i (rw at at e))
  | inr (n, v) ↦ rw v (live i q e)
]

register-IsLive :
    (stat : Option ℕ) (p : ℕ) (h : Handle) (s : Files)
    → IsUnlisted p s
    → IsLive s
    → IsLive (register stat p h s)
unfolding register
register-IsLive none p h s un live = other-IsLive p (some (record h { ino = none })) s un live
register-IsLive (some j) p h s un live = λ i q e. elim (put-cases s.files j (some p) i) [
  | inl (at, v) ↦
      let same = some_inj p q (sym v ∙ e) in
      let here : put s.handles p (some (record h { ino = some j })) p
          ≡ some (record h { ino = some j }) =
        put_self s.handles p (some (record h { ino = some j })) in
      (record h { ino = some j }, rw (sym same) here, rw at refl)
  | inr (n, v) ↦ other-IsLive p (some (record h { ino = some j })) s un live i q (sym v ∙ e)
]

-- A handle may change but for its inode.
same-IsLive :
    (p : ℕ) (h h' : Handle) (s : Files)
    → s.handles p ≡ some h
    → h'.ino ≡ h.ino
    → IsLive s
    → IsLive (record s { handles = put s.handles p (some h') })
same-IsLive p h h' s at same live i q e = elim (put-cases s.handles p (some h') q) [
  | inl (here, v) ↦
      let (k, at', ino) = live i q e in
      let one = some_inj h k (sym at ∙ ap s.handles (sym here) ∙ at') in
      (h', v, same ∙ ap (λ (x : Handle). x.ino) one ∙ ino)
  | inr (n, v) ↦ rw v (live i q e)
]

-- The entry of a handle is taken out with the handle.
removed-IsLive :
    (p i : ℕ) (h : Handle) (s : Files)
    → s.handles p ≡ some h
    → h.ino ≡ some i
    → IsLive s
    → IsLive (record { handles = put s.handles p none; files = put s.files i none })
removed-IsLive p i h s at ino live j q e = elim (put-cases s.files i none j) [
  | inl (here, v) ↦ cc (v, e)
  | inr (n, v) ↦
      let (k, at', ino') = live j q (sym v ∙ e) in
      elim (put-cases s.handles p none q) [
        | inl (here, w) ↦
            let one = some_inj h k (sym at ∙ ap s.handles (sym here) ∙ at') in
            absurd (n (some_inj j i (sym ino' ∙ sym (ap (λ (x : Handle). x.ino) one) ∙ ino)))
        | inr (m, w) ↦ (k, w ∙ at', ino')
      ]
]

close_handle-IsLive :
    (closed : Bool) (p : ℕ) (h : Handle) (s s' : Files)
    → s.handles p ≡ some h
    → IsLive s
    → close_handle closed p h s ≡ ok s'
    → IsLive s'
unfolding close_handle rm
close_handle-IsLive false p h s s' at live e = cc e
close_handle-IsLive true p h s s' at live e = elim (Option-cases h.ino) [
  | inl f ↦
      let e' = rw f at e in
      subst IsLive (ok_inj (record s { handles = put s.handles p none }) s' e')
        (other-IsLive p none s (unregistered-IsUnlisted p h s live at f) live)
  | inr (i, f) ↦
      let e' = rw f at e in
      subst IsLive
        (ok_inj (record { handles = put s.handles p none; files = put s.files i none }) s' e')
        (removed-IsLive p i h s at f live)
]

dec_ref-IsLive :
    (closed : Bool) (p : ℕ) (s s' : Files) → IsLive s → dec_ref closed p s ≡ ok s' → IsLive s'
unfolding dec_ref
dec_ref-IsLive closed p s s' live e = elim (Option-cases (s.handles p)) [
  | inl f ↦ cc (rw (f, dec_ref) at e)
  | inr (h, f) ↦
      let kept = same-IsLive p h (record h { refcnt = h.refcnt - 1 }) s f refl live in
      elim (Bool-cases (h.refcnt - 1 == 0)) [
        | inl last ↦
            close_handle-IsLive closed p (record h { refcnt = h.refcnt - 1 })
              (record s { handles = put s.handles p (some (record h { refcnt = h.refcnt - 1 })) })
              s' (put_self s.handles p (some (record h { refcnt = h.refcnt - 1 }))) kept
              (rw (f, last, dec_ref) at e)
        | inr more ↦
            subst IsLive
              (ok_inj
                (record s { handles = put s.handles p (some (record h { refcnt = h.refcnt - 1 })) })
                s' (rw (f, more, dec_ref) at e))
              kept
      ]
]

file_open-IsLive :
    (a : Answers) (p : ℕ) (s : Files)
    → IsLive s
    → s.handles p ≡ none
    → a.id_closed ≡ true
    → IsLive (file_open a p s).1
unfolding file_open
file_open-IsLive a p s live fresh closed = elim (Option-cases (search_file a.before s)) [
  | inr (q, f) ↦ rw (f, file_open) live
  | inl f ↦ elim (Bool-cases a.was_opened) [
    | inr g ↦ rw (file_open, f, g) live
    | inl g ↦
        rw (file_open, f, g, closed)
          (register-IsLive a.behind p (record { ino = none; refcnt = 1 }) s
            (fresh-IsUnlisted p s live fresh) live)
  ]
]

file_create-IsLive :
    (a : Answers) (p : ℕ) (s : Files) → IsLive s → s.handles p ≡ none → IsLive (file_create a p s).1
unfolding file_create
file_create-IsLive a p s live fresh = elim (Option-cases (search_file a.before s)) [
  | inr (q, f) ↦ rw (file_create, f) live
  | inl f ↦ elim (Bool-cases (a.was_opened && a.id_closed)) [
    | inr g ↦ rw (file_create, f, g) live
    | inl g ↦
        rw (file_create, f, g)
          (other-IsLive p (some (record { ino = none; refcnt = 1 })) s
            (fresh-IsUnlisted p s live fresh) live)
  ]
]

inc_ref-IsLive : (p : ℕ) (s s' : Files) → IsLive s → inc_ref p s ≡ ok s' → IsLive s'
unfolding inc_ref
inc_ref-IsLive p s s' live e = elim (Option-cases (s.handles p)) [
  | inl f ↦ cc (rw (inc_ref, f) at e)
  | inr (h, f) ↦
      let more = record h { refcnt = suc h.refcnt } in
      subst IsLive
        (ok_inj (record s { handles = put s.handles p (some (record h { refcnt = suc h.refcnt })) })
          s' (rw (inc_ref, f) at e))
        (same-IsLive p h (record h { refcnt = suc h.refcnt }) s f refl live)
]

-- What the application's calls do to the map. A new handle has an address that is not allocated,
-- and a created file is registered once.
pub data Step : Files → Files → Type 0 where
  opens :
      (a : Answers) (p : ℕ) (s : Files)
      → s.handles p ≡ none
      → a.id_closed ≡ true
      → Step s (file_open a p s).1
  creates : (a : Answers) (p : ℕ) (s : Files) → s.handles p ≡ none → Step s (file_create a p s).1
  registers :
      (stat : Option ℕ) (p : ℕ) (h : Handle) (s s' : Files)
      → s.handles p ≡ some h
      → h.ino ≡ none
      → post_create_register stat p s ≡ ok s'
      → Step s s'
  reopens : (p : ℕ) (s s' : Files) → inc_ref p s ≡ ok s' → Step s s'
  closes : (closed : Bool) (p : ℕ) (s s' : Files) → dec_ref closed p s ≡ ok s' → Step s s'

pub data Reach (s : Files) : Files → Type 0 where
  here : Reach s s
  next : {t u : Files} → Reach s t → Step t u → Reach s u

Step-IsLive : {s t : Files} → Step s t → IsLive s → IsLive t
unfolding post_create_register
Step-IsLive (opens a p s fresh closed) live = file_open-IsLive a p s live fresh closed
Step-IsLive (creates a p s fresh) live = file_create-IsLive a p s live fresh
Step-IsLive (registers stat p h s s' at ino e) live =
    subst IsLive (ok_inj (register stat p h s) s' (rw (post_create_register, at) at e))
      (register-IsLive stat p h s (unregistered-IsUnlisted p h s live at ino) live)
Step-IsLive (reopens p s s' e) live = inc_ref-IsLive p s s' live e
Step-IsLive (closes closed p s s' e) live = dec_ref-IsLive closed p s s' live e

-- After any sequence of opens, creates, registrations, reopens and closes, in which the connector's
-- ID is closed without an error behind every open: each file that the map has is a handle that was
-- not deleted, with the inode under which it is found.
pub Reach-IsLive : {t : Files} → Reach no_files t → IsLive t
Reach-IsLive here i p e = cc e
Reach-IsLive (next r st) i p e = Step-IsLive st (Reach-IsLive r) i p e

file_open_failed :
    (a : Answers) (p : ℕ) (s : Files)
    → search_file a.before s ≡ none
    → a.was_opened ≡ true
    → a.id_closed ≡ false
    → file_open a p s ≡ (
        let s' = register a.behind p (record { ino = none; refcnt = 1 }) s in
        (none, record s' { handles = put s'.handles p none }))
unfolding file_open
file_open_failed a p s f was_opened closed = rw (file_open, f, was_opened, closed) refl

-- For an open whose file is not in the map and whose last call fails: the map keeps the address of
-- the handle that was deleted.
pub file_open-dangling :
    (a : Answers) (p i : ℕ) (s : Files)
    → search_file a.before s ≡ none
    → a.was_opened ≡ true
    → a.id_closed ≡ false
    → a.behind ≡ some i
    → ((file_open a p s).0 ≡ none)
      × (search_file (some i) (file_open a p s).1 ≡ some p)
      × ((file_open a p s).1.handles p ≡ none)
unfolding search_file register
file_open-dangling a p i s f was_opened closed behind =
    rw (file_open_failed a p s f was_opened closed, behind)
      (
        refl,
        put_self s.files i (some p),
        put_self (put s.handles p (some (record { ino = some i; refcnt = 1 }))) p none,
      )
