-- ===== src/Tests/Reads.antt =====
-- Reads of filtered data: two blocks of one log entry, found in the order of the sort and against it.
use vol_log_based.Prelude.{
  ℕ, suc, ◌≡◌, refl, arith, true, false, List, [], ◌∷◌, none, some, ok, if◌then◌else◌,
}
use vol_log_based.Index.Ordering.{precedes, start_before}
use vol_log_based.Filter.{unfilter}
use vol_log_based.Transfer.Rows.{ReadBlock}
use vol_log_based.Transfer.Types.{Part}
use vol_log_based.Transfer.Perform.{
  UnfilterBuffers, UnfilterCalls, Delivery, Event, read_at, pack_elements, perform_read,
}
use vol_log_based.Transfer.Perform.Events.{in_order, CanUnfilter}
use vol_log_based.Transfer.Perform.Assigned.{IsGiven}
use vol_log_based.Prelude.{Result, err}
use vol_log_based.Transfer.Perform.Unordered.{perform_read_exchanged}

-- A row of a filtered entry of 4 by 3 elements of 8 bytes.
abbrev row : ℕ → ReadBlock
row i = record {
  hit = record {
    info = 0;
    dsize = 4 ∷ (3 ∷ []);
    dstart = i ∷ (0 ∷ []);
    msize = 1 ∷ (3 ∷ []);
    mstart = 0 ∷ (0 ∷ []);
    count = 1 ∷ (3 ∷ []);
    xsize = 96;
    doff = 0;
    xbuf = 5000;
    foff = 64;
    fsize = 40;
  };
  info = record {
    ndim = 2;
    esize = 8;
    dims = 4 ∷ (3 ∷ []);
    mdims = 4 ∷ (3 ∷ []);
    dsteps = 3 ∷ (1 ∷ []);
  };
  zbuf = none;
}

-- The first row as it is packed.
abbrev packed : ReadBlock
packed = record (row 0) { zbuf = some 1; hit = record (row 0).hit { fsize = 0 } }

-- A request whose elements are converted and copied to the user.
abbrev delivery : Delivery
delivery = record {
  dtype = 1;
  mtype = 2;
  rsize = 3;
  esize = 8;
  xbuf = 5000;
  ubuf = 7000;
  ptype = none;
}

abbrev deflated : ℕ → List ℕ
deflated i = 1 ∷ []

abbrev numbered : ℕ → ℕ → ℕ
numbered i size = suc i

numbered-IsGiven : IsGiven numbered
numbered-IsGiven i n = ground arith

-- A filter that leaves the bytes as they are.
abbrev calls : UnfilterCalls
calls = record { deflate_id = 1; deflate = λ bin. ok bin; bytes = λ foff. 7 ∷ [] }

undone : (i : ℕ) → CanUnfilter deflated calls (row i)
unfolding unfilter
undone i = (7 ∷ [], refl)

abbrev eight : ℕ → ℕ
eight t = 8

abbrev sort_two : List ReadBlock → List ReadBlock
sort_two [] = []
sort_two (x ∷ []) = x ∷ []
sort_two (x ∷ (y ∷ [])) = if precedes y.info.ndim y.hit x.hit then y ∷ (x ∷ []) else x ∷ (y ∷ [])
sort_two (x ∷ (y ∷ (z ∷ rest))) = x ∷ (y ∷ (z ∷ rest))

sort_two_exchanged :
    (x y : ReadBlock)
    → precedes y.info.ndim y.hit x.hit ≡ true
    → sort_two (x ∷ (y ∷ [])) ≡ y ∷ (x ∷ [])
sort_two_exchanged x y e = rw e refl

abbrev blocks_of : Result (List ReadBlock × UnfilterBuffers) → List ReadBlock
blocks_of (err x) = []
blocks_of (ok p) = p.0

perform_read_exchanged_example :
    (parts : List Part) × (rest : List Event) × (perform_read deflated numbered calls eight sort_two
        (delivery ∷ [])
        (row 1 ∷ (row 0 ∷ []))
      ≡ ok (read_at parts ∷ (pack_elements 1 0 1 packed ∷ rest)))
    × (in_order (λ x. false) (read_at parts ∷ (pack_elements 1 0 1 packed ∷ rest)) ≡ false)
unfolding precedes start_before
perform_read_exchanged_example =
    perform_read_exchanged deflated numbered calls eight sort_two (delivery ∷ []) (row 1) (row 0)
      numbered-IsGiven (omega arith) (omega arith) (undone 1) (undone 0) refl refl
      sort_two_exchanged
