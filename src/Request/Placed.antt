-- ===== src/Request/Placed.antt =====
-- src/H5VL_logi_nb.cpp: lemmas on the offsets that a flush gives to the queued requests.
use vol_log_based.Prelude.{ℕ, ◌+◌, ◌^◌, ◌<◌, ◌≡◌, refl, ap, ap₂}
use vol_log_based.Prelude.{List, [], ◌∷◌, ◌++◌, length, map}
use vol_log_based.Prelude.{ltb, All}
use vol_log_based.Prelude.{Bool-cases, inl, inr, arith, to_int, add64}
use vol_log_based.Request.Write.{DataBlock, WReq}
use vol_log_based.Request.Flush.{Piece, gather, write_out}
use vol_log_based.Request.Flush.{place, shift, gathered, block_count}

-- The data blocks of a request in memory.
abbrev pub blocks_of : WReq → List (ℕ × ℕ)
blocks_of r = map {B = ℕ × ℕ} (λ (d : DataBlock). (d.xbuf, d.size)) r.dbufs

-- Every request's blocks, one behind the other from the file offset in the request's header.
abbrev pub all_at : List WReq → List Piece
all_at [] = []
all_at (r ∷ rs) = write_out r.hdr.foff (blocks_of r) ++ all_at rs

abbrev pub sizes : List DataBlock → ℕ
sizes [] = 0
sizes (d ∷ ds) = d.size + sizes ds

abbrev pub data_size : List WReq → ℕ
data_size [] = 0
data_size (r ∷ rs) = sizes r.dbufs + data_size rs

-- The header has the size of the data blocks, whose lengths are `int`.
abbrev pub IsSized : WReq → Type 0
IsSized r = (r.hdr.fsize ≡ sizes r.dbufs) × All (λ (d : DataBlock). d.size < 2 ^ 31) r.dbufs

-- The bytes that a list of memory blocks takes.
abbrev span : List (ℕ × ℕ) → ℕ
span [] = 0
span ((p, n) ∷ ps) = n + span ps

write_out-append :
    (off : ℕ) (ps qs : List (ℕ × ℕ))
    → write_out off (ps ++ qs) ≡ write_out off ps ++ write_out (off + span ps) qs
unfolding write_out
write_out-append off [] qs = let e : off + 0 ≡ off = omega arith in rw e
write_out-append off ((p, n) ∷ ps) qs =
    let e : off + (n + span ps) ≡ off + n + span ps = omega arith in
    rw e (ap (λ t. record { off = off; from = p; size = n } ∷ t) (write_out-append (off + n) ps qs))

int_blocks :
    (ds : List DataBlock)
    → All (λ (d : DataBlock). d.size < 2 ^ 31) ds
    → map {B = ℕ × ℕ} (λ (d : DataBlock). (d.xbuf, to_int d.size)) ds
      ≡ map {B = ℕ × ℕ} (λ (d : DataBlock). (d.xbuf, d.size)) ds
int_blocks [] h = refl
int_blocks (d ∷ ds) (h, hs) =
    let e : to_int d.size ≡ d.size = omega arith in
    ap₂ (λ n t. (d.xbuf, n) ∷ t) e (int_blocks ds hs)

span-blocks :
    (ds : List DataBlock)
    → span (map {B = ℕ × ℕ} (λ (d : DataBlock). (d.xbuf, d.size)) ds) ≡ sizes ds
span-blocks [] = refl
span-blocks (d ∷ ds) = ap (λ t. d.size + t) (span-blocks ds)

-- The memory type written at the base covers each placed request at its shifted offset.
placed_at :
    (base off : ℕ) (rs : List WReq)
    → All IsSized rs
    → base + off + data_size rs < 2 ^ 64
    → write_out (base + off) (gather (place off rs)) ≡ all_at (map (shift base) (place off rs))
unfolding gather place write_out
placed_at base off [] h fits = refl
placed_at base off (r ∷ rs) ((hs, hd'), hr) fits =
    let ps = blocks_of r in
    let next : add64 off r.hdr.fsize ≡ off + sizes r.dbufs = omega arith in
    let here : add64 off base ≡ base + off = omega arith in
    let on : base + off + sizes r.dbufs ≡ base + (off + sizes r.dbufs) = omega arith in
    rw
      (
        int_blocks r.dbufs hd',
        write_out-append (base + off) ps (gather (place (add64 off r.hdr.fsize) rs)),
        span-blocks r.dbufs,
        next,
        here,
        on,
      )
      (ap (λ t. write_out (base + off) ps ++ t)
        (placed_at base (off + sizes r.dbufs) rs hr (omega arith)))

no_data : (ds : List DataBlock) → length ds ≡ 0 → ds ≡ []
no_data [] h = refl
no_data (d ∷ ds) h = ground arith

no_blocks :
    (base : ℕ) (rs : List WReq)
    → block_count rs ≡ 0
    → (gather rs ≡ []) × (all_at (map (shift base) rs) ≡ [])
unfolding gather write_out
no_blocks base [] h = (refl, refl)
no_blocks base (r ∷ rs) h = rw (no_data r.dbufs (omega arith)) (no_blocks base rs (omega arith))

-- The same for the requests as they are gathered, whether there is any data block or not.
pub gathered_at :
    (base : ℕ) (rs : List WReq)
    → All IsSized rs
    → base + data_size rs < 2 ^ 64
    → write_out base (gather (gathered rs)) ≡ all_at (map (shift base) (gathered rs))
unfolding gathered write_out
gathered_at base rs h fits = elim (Bool-cases (ltb 0 (block_count rs))) [
  | inl e ↦
      let z : base + 0 ≡ base = omega arith in
      rw (e, gathered) (rw z at (placed_at base 0 rs h (omega arith)))
  | inr e ↦ let (g, a) = no_blocks base rs (ground (arith, e)) in rw (e, gathered, g, a, write_out)
]
