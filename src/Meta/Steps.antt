-- ===== src/Meta/Steps.antt =====
-- Coordinates encoded as offsets: which are read back, and which are not.
use vol_log_based.Prelude.{ℕ, zero, suc, ◌+◌, ◌*◌, ◌/◌, ◌%◌, ◌^◌, ◌<◌, ◌≡◌, refl, ap}
use vol_log_based.Prelude.{List, ◌∷◌, hd, tl, memcpy, add64, mul64, arith, ◌∙◌}
use vol_log_based.Dataset.{make_dsteps}
use vol_log_based.Meta.Codec.{sel_decode, sel_encode_from, sel_encode}
use native.Mathlib.Nat.{zero-add}

-- The offset of a coordinate, before any wrap.
abbrev pub offset : ℕ → List ℕ → List ℕ → ℕ
offset zero dsteps cord = 0
offset (suc n) dsteps cord = hd cord * hd dsteps + offset n (tl dsteps) (tl cord)

-- In each dimension the dimensions after it make up less than one step, as
-- they do when every later coordinate is below its dimension.
abbrev pub InSteps : ℕ → List ℕ → List ℕ → Type 0
InSteps zero dsteps cord = Unit
InSteps (suc n) dsteps cord =
    (offset n (tl dsteps) (tl cord) < hd dsteps) × InSteps n (tl dsteps) (tl cord)

encode_from-offset :
    (n : ℕ) (dsteps cord : List ℕ) (off : ℕ)
    → off + offset n dsteps cord < 2 ^ 64
    → sel_encode_from n dsteps cord off ≡ off + offset n dsteps cord
unfolding sel_encode_from
encode_from-offset zero dsteps cord off h = omega arith
encode_from-offset (suc n) dsteps cord off h =
    let small : add64 off (mul64 (hd cord) (hd dsteps)) ≡ off + hd cord * hd dsteps = omega arith in
    rw small (encode_from-offset n (tl dsteps) (tl cord) _ (omega arith) ∙ omega arith)

div-step : (c d r : ℕ) → r < d → (c * d + r) / d ≡ c
div-step c d r h = grind arith

mod-step : (c d r : ℕ) → r < d → (c * d + r) % d ≡ r
mod-step c d r h = grind arith

decode-offset :
    (n : ℕ) (dsteps cord : List ℕ)
    → InSteps n dsteps cord
    → sel_decode n dsteps (offset n dsteps cord) ≡ memcpy n cord
unfolding sel_decode
decode-offset zero dsteps cord h = refl
decode-offset (suc n) dsteps cord (small, h) =
    rw (div-step (hd cord) (hd dsteps) _ small, mod-step (hd cord) (hd dsteps) _ small)
      (ap (λ r. hd cord ∷ r) (decode-offset n (tl dsteps) (tl cord) h))

pub sel_encode-offset :
    (n : ℕ) (dsteps cord : List ℕ)
    → offset n dsteps cord < 2 ^ 64
    → sel_encode n dsteps cord ≡ offset n dsteps cord
unfolding sel_encode
sel_encode-offset n dsteps cord fits = encode_from-offset n dsteps cord 0 (omega arith) ∙ zero-add _

-- A coordinate whose offset fits in 64 bits is read back if in every dimension the dimensions
-- after it make up less than one step.
pub sel_decode-sel_encode :
    (n : ℕ) (dsteps cord : List ℕ)
    → InSteps n dsteps cord
    → offset n dsteps cord < 2 ^ 64
    → sel_decode n dsteps (sel_encode n dsteps cord) ≡ memcpy n cord
sel_decode-sel_encode n dsteps cord h fits =
    rw (sel_encode-offset n dsteps cord fits) (decode-offset n dsteps cord h)

-- Every coordinate after the first lies below its dimension.
abbrev pub Below : ℕ → List ℕ → List ℕ → Type 0
Below zero dims cord = Unit
Below (suc n) dims cord = (hd cord < hd dims) × Below n (tl dims) (tl cord)

-- No product of dimensions reaches 2 ^ 64.
abbrev pub product : ℕ → List ℕ → ℕ
product zero dims = 1
product (suc n) dims = hd dims * product n (tl dims)

pub product-tl :
    (n : ℕ) (dims cord : List ℕ)
    → Below (suc n) dims cord
    → product (suc n) dims < 2 ^ 64
    → product n (tl dims) < 2 ^ 64
product-tl n dims cord (h, _) fits = grind arith

step_eq :
    (n : ℕ) (dims cord : List ℕ)
    → Below n (tl dims) cord
    → product n (tl dims) < 2 ^ 64
    → hd (make_dsteps (suc n) dims) ≡ product n (tl dims)
unfolding make_dsteps
step_eq zero dims cord h fits = refl
step_eq (suc n) dims cord h fits =
    rw (step_eq n (tl dims) (tl cord) h.1 (product-tl n (tl dims) cord h fits)) (omega arith)

pub tl-make_dsteps :
    (n : ℕ) (dims : List ℕ) → tl (make_dsteps (suc n) dims) ≡ make_dsteps n (tl dims)
unfolding make_dsteps
tl-make_dsteps zero dims = refl
tl-make_dsteps (suc n) dims = refl

below_step : (c d p o : ℕ) → c < d → o < p → c * p + o < d * p
below_step c d p o h k = grind arith

pub offset-lt-product :
    (n : ℕ) (dims cord : List ℕ)
    → Below n dims cord
    → product n dims < 2 ^ 64
    → offset n (make_dsteps n dims) cord < product n dims
offset-lt-product zero dims cord h fits = omega arith
offset-lt-product (suc n) dims cord (small, h) fits =
    let fits' = product-tl n dims cord (small, h) fits in
    rw (step_eq n dims (tl cord) h fits', tl-make_dsteps n dims)
      (below_step (hd cord) (hd dims) _ _ small (offset-lt-product n (tl dims) (tl cord) h fits'))

pub make_dsteps-InSteps :
    (n : ℕ) (dims cord : List ℕ)
    → Below n dims cord
    → product n dims < 2 ^ 64
    → InSteps n (make_dsteps n dims) cord
make_dsteps-InSteps zero dims cord h fits = tt
make_dsteps-InSteps (suc n) dims cord (small, h) fits =
    let fits' = product-tl n dims cord (small, h) fits in
    rw (step_eq n dims (tl cord) h fits', tl-make_dsteps n dims)
      (
        offset-lt-product n (tl dims) (tl cord) h fits',
        make_dsteps-InSteps n (tl dims) (tl cord) h fits',
      )
