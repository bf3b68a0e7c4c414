-- ===== src/Filter.antt =====
-- src/H5VL_logi_filter.cpp: the filter pipeline of a dataset, forth and back.
use vol_log_based.Prelude.{ℕ, ◌+◌, ◌-◌, ◌%◌, ◌≤◌, ◌≡◌, refl, ap, ◌∙◌, List, [], ◌∷◌}
use vol_log_based.Prelude.{Bool, true, false, not, ◌==◌, if◌then◌else◌, length, arith}
use vol_log_based.Prelude.{Result, ok, err, ◌>>=◌, unsupported_filter}

-- The lowest bit of an index.
abbrev pub odd_number : ℕ → Bool
odd_number n = n % 2 == 1

-- The filters from the last to the first, in front of `acc`.
abbrev pub reversed : List ℕ → List ℕ → List ℕ
reversed [] acc = acc
reversed (f ∷ fs) acc = reversed fs (f ∷ acc)

-- The pipeline is the list of its filters' IDs. `deflate_id` is `H5Z_FILTER_DEFLATE`, and
-- `deflate` is what `H5VL_logi_filter_deflate_alloc` makes of bytes with zlib.
module _ (deflate_id : ℕ) (deflate : List ℕ → Result (List ℕ)) where
  -- The `switch` over the filter.
  unfoldable pub stage : ℕ → List ℕ → Result (List ℕ)
  stage id bin = if id == deflate_id then deflate bin else err unsupported_filter

  -- `buf[i & 1]`, where `odd` is the lowest bit of `i`.
  abbrev pub buf : Bool → List ℕ → List ℕ → List ℕ
  buf true b0 b1 = b1
  buf false b0 b1 = b0

  -- Storing to `buf[(i + 1) & 1]`.
  abbrev pub store : Bool → List ℕ → List ℕ × List ℕ → List ℕ × List ℕ
  store true bout b = (bout, b.1)
  store false bout b = (b.0, bout)

  -- The loop of both functions, from the iteration after the first on: the input is one buffer
  -- and the output goes to the other, or to the user in the last iteration.
  unfoldable pub alternate : List ℕ → Bool → List ℕ × List ℕ → Result (List ℕ)
  unfolding stage
  alternate [] odd b = ok (buf odd b.0 b.1)
  alternate (f ∷ fs) odd b =
      stage f (buf odd b.0 b.1) >>= λ bout. alternate fs (not odd) (store odd bout b)

  -- `H5VL_logi_filter` with the first iteration's input from the user; an empty pipeline leaves
  -- the output `out` as it is.
  unfoldable pub filter : List ℕ → List ℕ → List ℕ → Result (List ℕ)
  unfolding alternate
  filter [] bin out = ok out
  filter (f ∷ fs) bin out = stage f bin >>= λ bout. alternate fs true (store false bout ([], []))

  -- `H5VL_logi_unfilter`, from the last filter to the first, by the same call of the `switch`.
  unfoldable pub unfilter_from : ℕ → List ℕ → List ℕ → List ℕ → Result (List ℕ)
  unfolding alternate
  unfilter_from n [] bin out = ok out
  unfilter_from n (f ∷ fs) bin out =
      let odd = odd_number (n - 1) in
      stage f bin >>= λ bout. alternate fs (not odd) (store odd bout ([], []))

  unfoldable pub unfilter : List ℕ → List ℕ → List ℕ → Result (List ℕ)
  unfolding unfilter_from
  unfilter pipeline bin out = unfilter_from (length pipeline) (reversed pipeline []) bin out

  -- The filters one after the other.
  abbrev pub chain : List ℕ → List ℕ → Result (List ℕ)
  chain [] bytes = ok bytes
  chain (f ∷ fs) bytes = stage f bytes >>= chain fs

  bind_cong :
      (r : Result (List ℕ)) (f g : List ℕ → Result (List ℕ))
      → ((x : List ℕ) → f x ≡ g x)
      → (r >>= f) ≡ (r >>= g)
  bind_cong (ok a) f g h = h a
  bind_cong (err e) f g h = refl

  stored :
      (odd : Bool) (bout : List ℕ) (b : List ℕ × List ℕ)
      → buf (not odd) (store odd bout b).0 (store odd bout b).1 ≡ bout
  stored true bout b = refl
  stored false bout b = refl

  alternate-chain :
      (fs : List ℕ) (odd : Bool) (b : List ℕ × List ℕ)
      → alternate fs odd b ≡ chain fs (buf odd b.0 b.1)
  unfolding alternate
  alternate-chain [] odd b = refl
  alternate-chain (f ∷ fs) odd b =
      bind_cong (stage f (buf odd b.0 b.1)) (λ bout. alternate fs (not odd) (store odd bout b))
        (chain fs)
        (λ bout.
          alternate-chain fs (not odd) (store odd bout b) ∙ ap (chain fs) (stored odd bout b))

  length-reversed : (fs acc : List ℕ) → length (reversed fs acc) ≡ length fs + length acc
  length-reversed [] acc = omega arith
  length-reversed (f ∷ fs) acc = omega (arith, length-reversed fs (f ∷ acc))

  unfilter_from-chain :
      (n : ℕ) (ks bin out : List ℕ) → 1 ≤ length ks → unfilter_from n ks bin out ≡ chain ks bin
  unfolding unfilter_from
  unfilter_from-chain n [] bin out h = absurd (omega (arith, h))
  unfilter_from-chain n (k ∷ ks) bin out h =
      let odd = odd_number (n - 1) in
      bind_cong (stage k bin) (λ bout. alternate ks (not odd) (store odd bout ([], []))) (chain ks)
        (λ bout.
          alternate-chain ks (not odd) (store odd bout ([], []))
          ∙ ap (chain ks) (stored odd bout ([], [])))

  -- Passing the intermediate results of a pipeline with at least one filter through two buffers
  -- in turn is applying the filters one after the other, to the input and to each other's
  -- output; an unsupported filter or a failed compression ends it with that error.
  pub filter-chain :
      (pipeline bin out : List ℕ)
      → 1 ≤ length pipeline
      → filter pipeline bin out ≡ chain pipeline bin
  unfolding filter
  filter-chain [] bin out h = absurd (omega (arith, h))
  filter-chain (f ∷ fs) bin out h =
      bind_cong (stage f bin) (λ bout. alternate fs true (store false bout ([], []))) (chain fs)
        (λ bout. alternate-chain fs true (store false bout ([], [])))

  -- On the way back, the steps of `H5VL_logi_unfilter` for a pipeline with at least one filter
  -- are those of `H5VL_logi_filter` for the reversed pipeline: every step compresses its input
  -- again, and none decompresses it.
  pub unfilter-chain :
      (pipeline bin out : List ℕ)
      → 1 ≤ length pipeline
      → unfilter pipeline bin out ≡ chain (reversed pipeline []) bin
  unfolding unfilter
  unfilter-chain pipeline bin out h =
      unfilter_from-chain (length pipeline) (reversed pipeline []) bin out
        (omega (arith, h, length-reversed pipeline []))
