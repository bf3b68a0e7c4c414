-- ===== src/File/Allocation.antt =====
-- src/H5VL_log_filei.cpp: lemmas on allocations from the buffer pool and their release.
use vol_log_based.Prelude.{ℕ, suc, ◌+◌, ◌≤◌, ◌<◌, ◌≡◌, refl, subst}
use vol_log_based.Prelude.{List, [], ◌∷◌, ◌++◌, true, ltb}
use vol_log_based.Prelude.{Bool, false, ap, ◌∙◌, ◌>>=◌, Result, err, out_of_buffer}
use vol_log_based.Prelude.{ok, arith, ltb→lt, All, map, Bool-cases, inl, inr, ◌⊎◌}
use vol_log_based.Prelude.{length, length-append, length-map}
use vol_log_based.File.Pool.{
  PoolBlock, Pool, Address, pool_new_block, take_front, recycle, add_block, alloc_from, pool_alloc,
  rewind, pool_free,
}

-- A block in use is not overrun, and its memory is not that of a block to come.
abbrev pub InUse : ℕ → PoolBlock → Type 0
InUse fresh b = (b.cur ≤ b.size) × (b.id < fresh)

-- A recycled block is empty and has room for any request that is not large.
abbrev pub IsFree : ℕ → ℕ → PoolBlock → Type 0
IsFree bsize fresh b = (b.cur ≡ 0) × (bsize ≤ b.size) × (b.id < fresh)

abbrev pub InPool : ℕ → ℕ → PoolBlock → Type 0
InPool bsize fresh b = (bsize ≤ b.size) × InUse fresh b

pub record IsPool (p : Pool) : Type 0 where
  pub used : All (InPool p.bsize p.fresh) p.blocks
  pub free : All (IsFree p.bsize p.fresh) p.free_blocks

more-InPool :
    (bsize fresh : ℕ) (bs : List PoolBlock)
    → All (InPool bsize fresh) bs
    → All (InPool bsize (suc fresh)) bs
more-InPool bsize fresh [] h = tt
more-InPool bsize fresh (b ∷ bs) ((s, (u, i)), hs) =
    ((s, (u, omega arith)), more-InPool bsize fresh bs hs)

more-IsFree :
    (bsize fresh : ℕ) (bs : List PoolBlock)
    → All (IsFree bsize fresh) bs
    → All (IsFree bsize (suc fresh)) bs
more-IsFree bsize fresh [] h = tt
more-IsFree bsize fresh (b ∷ bs) ((s, u, i), hs) =
    ((s, u, omega arith), more-IsFree bsize fresh bs hs)

-- A block that is added is empty and has room for the request; the others keep their place.
abbrev Added : ℕ → Pool → PoolBlock → Pool → Type 0
Added n p b q =
    (b.cur ≡ 0)
    × (n ≤ b.size)
    × (p.bsize ≤ b.size)
    × (b.id < q.fresh)
    × (q.bsize ≡ p.bsize)
    × (q.inf ≡ p.inf)
    × All (InPool q.bsize q.fresh) p.blocks
    × All (IsFree q.bsize q.fresh) q.free_blocks

-- A block is added, or `malloc` fails.
abbrev IsAddition : Bool → ℕ → Pool → Result (PoolBlock × Pool) → Type 0
IsAddition given n p r =
    ((b : PoolBlock) × (q : Pool) × (r ≡ ok (b, q)) × Added n p b q)
    ⊎ ((given ≡ false) × (r ≡ err out_of_buffer))

recycle-Added :
    (given : Bool) (n : ℕ) (p : Pool) (bs : List PoolBlock)
    → All (IsFree p.bsize p.fresh) bs
    → All (IsFree p.bsize p.fresh) p.free_blocks
    → All (InPool p.bsize p.fresh) p.blocks
    → n ≤ p.bsize
    → IsAddition given n p (recycle given bs p)
unfolding recycle pool_new_block
recycle-Added false n p [] hf free used h = inr (refl, refl)
recycle-Added true n p [] hf free used h = inl (
  record { id = p.fresh; size = p.bsize; cur = 0 },
  record p { fresh = suc p.fresh },
  refl,
  (
    refl,
    h,
    omega arith,
    omega arith,
    refl,
    refl,
    more-InPool p.bsize p.fresh p.blocks used,
    more-IsFree p.bsize p.fresh p.free_blocks free,
  ),
)
recycle-Added given n p (b ∷ bs) ((e, s, i), hs) free used h =
    inl (b, record p { free_blocks = bs }, refl, (e, omega arith, s, i, refl, refl, used, hs))

large-Added :
    (given : Bool) (n : ℕ) (p : Pool)
    → IsPool p
    → ltb p.bsize n ≡ true
    → IsAddition given n p (add_block given n p)
unfolding add_block pool_new_block
large-Added false n p v e = inr (refl, rw (e, add_block) refl)
large-Added true n p v e = inl (
  record { id = p.fresh; size = n; cur = 0 },
  record p { fresh = suc p.fresh },
  rw (e, add_block) refl,
  (
    refl,
    omega arith,
    omega (arith, ltb→lt p.bsize n e),
    omega arith,
    refl,
    refl,
    more-InPool p.bsize p.fresh p.blocks v.used,
    more-IsFree p.bsize p.fresh p.free_blocks v.free,
  ),
)

add_block-Added :
    (given : Bool) (n : ℕ) (p : Pool) → IsPool p → IsAddition given n p (add_block given n p)
unfolding add_block
add_block-Added given n p v = elim (Bool-cases (ltb p.bsize n)) [
  | inl e ↦ large-Added given n p v e
  | inr e ↦
      rw (e, add_block)
        (recycle-Added given n p p.free_blocks v.free v.free v.used (ground (arith, e)))
]

-- The block `c` is the first of `q`, and its last `n` bytes in use are those at `a`.
pub record IsLast (n : ℕ) (a : Address) (c : PoolBlock) : Type 0 where
  pub same : a.block ≡ c.id
  pub last : a.at + n ≡ c.cur
  pub inside : c.cur ≤ c.size

-- The request is at the end of the first block, or in a block of its own in front of it.
abbrev pub Placed : ℕ → PoolBlock → List PoolBlock → Address → Pool → Type 0
Placed n b bs a q =
    (c : PoolBlock) × IsLast n a c
    × (((q.blocks ≡ c ∷ bs) × (a.block ≡ b.id) × (a.at ≡ b.cur))
        ⊎ ((q.blocks ≡ c ∷ (b ∷ bs)) × (a.at ≡ 0)))

alloc_here :
    (n : ℕ) (p : Pool) (b : PoolBlock) (bs : List PoolBlock)
    → IsPool p
    → p.blocks ≡ b ∷ bs
    → b.cur + n ≤ b.size
    → IsPool (take_front n b bs p).1 × Placed n b bs (take_front n b bs p).0 (take_front n b bs p).1
unfolding take_front
alloc_here n p b bs v e h =
    let ((s, (u, i)), us) = subst (All (InPool p.bsize p.fresh)) e v.used in
    (
      record { used = ((s, (h, i)), us); free = v.free },
      (
        record b { cur = b.cur + n },
        record { same = refl; last = refl; inside = h },
        inl (refl, refl, refl),
      ),
    )

alloc_new :
    (n : ℕ) (p : Pool) (b : PoolBlock) (bs : List PoolBlock) (c : PoolBlock) (q : Pool)
    → Added n p c q
    → p.blocks ≡ b ∷ bs
    → let (a, r) = take_front n c (b ∷ bs) q in IsPool r × Placed n b bs a r
unfolding take_front
alloc_new n p b bs c q (cur, room, size, id, same, _, used, free) e =
    let used' = subst (All (InPool q.bsize q.fresh)) e used in
    (
      record { used = ((omega arith, (omega arith, id)), used'); free = free },
      (
        record c { cur = c.cur + n },
        record { same = refl; last = refl; inside = omega arith },
        inr (refl, cur),
      ),
    )

-- A block is added where the first one is full.
abbrev taken : ℕ → List PoolBlock → Result (PoolBlock × Pool) → Result (Address × Pool)
taken n bs r = r >>= λ added. ok (take_front n added.0 bs added.1)

pool_alloc_full :
    (given : Bool) (n : ℕ) (p : Pool) (b : PoolBlock) (bs : List PoolBlock)
    → p.blocks ≡ b ∷ bs
    → p.inf ≡ true
    → ltb b.size (b.cur + n) ≡ true
    → pool_alloc given n p ≡ taken n (b ∷ bs) (add_block given n p)
unfolding pool_alloc alloc_from
pool_alloc_full given n p b bs e grows full =
    ap (alloc_from given n p) e ∙ rw (full, grows, alloc_from) refl

-- An allocation from a well-formed pool that may grow succeeds whatever its size, unless `malloc`
-- fails, which is an error. It gives bytes that end within a block and begin behind all the bytes
-- handed out of that block. The pool is well formed again: no block is overrun, and a recycled
-- block has room for any request that is at most the pool's block size.
pub pool_alloc-IsPool :
    (given : Bool) (n : ℕ) (p : Pool) (b : PoolBlock) (bs : List PoolBlock)
    → IsPool p
    → p.blocks ≡ b ∷ bs
    → p.inf ≡ true
    → ((a : Address) × (q : Pool) × (pool_alloc given n p ≡ ok (a, q))
        × IsPool q
        × Placed n b bs a q)
      ⊎ ((given ≡ false) × (pool_alloc given n p ≡ err out_of_buffer))
unfolding pool_alloc
pool_alloc-IsPool given n p b bs v e grows = elim (Bool-cases (ltb b.size (b.cur + n))) [
  | inl full ↦ elim (add_block-Added given n p v) [
    | inr (failed, r) ↦
        inr (failed, pool_alloc_full given n p b bs e grows full ∙ ap (taken n (b ∷ bs)) r)
    | inl (c, q, r, added) ↦
        let (valid, placed) = alloc_new n p b bs c q added e in
        inl (
          (take_front n c (b ∷ bs) q).0,
          (take_front n c (b ∷ bs) q).1,
          pool_alloc_full given n p b bs e grows full ∙ ap (taken n (b ∷ bs)) r,
          valid,
          placed,
        )
  ]
  | inr room ↦
      let (valid, placed) = alloc_here n p b bs v e (ground (arith, room)) in
      inl ((take_front n b bs p).0, (take_front n b bs p).1, rw (e, room) refl, valid, placed)
]

rewind-All :
    (bsize fresh : ℕ) (bs fs : List PoolBlock)
    → All (InPool bsize fresh) bs
    → All (IsFree bsize fresh) fs
    → All (IsFree bsize fresh) (map rewind bs ++ fs)
rewind-All bsize fresh [] fs h k = k
rewind-All bsize fresh (b ∷ bs) fs ((s, (u, i)), hs) k =
    ((refl, s, i), rewind-All bsize fresh bs fs hs k)

-- Releasing all allocations keeps a pool well formed, loses no block, and leaves one empty block
-- in use.
pub pool_free-IsPool :
    (p : Pool) (b : PoolBlock) (bs : List PoolBlock)
    → IsPool p
    → p.blocks ≡ b ∷ bs
    → (q : Pool) × (pool_free p ≡ ok q)
      × IsPool q
      × (q.blocks ≡ rewind b ∷ [])
      × (length q.blocks + length q.free_blocks ≡ length p.blocks + length p.free_blocks)
unfolding pool_free
pool_free-IsPool p b bs v e =
    let ((s, (u, i)), us) = subst (All (InPool p.bsize p.fresh)) e v.used in
    (
      record p { blocks = rewind b ∷ []; free_blocks = map rewind bs ++ p.free_blocks },
      rw e,
      record {
        used = ((s, (omega arith, i)), tt);
        free = rewind-All p.bsize p.fresh bs p.free_blocks us v.free;
      },
      refl,
      rw e (omega (arith, length-append (map rewind bs) p.free_blocks, length-map rewind bs)),
    )
