-- ===== src/File/Pool.antt =====
-- src/H5VL_log_filei.cpp: the buffer pool.
use vol_log_based.Prelude.{ℕ, suc, ◌+◌}
use vol_log_based.Prelude.{
  List, [], ◌∷◌, ◌++◌, Option, none, some, Bool, true, false, ltb, if◌then◌else◌,
}
use vol_log_based.Prelude.{Result, ok, err, out_of_buffer, undefined_behaviour, map, ◌>>=◌}

-- `H5VL_log_buffer_block_t`: `id` names the memory that `malloc` returned, `size` is `end - begin`
-- and `cur` is `cur - begin`.
pub record PoolBlock : Type 0 where
  pub id : ℕ
  pub size : ℕ
  pub cur : ℕ

-- `H5VL_log_buffer_pool_t`: the lists from `head` and from `free_blocks`. The next fresh memory
-- is `fresh`.
pub record Pool : Type 0 where
  pub bsize : ℕ
  pub inf : Bool
  pub blocks : List PoolBlock
  pub free_blocks : List PoolBlock
  pub fresh : ℕ

-- An address in the pool.
pub record Address : Type 0 where
  pub block : ℕ
  pub at : ℕ

-- `H5VL_log_filei_pool_new_block`; `given` tells whether `malloc` gives the memory.
unfoldable pub pool_new_block : Bool → ℕ → ℕ → Result PoolBlock
pool_new_block given id bsize =
    if given then ok (record { id = id; size = bsize; cur = 0 }) else err out_of_buffer

abbrev pub default_size : ℕ
default_size = 209715200

-- `H5VL_log_filei_pool_init`; a negative size is `none`.
unfoldable pub pool_init : Bool → Option ℕ → Result Pool
unfolding pool_new_block
pool_init given none = pool_new_block given 0 default_size >>= λ b.
    ok (record { bsize = default_size; inf = true; blocks = b ∷ []; free_blocks = []; fresh = 1 })
pool_init given (some n) =
    (if ltb 0 n then (pool_new_block given 0 n >>= λ b. ok (b ∷ [])) else ok []) >>= λ bs.
    ok (record { bsize = n; inf = false; blocks = bs; free_blocks = []; fresh = 1 })

-- The address at the front of the first block, which moves on.
unfoldable pub take_front : ℕ → PoolBlock → List PoolBlock → Pool → Address × Pool
take_front n b bs p =
    (record { block = b.id; at = b.cur }, record p { blocks = record b { cur = b.cur + n } ∷ bs })

-- A block is added in front: one of its own for a large request, a recycled one, or a new one.
unfoldable pub recycle : Bool → List PoolBlock → Pool → Result (PoolBlock × Pool)
unfolding pool_new_block
recycle given [] p =
    pool_new_block given p.fresh p.bsize >>= λ b. ok (b, record p { fresh = suc p.fresh })
recycle given (b ∷ bs) p = ok (b, record p { free_blocks = bs })

unfoldable pub add_block : Bool → ℕ → Pool → Result (PoolBlock × Pool)
unfolding pool_new_block recycle
add_block given n p =
    if ltb p.bsize n
    then (pool_new_block given p.fresh n >>= λ b. ok (b, record p { fresh = suc p.fresh }))
    else recycle given p.free_blocks p

-- `H5VL_log_filei_pool_alloc`, with the list from `head`. Without a head the code reads through a
-- null pointer.
unfoldable pub alloc_from : Bool → ℕ → Pool → List PoolBlock → Result (Address × Pool)
unfolding take_front add_block
alloc_from given n p [] = err undefined_behaviour
alloc_from given n p (b ∷ bs) =
    if ltb b.size (b.cur + n)
    then (if p.inf
        then (add_block given n p >>= λ added. ok (take_front n added.0 (b ∷ bs) added.1))
        else err out_of_buffer)
    else ok (take_front n b bs p)

unfoldable pub pool_alloc : Bool → ℕ → Pool → Result (Address × Pool)
unfolding alloc_from
pool_alloc given n p = alloc_from given n p p.blocks

abbrev pub rewind : PoolBlock → PoolBlock
rewind b = record b { cur = 0 }

-- `H5VL_log_filei_pool_free`: every block but the head goes to the free list, in order.
unfoldable pub pool_free : Pool → Result Pool
pool_free p = elim p.blocks [
  | [] ↦ err undefined_behaviour
  | b ∷ bs ↦ ok (record p { blocks = rewind b ∷ []; free_blocks = map rewind bs ++ p.free_blocks })
]

-- `H5VL_log_filei_pool_finalize`.
unfoldable pub pool_finalize : Pool → Pool
pool_finalize p = record { bsize = 0; inf = false; blocks = []; free_blocks = []; fresh = p.fresh }
