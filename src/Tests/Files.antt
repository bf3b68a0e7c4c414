-- ===== src/Tests/Files.antt =====
-- Small pools and buffers, and a file with the default settings.
use vol_log_based.Prelude.{◌+◌, ◌≡◌, refl, arith, List, [], ◌∷◌, none, some}
use vol_log_based.Prelude.{true, false, ok, err, out_of_buffer, ◌⊎◌}
use vol_log_based.File.Buffers.{Op, alloc, release, run, step, size_at, total, bused-run}
use vol_log_based.File.Pool.{PoolBlock, Pool, Address, pool_alloc}
use vol_log_based.File.Allocation.{IsPool, Placed, pool_alloc-IsPool}
use vol_log_based.File.Settings.{Fapl, parse_fapl, chosen}
use vol_log_based.File.Chosen.{bits, up_to_encode, parse_fapl-chosen}

abbrev ops : List Op
ops =
    alloc (some 100) 24
    ∷ (alloc (some 200) 4096 ∷ (alloc none 16 ∷ (release (some 100) ∷ (release none ∷ []))))

bused-run_example :
    (run ops record { bsize = some 8192; bused = 0; live = [] }).bused
    ≡ total (run ops record { bsize = some 8192; bused = 0; live = [] }).live
unfolding size_at step
bused-run_example = bused-run ops (some 8192) (omega arith) ((24, refl), tt)

abbrev front : PoolBlock
front = record { id = 1; size = 64; cur = 60 }

abbrev rest : List PoolBlock
rest = record { id = 0; size = 64; cur = 64 } ∷ []

abbrev pool : Pool
pool = record {
  bsize = 64;
  inf = true;
  blocks = front ∷ rest;
  free_blocks = record { id = 2; size = 128; cur = 0 } ∷ [];
  fresh = 3;
}

pool_valid : IsPool pool
pool_valid = record {
  used =
      ((omega arith, (omega arith, omega arith)), ((omega arith, (omega arith, omega arith)), tt));
  free = ((refl, omega arith, omega arith), tt);
}

pool_alloc-IsPool_example :
    ((a : Address) × (q : Pool) × (pool_alloc true 10 pool ≡ ok (a, q))
      × IsPool q
      × Placed 10 front rest a q)
    ⊎ ((true ≡ false) × (pool_alloc true 10 pool ≡ err out_of_buffer))
pool_alloc-IsPool_example = pool_alloc-IsPool true 10 pool front rest pool_valid refl refl

abbrev fapl : Fapl
fapl = record {
  merge = true;
  merge_env = some false;
  share = true;
  share_env = none;
  zip = false;
  zip_env = some true;
  encoding_offset = true;
  encoding_env = none;
  idx_buffer_size = 0;
  idx_bsize_env = none;
  index_type_env = none;
  single_subfile = false;
  single_subfile_env = none;
  passthru = false;
  passthru_env = some true;
}

parse_fapl-chosen_example :
    (parse_fapl fapl 0).config
    ≡ up_to_encode
        (chosen fapl.merge fapl.merge_env)
        (chosen fapl.share fapl.share_env)
        (chosen fapl.zip fapl.zip_env)
        (chosen fapl.encoding_offset fapl.encoding_env)
      + bits (chosen fapl.single_subfile fapl.single_subfile_env) 0x400
      + bits (chosen fapl.passthru fapl.passthru_env) 0x10
parse_fapl-chosen_example = parse_fapl-chosen fapl
