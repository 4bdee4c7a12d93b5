-- ===== src/Samples/DecodingSteps.antt =====
-- The theorems on the engine of the decoding stage at small inputs.
use recompute_or_migrate.Base.{◌≡◌, refl, some, [], ◌∷◌, arith, pos, lookup, Result, ok, err}
use recompute_or_migrate.Request.Migrating.{MigratingRequest}
use recompute_or_migrate.BlockManager.{BlockManager, init, get_num_blocks_needed}
use recompute_or_migrate.BlockManager.Growth.{Grown}
use recompute_or_migrate.DecodingEngine.{DecodingEngine, migrate_blocks, step}
use recompute_or_migrate.DecodingEngine.Migration.{migrate_blocks_total}
use recompute_or_migrate.Samples.Decoding.{third, crowded, parallel}

-- The requests of the one batch want all blocks, and one more request waits.
abbrev engine : DecodingEngine
engine = record {
  parallel_config = parallel;
  scheduler = crowded;
  batches_in_pipeline = [];
  returns = [];
  bridge_queue = [];
  worker_request_ids = (0, []) ∷ [];
}

abbrev or_engine : Result DecodingEngine → DecodingEngine
or_engine (ok s) = s
or_engine (err e) = engine

-- The long request is swapped out, and the short one gets its first token.
abbrev stepped : DecodingEngine
stepped = or_engine (step engine (pos 1) (λ k. some "a") (7 ∷ []) (pos 2))

abbrev crossing : MigratingRequest
crossing = record { req = third; block_indexes = 6 ∷ []; context_parallel_config = parallel }

migrate_blocks_total_example :
    (m' : BlockManager) × (migrate_blocks (init 4 3 2) crossing ≡ ok m') × Grown (init 4 3 2) 3 1 m'
unfolding init lookup get_num_blocks_needed
migrate_blocks_total_example = migrate_blocks_total (init 4 3 2) crossing refl refl (omega arith)
