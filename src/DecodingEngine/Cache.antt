-- ===== src/DecodingEngine/Cache.antt =====
-- distserve/single_stage_engine.py: a step of the decoding engine keeps its cache and its pipeline in order.
use Prim.Native.String.{String}
use recompute_or_migrate.Base.{ℕ, ◌<◌, ◌≡◌, length}
use recompute_or_migrate.Request.{Request}
use recompute_or_migrate.BlockManager.{BlockManager}
use recompute_or_migrate.BlockManager.Holdings.{IsConserved}
use recompute_or_migrate.DecodingScheduler.{DecodingScheduler}
use recompute_or_migrate.DecodingEngine.{DecodingEngine}

-- The cache of the engine.
abbrev pub cache : DecodingEngine → BlockManager
cache s = s.scheduler.block_manager

abbrev pub stages : DecodingEngine → ℕ
stages s = s.parallel_config.pipeline_parallel_size

record Holds (pp n : ℕ) (s : DecodingEngine) : Type 0 where
  conserved : IsConserved s.scheduler.block_manager
  batches : length s.batches_in_pipeline ≡ n
  returns : length s.returns ≡ n
  size : s.parallel_config.pipeline_parallel_size ≡ pp

-- The state between two steps: the cache is well formed, each batch in the pipeline has its future, and
-- there is room in the pipeline.
pub record IsSettled (s : DecodingEngine) : Type 0 where
  pub conserved : IsConserved s.scheduler.block_manager
  pub paired : length s.returns ≡ length s.batches_in_pipeline
  pub room : length s.batches_in_pipeline < s.parallel_config.pipeline_parallel_size
