-- ===== src/ContextEngine/Cache.antt =====
-- distserve/single_stage_engine.py: a step of the context engine keeps its cache and its pipeline in order.
use Prim.Native.String.{String}
use recompute_or_migrate.Base.{ℕ, ◌<◌, ◌≡◌, length}
use recompute_or_migrate.Request.{Request}
use recompute_or_migrate.BlockManager.Holdings.{IsConserved}
use recompute_or_migrate.ContextEngine.{ContextEngine}

abbrev pub stages : ContextEngine → ℕ
stages s = s.parallel_config.pipeline_parallel_size

-- The cache is well formed, each batch in the pipeline has its future, and there are `n` of them.
pub record Holds (pp n : ℕ) (s : ContextEngine) : Type 0 where
  pub conserved : IsConserved s.block_manager
  pub batches : length s.batches_in_pipeline ≡ n
  pub returns : length s.returns ≡ n
  pub size : stages s ≡ pp

-- The state between two steps: the cache is well formed, and there is room in the pipeline.
pub record IsReady (s : ContextEngine) : Type 0 where
  pub conserved : IsConserved s.block_manager
  pub paired : length s.returns ≡ length s.batches_in_pipeline
  pub room : length s.batches_in_pipeline < stages s
