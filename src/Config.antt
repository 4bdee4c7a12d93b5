-- ===== src/Config.antt =====
-- distserve/config.py: the configurations of the cache, of the parallelism and of the schedulers.
pub mod Model
pub mod Splits
use Prim.Native.String.{String}
use text.Mathlib.Text.{◌==◌ as str_eq}
use recompute_or_migrate.Base.{
  ℕ, ◌+◌, ◌*◌, Bool, false, ◌||◌, List, [], ◌∷◌, ltb, ◌==◌, assertion_error, Result, ok, ◌>>◌,
  guard,
}

-- `cpu_swap_space` is kept in bytes; GB is 2 ^ 30. The utilisation is a number of percents.
pub record CacheConfig : Type 0 where
  pub block_size : ℕ
  pub max_num_blocks_per_req : ℕ
  pub gpu_memory_utilization : ℕ
  pub cpu_swap_space : ℕ

unfoldable pub cache_config : ℕ → ℕ → ℕ → ℕ → CacheConfig
cache_config block_size max_num_blocks_per_req gpu_memory_utilization cpu_swap_space = record {
  block_size = block_size;
  max_num_blocks_per_req = max_num_blocks_per_req;
  gpu_memory_utilization = gpu_memory_utilization;
  cpu_swap_space = cpu_swap_space * 1073741824;
}

pub record ParallelConfig : Type 0 where
  pub tensor_parallel_size : ℕ
  pub tensor_parallel_rank : ℕ
  pub pipeline_parallel_size : ℕ
  pub pipeline_parallel_rank : ℕ
  pub world_size : ℕ
  pub use_parallel : Bool

unfoldable pub parallel_config : ℕ → ℕ → ℕ → ℕ → ParallelConfig
parallel_config tp_size tp_rank pp_size pp_rank = record {
  tensor_parallel_size = tp_size;
  tensor_parallel_rank = tp_rank;
  pipeline_parallel_size = pp_size;
  pipeline_parallel_rank = pp_rank;
  world_size = pp_size * tp_size;
  use_parallel = ltb 1 (pp_size * tp_size);
}

abbrev pub to_list : ParallelConfig → List ℕ
to_list c =
    c.tensor_parallel_size ∷ c.tensor_parallel_rank ∷ c.pipeline_parallel_size
    ∷ c.pipeline_parallel_rank ∷ []

-- A size of zero is no last stage: `0 - 1` is -1 there, and no rank is negative.
unfoldable pub is_last_stage : ParallelConfig → Bool
is_last_stage c = c.pipeline_parallel_rank + 1 == c.pipeline_parallel_size

pub record DisaggParallelConfig : Type 0 where
  pub context : ParallelConfig
  pub decoding : ParallelConfig

unfoldable pub get_num_workers : DisaggParallelConfig → ℕ
get_num_workers c = c.context.world_size + c.decoding.world_size

-- `policy in policies`
unfoldable pub mem_policy : String → List String → Bool
mem_policy p [] = false
mem_policy p (q ∷ qs) = str_eq p q || mem_policy p qs

pub record ContextStageSchedConfig : Type 0 where
  pub policy : String
  pub max_batch_size : ℕ
  pub max_tokens_per_batch : ℕ

unfoldable pub context_stage_sched_config : String → ℕ → ℕ → Result ContextStageSchedConfig
unfolding mem_policy
context_stage_sched_config policy max_batch_size max_tokens_per_batch = do
  guard (mem_policy policy ("fcfs" ∷ [])) assertion_error
  ok (record {
    policy = policy;
    max_batch_size = max_batch_size;
    max_tokens_per_batch = max_tokens_per_batch;
  })

-- The proportion of waiting blocks is a number of percents (0.05 is 5).
pub record DecodingStageSchedConfig : Type 0 where
  pub policy : String
  pub max_batch_size : ℕ
  pub max_tokens_per_batch : ℕ
  pub waiting_block_prop_threshold : ℕ

unfoldable pub decoding_stage_sched_config : String → ℕ → ℕ → ℕ → Result DecodingStageSchedConfig
unfolding mem_policy
decoding_stage_sched_config policy max_batch_size max_tokens_per_batch threshold = do
  guard (mem_policy policy ("fcfs" ∷ "srpt" ∷ "mlfq" ∷ "sj-mlfq" ∷ [])) assertion_error
  ok (record {
    policy = policy;
    max_batch_size = max_batch_size;
    max_tokens_per_batch = max_tokens_per_batch;
    waiting_block_prop_threshold = threshold;
  })
