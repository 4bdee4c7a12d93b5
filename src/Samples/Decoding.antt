-- ===== src/Samples/Decoding.antt =====
-- The theorems on the scheduler of the decoding stage at small inputs.
use recompute_or_migrate.Base.{
  ◌+◌, ◌≤◌, ◌≡◌, refl, ◌⊎◌, false, none, List, [], ◌∷◌, ◌++◌, pos, negsuc, ◌+ℤ◌, lookup, insert, ok,
}
use recompute_or_migrate.Config.{ParallelConfig}
use recompute_or_migrate.Request.{Request, get_num_input_tokens}
use recompute_or_migrate.Request.Batch.{BatchedRequests}
use recompute_or_migrate.Request.Migrating.{MigratingRequest}
use recompute_or_migrate.BlockManager.{
  BlockManager, get_free_blocks, swap_request, swap_loop, swap_requests,
}
use recompute_or_migrate.BlockManager.Holdings.{IsConserved}
use recompute_or_migrate.BlockManager.History.{init-perform_all-IsConserved}
use recompute_or_migrate.DecodingScheduler.{
  DecodingScheduler, batches_blocks, waiting_blocks, get_batch, fits_in, check_add_to_cur_batch,
  pop_last, is_over, swap_out_last, make_room, add_swapped, add_step, add_loop, advance,
  get_next_batch,
}
use recompute_or_migrate.DecodingScheduler.Demand.{get_next_batch-IsWithin}
use recompute_or_migrate.DecodingScheduler.Population.{population, get_next_batch-IsConserved}
use recompute_or_migrate.DecodingScheduler.Queues.{get_next_batch-queues}
use recompute_or_migrate.Samples.{request, short, long, pair}
use recompute_or_migrate.Samples.Blocks.{both, both_run, swapped}

abbrev pub third : Request
third = request 3 (5 ∷ [])

-- One batch, which wants all four blocks of the GPU, and a waiting request, for which there is none.
abbrev pub crowded : DecodingScheduler
crowded = record {
  sched_config = record {
    policy = "fcfs";
    max_batch_size = 4;
    max_tokens_per_batch = 100;
    waiting_block_prop_threshold = 40;
  };
  pipeline_parallel_size = 1;
  unaccepted_queue = [];
  waiting_queue = third ∷ [];
  swapped_queue = [];
  cur_index = negsuc 0;
  batch_queues = pair ∷ [];
  block_manager = both;
}

abbrev left_alone : BatchedRequests
left_alone = record { requests = short ∷ []; start_time = none; is_running = false }

abbrev relieved : DecodingScheduler
relieved = record crowded {
  swapped_queue = long ∷ [];
  cur_index = pos 0;
  batch_queues = left_alone ∷ [];
  block_manager = swapped;
}

swaps_long : get_next_batch crowded ≡ ok (left_alone, relieved)
unfolding get_next_batch advance get_batch make_room is_over swap_out_last pop_last add_loop
    add_step add_swapped check_add_to_cur_batch fits_in swap_requests swap_loop swap_request
    get_free_blocks lookup insert get_num_input_tokens ◌+ℤ◌
swaps_long = refl

get_next_batch-IsWithin_example : batches_blocks relieved + waiting_blocks relieved ≤ 4
get_next_batch-IsWithin_example = get_next_batch-IsWithin crowded left_alone relieved swaps_long

get_next_batch-IsConserved_example :
    (population 2 relieved ≡ population 2 crowded) × IsConserved swapped
get_next_batch-IsConserved_example =
    get_next_batch-IsConserved crowded left_alone relieved 2
      (init-perform_all-IsConserved 4 3 2 _ both both_run) swaps_long

get_next_batch-queues_example :
    ((taken : List Request) × (third ∷ [] ≡ taken ++ third ∷ [])
      × ((long ∷ [] ≡ []) ⊎ (taken ≡ [])))
    × (add_step relieved ≡ ok none)
get_next_batch-queues_example = get_next_batch-queues crowded left_alone relieved swaps_long

-- The first of two migrated requests is accepted; three of seven blocks wait then, and the second is not.
abbrev roomy : BlockManager
roomy = record both { free_gpu_blocks_list = 4 ∷ 5 ∷ 6 ∷ []; max_num_gpu_blocks = 7 }

abbrev bridge : MigratingRequest → MigratingRequest → DecodingScheduler
bridge m n = record crowded {
  unaccepted_queue = m ∷ n ∷ [];
  waiting_queue = [];
  block_manager = roomy;
}

abbrev pub parallel : ParallelConfig
parallel = record {
  tensor_parallel_size = 1;
  tensor_parallel_rank = 0;
  pipeline_parallel_size = 1;
  pipeline_parallel_rank = 0;
  world_size = 1;
  use_parallel = false;
}

abbrev migrating : Request → MigratingRequest
migrating r = record { req = r; block_indexes = []; context_parallel_config = parallel }

abbrev accepted_one : DecodingScheduler
accepted_one = record crowded {
  unaccepted_queue = migrating third ∷ [];
  waiting_queue = long ∷ [];
  block_manager = roomy;
}
