-- ===== src/Samples/Blocks.antt =====
-- The theorems on the block manager at small inputs.
use recompute_or_migrate.Base.{◌≡◌, refl, inl, false, List, [], ◌∷◌, arith, lookup, insert, ok}
use recompute_or_migrate.BlockManager.{
  BlockManager, gpu, cpu, swap_blocks, init, get_free_blocks, allocate_new, allocate_more,
  allocate_blocks, allocate_requests, swap_request, swap_loop, swap_requests, get_num_blocks_needed,
  get_allocated_num_blocks,
}
use recompute_or_migrate.BlockManager.Holdings.{IsConserved}
use recompute_or_migrate.BlockManager.Growth.{Grown, allocate_blocks_total}
use recompute_or_migrate.BlockManager.History.{
  Call, allocates, allocates_batched, swaps, frees, perform, perform_all,
  init-perform_all-IsConserved,
}
use recompute_or_migrate.BlockManager.Ledger.{ledger_init, ledger_perform, in_turn}
use recompute_or_migrate.BlockManager.Ledger.Views.{Agree}
use recompute_or_migrate.BlockManager.Ledger.Refinement.{init-perform_all-Agree}
use recompute_or_migrate.Samples.{short, long}

abbrev calls : List Call
calls = allocates_batched (short ∷ long ∷ []) ∷ swaps (long ∷ []) false ∷ []

-- Four blocks of the GPU and three of the CPU: the long request is swapped out.
abbrev pub swapped : BlockManager
swapped = record {
  max_num_gpu_blocks = 4;
  max_num_cpu_blocks = 3;
  block_size = 2;
  free_gpu_blocks_list = [];
  free_cpu_blocks_list = [];
  swapping_gpu_blocks_list = 1 ∷ 2 ∷ 3 ∷ [];
  swapping_cpu_blocks_list = [];
  block_table = (1, 0 ∷ []) ∷ (2, 0 ∷ 1 ∷ 2 ∷ []) ∷ [];
  request_location = (1, gpu) ∷ (2, cpu) ∷ [];
  calls = swap_blocks (2 ∷ []) (1 ∷ 2 ∷ 3 ∷ []) (0 ∷ 1 ∷ 2 ∷ []) false ∷ [];
}

calls_run : perform_all (init 4 3 2) calls ≡ ok swapped
unfolding perform_all perform init allocate_requests allocate_blocks allocate_new allocate_more
    get_free_blocks get_num_blocks_needed swap_requests swap_loop swap_request lookup insert
calls_run = refl

init-perform_all-IsConserved_example : IsConserved swapped
init-perform_all-IsConserved_example = init-perform_all-IsConserved 4 3 2 calls swapped calls_run

abbrev pub both : BlockManager
both = record {
  max_num_gpu_blocks = 4;
  max_num_cpu_blocks = 3;
  block_size = 2;
  free_gpu_blocks_list = [];
  free_cpu_blocks_list = 0 ∷ 1 ∷ 2 ∷ [];
  swapping_gpu_blocks_list = [];
  swapping_cpu_blocks_list = [];
  block_table = (1, 0 ∷ []) ∷ (2, 1 ∷ 2 ∷ 3 ∷ []) ∷ [];
  request_location = (1, gpu) ∷ (2, gpu) ∷ [];
  calls = [];
}

pub both_run : perform_all (init 4 3 2) (allocates short ∷ allocates long ∷ []) ≡ ok both
unfolding perform_all perform init allocate_blocks allocate_new allocate_more get_free_blocks
    get_num_blocks_needed lookup insert
both_run = refl

both-IsConserved : IsConserved both
both-IsConserved =
    init-perform_all-IsConserved 4 3 2 (allocates short ∷ allocates long ∷ []) both both_run

allocate_blocks_total_example :
    (m' : BlockManager) × (allocate_blocks (init 4 3 2) long ≡ ok m')
    × Grown (init 4 3 2) 2 (get_num_blocks_needed (init 4 3 2) long) m'
unfolding init lookup get_num_blocks_needed get_allocated_num_blocks
allocate_blocks_total_example = allocate_blocks_total (init 4 3 2) long (inl refl) (omega arith)

-- A request is given blocks, swapped out, and freed.
abbrev visit : List Call
visit = allocates short ∷ swaps (short ∷ []) false ∷ frees 1 ∷ []

init-perform_all-Agree_example :
    Agree (perform_all (init 4 2 2) visit) (in_turn ledger_perform (ledger_init 4 2 2) visit)
init-perform_all-Agree_example = init-perform_all-Agree 4 2 2 visit
