-- ===== src/BlockManager/Ledger/Refinement.antt =====
-- distserve/block_manager.py: the block manager does what its ledger says, over any calls.
use recompute_or_migrate.Base.{ℕ, List, [], ◌∷◌, map}
use recompute_or_migrate.Request.{Request}
use recompute_or_migrate.BlockManager.{
  BlockManager, init, allocate_blocks, allocate_requests, free_blocks, free_blocks_batched,
}
use recompute_or_migrate.BlockManager.History.{
  Call, allocates, allocates_batched, frees, frees_batched, swaps, perform, perform_all,
}
use recompute_or_migrate.BlockManager.Ledger.{
  Ledger, ledger_init, ledger_allocate, ledger_free, in_turn, ledger_perform,
}
use recompute_or_migrate.BlockManager.Ledger.Views.{Views, Agree, Agree-bind, init-Views}
use recompute_or_migrate.BlockManager.Ledger.Allocation.{allocate_blocks-Agree, free_blocks-Agree}
use recompute_or_migrate.BlockManager.Ledger.Swaps.{swap_requests-Agree}

allocate_requests-Agree :
    (m : BlockManager) (s : Ledger) (rs : List Request)
    → Views m s
    → Agree (allocate_requests m rs) (in_turn ledger_allocate s rs)
unfolding allocate_requests in_turn
allocate_requests-Agree m s [] v = v
allocate_requests-Agree m s (r ∷ rs) v =
    Agree-bind (λ m. m) (λ m. m) (allocate_blocks m r) (ledger_allocate s r) _ _
      (allocate_blocks-Agree m s r v) (λ m' t w. allocate_requests-Agree m' t rs w)

free_blocks_batched-Agree :
    (m : BlockManager) (s : Ledger) (rs : List Request)
    → Views m s
    → Agree (free_blocks_batched m rs) (in_turn ledger_free s (map (λ r. r.request_id) rs))
unfolding free_blocks_batched in_turn
free_blocks_batched-Agree m s [] v = v
free_blocks_batched-Agree m s (r ∷ rs) v =
    Agree-bind (λ m. m) (λ m. m) (free_blocks m r.request_id) (ledger_free s r.request_id) _ _
      (free_blocks-Agree m s r.request_id v) (λ m' t w. free_blocks_batched-Agree m' t rs w)

perform-Agree :
    (m : BlockManager) (s : Ledger) (c : Call)
    → Views m s
    → Agree (perform m c) (ledger_perform s c)
unfolding perform ledger_perform
perform-Agree m s (allocates r) v = allocate_blocks-Agree m s r v
perform-Agree m s (allocates_batched rs) v = allocate_requests-Agree m s rs v
perform-Agree m s (frees k) v = free_blocks-Agree m s k v
perform-Agree m s (frees_batched rs) v = free_blocks_batched-Agree m s rs v
perform-Agree m s (swaps rs is_swap_in) v = swap_requests-Agree m s rs is_swap_in v

perform_all-Agree :
    (m : BlockManager) (s : Ledger) (cs : List Call)
    → Views m s
    → Agree (perform_all m cs) (in_turn ledger_perform s cs)
unfolding perform_all in_turn
perform_all-Agree m s [] v = v
perform_all-Agree m s (c ∷ cs) v =
    Agree-bind (λ m. m) (λ m. m) (perform m c) (ledger_perform s c) _ _ (perform-Agree m s c v)
      (λ m' t w. perform_all-Agree m' t cs w)

-- Whatever calls are made on a new block manager, it comes to what its ledger says: the first call that
-- the ledger refuses raises the same exception, and without one the numbers of blocks to be had at each
-- location, the number that each request holds and its location are those of the ledger. So these
-- depend on no choice of blocks, on no order of a free list and on no wait for a swap.
pub init-perform_all-Agree :
    (gpus cpus block_size : ℕ) (cs : List Call)
    → Agree
        (perform_all (init gpus cpus block_size) cs)
        (in_turn ledger_perform (ledger_init gpus cpus block_size) cs)
init-perform_all-Agree gpus cpus block_size cs =
    perform_all-Agree _ _ cs (init-Views gpus cpus block_size)
