-- ===== src/BlockManager/History.antt =====
-- distserve/block_manager.py: any sequence of calls, from a new block manager.
use recompute_or_migrate.Base.{
  ℕ, ◌+◌, ◌≤◌, ◌≡◌, refl, subst, ◌≢◌, Bool, true, some, List, [], ◌∷◌, arith, ltb, one_if, count,
  lookup, erase, lookup-erase, erase-Distinct, total-erase, Result, ok, ◌>>=◌, >>=-eq-ok,
  ok-injective,
}
use recompute_or_migrate.Request.{Request}
use recompute_or_migrate.BlockManager.{
  BlockManager, BlockLocation, gpu, cpu, same_location, init, allocate_blocks, allocate_requests,
  free_blocks, free_blocks_batched, swap_requests,
}
use recompute_or_migrate.BlockManager.Pools.{capacity, pooled}
use recompute_or_migrate.BlockManager.Holdings.{held, holdings-split, IsConserved, init-IsConserved}
use recompute_or_migrate.BlockManager.Conservation.{
  allocate_blocks-IsConserved, allocate_requests-IsConserved,
}
use recompute_or_migrate.BlockManager.Freeing.{
  free_blocks-IsConserved, free_blocks_batched-IsConserved,
}
use recompute_or_migrate.BlockManager.Swapping.{swap_requests-IsConserved}

-- The calls of the class that change its state.
pub data Call : Type 0 where
  allocates : Request → Call
  allocates_batched : List Request → Call
  frees : ℕ → Call
  frees_batched : List Request → Call
  swaps : List Request → Bool → Call

unfoldable pub perform : BlockManager → Call → Result BlockManager
perform m (allocates r) = allocate_blocks m r
perform m (allocates_batched rs) = allocate_requests m rs
perform m (frees k) = free_blocks m k
perform m (frees_batched rs) = free_blocks_batched m rs
perform m (swaps rs is_swap_in) = swap_requests m rs is_swap_in

unfoldable pub perform_all : BlockManager → List Call → Result BlockManager
perform_all m [] = ok m
perform_all m (c ∷ cs) = do m' ← perform m c; perform_all m' cs

perform-IsConserved :
    (m : BlockManager) (c : Call) (m' : BlockManager)
    → IsConserved m
    → perform m c ≡ ok m'
    → IsConserved m'
unfolding perform
perform-IsConserved m (allocates r) m' v e = allocate_blocks-IsConserved m r m' v e
perform-IsConserved m (allocates_batched rs) m' v e = allocate_requests-IsConserved m rs m' v e
perform-IsConserved m (frees k) m' v e = free_blocks-IsConserved m k m' v e
perform-IsConserved m (frees_batched rs) m' v e = free_blocks_batched-IsConserved m rs m' v e
perform-IsConserved m (swaps rs b) m' v e = swap_requests-IsConserved m rs b m' v e

perform_all-IsConserved :
    (m : BlockManager) (cs : List Call) (m' : BlockManager)
    → IsConserved m
    → perform_all m cs ≡ ok m'
    → IsConserved m'
unfolding perform_all
perform_all-IsConserved m [] m' v e = subst IsConserved (ok-injective e) v
perform_all-IsConserved m (c ∷ cs) m' v e =
    let (m1, first, more) = >>=-eq-ok (perform m c) _ e in
    perform_all-IsConserved m1 cs m' (perform-IsConserved m c m1 v first) more

-- After any calls that raise nothing, on a new block manager, each block of each location stands
-- exactly once: free, lent to a swap, or with one request. No other block stands anywhere.
pub init-perform_all-IsConserved :
    (gpus cpus size : ℕ) (cs : List Call) (m : BlockManager)
    → perform_all (init gpus cpus size) cs ≡ ok m
    → IsConserved m
init-perform_all-IsConserved gpus cpus size cs m e =
    perform_all-IsConserved _ cs m (init-IsConserved gpus cpus size) e

same_location_refl : (p : BlockLocation) → same_location p p ≡ true
same_location_refl gpu = refl
same_location_refl cpu = refl

-- Two requests at one location share no block, no request holds a block twice, and none holds a
-- block that is free or lent to a swap, or one past the capacity.
pub IsConserved-disjoint :
    (m : BlockManager) (p : BlockLocation) (j k a : ℕ) (bs cs : List ℕ)
    → IsConserved m
    → j ≢ k
    → lookup j m.block_table ≡ some bs
    → lookup j m.request_location ≡ some p
    → lookup k m.block_table ≡ some cs
    → lookup k m.request_location ≡ some p
    → (count a bs + count a cs + pooled p m a ≤ one_if (ltb a (capacity p m)))
IsConserved-disjoint m p j k a bs cs v apart ej pj ek pk = ground (
  arith,
  v.once p a,
  holdings-split p a j p bs m.request_location m.block_table v.distinct ej pj,
  total-erase (held p m.request_location a) k cs (erase j m.block_table)
      (erase-Distinct j m.block_table v.distinct),
  lookup-erase j k m.block_table,
  same_location_refl p,
)
