-- ===== src/DecodingScheduler/Demand.antt =====
-- distserve/decoding_stage_scheduler.py: the blocks that the batches and the waiting requests want.
use recompute_or_migrate.Base.{
  ℕ, zero, suc, ◌+◌, ◌≤◌, ◌≡◌, sym, ap, subst, true, false, some, List, [], ◌∷◌, ◌++◌, arith,
  length, get_elem?, set, sum_of, sum_of-append, ok, >>=-eq-ok, ok-injective,
}
use recompute_or_migrate.Request.{Request}
use recompute_or_migrate.Request.Batch.{BatchedRequests}
use recompute_or_migrate.BlockManager.{BlockManager}
use recompute_or_migrate.BlockManager.Sizes.{SameSizes, swap_requests-SameSizes}
use recompute_or_migrate.DecodingScheduler.{
  DecodingScheduler, cur, get_batch, fits_in, is_over, make_room, add_loop, advance, get_next_batch,
  request_blocks, prompt_blocks, batches_blocks, waiting_blocks,
}
use recompute_or_migrate.DecodingScheduler.Rounds.{AddsSwapped, AddsWaiting}
use recompute_or_migrate.DecodingScheduler.Loops.{make_room-keeps, add_loop-keeps}

-- The requests in the batches and in the waiting queue want no more blocks than the GPU has.
unfoldable pub IsWithin : DecodingScheduler → Type 0
IsWithin s = batches_blocks s + waiting_blocks s ≤ s.block_manager.max_num_gpu_blocks

pub sum_of-set :
    {A : Type 0} (f : A → ℕ) (xs : List A) (i : ℕ) (x y : A)
    → get_elem? xs i ≡ some x
    → sum_of f (set xs i y) + f x ≡ sum_of f xs + f y
sum_of-set f [] i x y e = cc
sum_of-set f (z ∷ xs) zero x y e = ground arith
sum_of-set f (z ∷ xs) (suc i) x y e = omega (arith, sum_of-set f xs i x y e)

-- A request more in one batch.
sum_of-grown :
    (f : Request → ℕ) (bs : List BatchedRequests) (i : ℕ) (b : BatchedRequests) (r : Request)
    → get_elem? bs i ≡ some b
    → sum_of (λ c. sum_of f c.requests) (set bs i (record b { requests = b.requests ++ r ∷ [] }))
      ≡ sum_of (λ c. sum_of f c.requests) bs + f r
sum_of-grown f bs i b r e = omega (
  arith,
  sum_of-set (λ c. sum_of f c.requests) bs i b (record b { requests = b.requests ++ r ∷ [] }) e,
  sum_of-append {0} f b.requests (r ∷ []),
)

-- What is wanted, and the bound, depend on the sizes of the cache only.
IsWithin-SameSizes :
    (s : DecodingScheduler) (m : BlockManager)
    → SameSizes s.block_manager m
    → IsWithin s
    → IsWithin (record s { block_manager = m })
unfolding IsWithin
IsWithin-SameSizes s m same h = rw (same.block, same.max_gpu) h

fits_in-blocks :
    (s : DecodingScheduler) (b : BatchedRequests) (r : Request)
    → fits_in s b r ≡ true
    → batches_blocks s + waiting_blocks s + request_blocks s r ≤ s.block_manager.max_num_gpu_blocks
unfolding fits_in
fits_in-blocks s b r h = ground arith

-- The first loop ends once the demand is met, and each turn of the second keeps it met.
is_over-IsWithin : (s : DecodingScheduler) → is_over s ≡ false → IsWithin s
unfolding is_over IsWithin
is_over-IsWithin s h = ground arith

AddsWaiting-IsWithin : (s s' : DecodingScheduler) → AddsWaiting s s' → IsWithin s → IsWithin s'
unfolding IsWithin
AddsWaiting-IsWithin s s' a h = subst IsWithin (sym a.result) (
    omega (
      arith,
      sum_of-grown (request_blocks s) s.batch_queues (cur s) a.batch a.added a.current,
      fits_in-blocks s a.batch a.added a.fits,
      ap (sum_of (prompt_blocks s)) a.queue,
    ))

AddsSwapped-IsWithin : (s s' : DecodingScheduler) → AddsSwapped s s' → IsWithin s → IsWithin s'
unfolding IsWithin
AddsSwapped-IsWithin s s' a h = subst IsWithin (sym a.result) (
    IsWithin-SameSizes (added s a) a.manager
      (swap_requests-SameSizes s.block_manager (a.added ∷ []) true a.manager a.swapped)
      (within s a h))
  where
    added : (t : DecodingScheduler) → AddsSwapped t s' → DecodingScheduler
    added t b = record t {
      swapped_queue = b.left;
      batch_queues =
          set t.batch_queues (cur t)
            (record b.batch { requests = b.batch.requests ++ b.added ∷ [] });
    }

    within : (t : DecodingScheduler) (b : AddsSwapped t s') → IsWithin t → IsWithin (added t b)
    within t b g = omega (
      arith,
      sum_of-grown (request_blocks t) t.batch_queues (cur t) b.batch b.added b.current,
      fits_in-blocks t b.batch b.added b.fits,
    )

-- Once a batch is chosen, the requests in all batches and in the waiting queue want no more blocks than
-- the GPU has, whatever they wanted before.
pub get_next_batch-IsWithin :
    (s : DecodingScheduler) (b : BatchedRequests) (s' : DecodingScheduler)
    → get_next_batch s ≡ ok (b, s')
    → batches_blocks s' + waiting_blocks s' ≤ s'.block_manager.max_num_gpu_blocks
unfolding get_next_batch IsWithin
get_next_batch-IsWithin s b s' e =
    let (b0, got, e1) = >>=-eq-ok (get_batch (advance s) (cur (advance s))) _ e in
    let (s1, roomy, e2) = >>=-eq-ok (make_room (length b0.requests) (advance s)) _ e1 in
    let (s2, filled, e3) =
      >>=-eq-ok (add_loop (length s1.swapped_queue + length s1.waiting_queue) s1) _ e2 in
    let (b1, got1, e4) = >>=-eq-ok (get_batch s2 (cur s2)) _ e3 in
    let (nothing, over) =
      make_room-keeps (λ t. Unit) (λ t t' swaps h. tt) _ (advance s) s1 roomy tt in
    let within =
      add_loop-keeps IsWithin AddsSwapped-IsWithin AddsWaiting-IsWithin _ s1 s2 filled
        (is_over-IsWithin s1 over) in
    subst IsWithin (ap (λ p. p.1) (ok-injective e4)) within
