-- ===== src/DecodingScheduler/Population.antt =====
-- distserve/decoding_stage_scheduler.py: `get_next_batch` moves requests between the queues and loses
-- none, and the cache stays well formed.
use recompute_or_migrate.Base.{
  ℕ, ◌+◌, ◌≡◌, refl, sym, ap, subst, true, false, some, List, [], ◌∷◌, ◌++◌, arith, ◌==◌, length,
  get_elem?, set, sum_of, sum_of-append, one_if, ok, >>=-eq-ok, ok-injective,
}
use recompute_or_migrate.Request.{Request}
use recompute_or_migrate.Request.Batch.{BatchedRequests}
use recompute_or_migrate.BlockManager.Holdings.{IsConserved}
use recompute_or_migrate.BlockManager.Swapping.{swap_requests-IsConserved}
use recompute_or_migrate.DecodingScheduler.{
  DecodingScheduler, cur, get_batch, make_room, add_loop, advance, get_next_batch,
}
use recompute_or_migrate.DecodingScheduler.Rounds.{SwapsOut, AddsSwapped, AddsWaiting}
use recompute_or_migrate.DecodingScheduler.Loops.{make_room-keeps, add_loop-keeps}
use recompute_or_migrate.DecodingScheduler.Demand.{sum_of-set}

-- How often a request with the id stands in a list, and in the batches, the waiting and the swapped
-- queue together.
abbrev pub copies : ℕ → List Request → ℕ
copies k rs = sum_of (λ r. one_if (r.request_id == k)) rs

abbrev pub batch_copies : ℕ → List BatchedRequests → ℕ
batch_copies k bs = sum_of (λ b. copies k b.requests) bs

abbrev pub population : ℕ → DecodingScheduler → ℕ
population k s = batch_copies k s.batch_queues + copies k s.waiting_queue + copies k s.swapped_queue

-- What one move leaves as it is: how many requests there are of an id, and a well-formed cache.
record Keeps (k n : ℕ) (s : DecodingScheduler) : Type 0 where
  counted : population k s ≡ n
  conserved : IsConserved s.block_manager

grown_copies :
    (k : ℕ) (bs : List BatchedRequests) (i : ℕ) (b : BatchedRequests) (r : Request)
    → get_elem? bs i ≡ some b
    → batch_copies k (set bs i (record b { requests = b.requests ++ r ∷ [] }))
      ≡ batch_copies k bs + one_if (r.request_id == k)
grown_copies k bs i b r e = omega (
  arith,
  sum_of-set (λ c. copies k c.requests) bs i b (record b { requests = b.requests ++ r ∷ [] }) e,
  sum_of-append {0} (λ q. one_if (q.request_id == k)) b.requests (r ∷ []),
)

shrunk_copies :
    (k : ℕ) (bs : List BatchedRequests) (i : ℕ) (b : BatchedRequests) (front : List Request)
    (r : Request)
    → get_elem? bs i ≡ some b
    → b.requests ≡ front ++ r ∷ []
    → batch_copies k (set bs i (record b { requests = front })) + one_if (r.request_id == k)
      ≡ batch_copies k bs
shrunk_copies k bs i b front r e split = omega (
  arith,
  sum_of-set (λ c. copies k c.requests) bs i b (record b { requests = front }) e,
  sum_of-append {0} (λ q. one_if (q.request_id == k)) front (r ∷ []),
  ap (copies k) split,
)

SwapsOut-Keeps : (k n : ℕ) (s s' : DecodingScheduler) → SwapsOut s s' → Keeps k n s → Keeps k n s'
SwapsOut-Keeps k n s s' w h = subst (Keeps k n) (sym w.result) (record {
  counted = omega (
    arith,
    h.counted,
    shrunk_copies k s.batch_queues (cur s) w.batch w.front w.last w.current w.split,
    sum_of-append {0} (λ q. one_if (q.request_id == k)) s.swapped_queue (w.last ∷ []),
  );
  conserved =
      swap_requests-IsConserved s.block_manager (w.last ∷ []) false w.manager h.conserved w.swapped;
})

AddsSwapped-Keeps :
    (k n : ℕ) (s s' : DecodingScheduler) → AddsSwapped s s' → Keeps k n s → Keeps k n s'
AddsSwapped-Keeps k n s s' a h = subst (Keeps k n) (sym a.result) (record {
  counted = omega (
    arith,
    h.counted,
    grown_copies k s.batch_queues (cur s) a.batch a.added a.current,
    ap (copies k) a.queue,
  );
  conserved =
      swap_requests-IsConserved s.block_manager (a.added ∷ []) true a.manager h.conserved a.swapped;
})

AddsWaiting-Keeps :
    (k n : ℕ) (s s' : DecodingScheduler) → AddsWaiting s s' → Keeps k n s → Keeps k n s'
AddsWaiting-Keeps k n s s' a h = subst (Keeps k n) (sym a.result) (record {
  counted = omega (
    arith,
    h.counted,
    grown_copies k s.batch_queues (cur s) a.batch a.added a.current,
    ap (copies k) a.queue,
  );
  conserved = h.conserved;
})

-- Over a well-formed cache, the choice of a batch loses no request and doubles none: each id stands as
-- often in the batches, the waiting and the swapped queue as before. The cache stays well formed.
pub get_next_batch-IsConserved :
    (s : DecodingScheduler) (b : BatchedRequests) (s' : DecodingScheduler) (k : ℕ)
    → IsConserved s.block_manager
    → get_next_batch s ≡ ok (b, s')
    → (population k s' ≡ population k s) × IsConserved s'.block_manager
unfolding get_next_batch advance
get_next_batch-IsConserved s b s' k c e =
    let (b0, got, e1) = >>=-eq-ok (get_batch (advance s) (cur (advance s))) _ e in
    let (s1, roomy, e2) = >>=-eq-ok (make_room (length b0.requests) (advance s)) _ e1 in
    let (s2, filled, e3) =
      >>=-eq-ok (add_loop (length s1.swapped_queue + length s1.waiting_queue) s1) _ e2 in
    let (b1, got1, e4) = >>=-eq-ok (get_batch s2 (cur s2)) _ e3 in
    let n : ℕ = population k s in
    let (first, over) =
      make_room-keeps (Keeps k n) (SwapsOut-Keeps k n) _ (advance s) s1 roomy
        (record { counted = refl; conserved = c }) in
    let second =
      add_loop-keeps (Keeps k n) (AddsSwapped-Keeps k n) (AddsWaiting-Keeps k n) _ s1 s2 filled
        first in
    let last = subst (Keeps k n) (ap (λ p. p.1) (ok-injective e4)) second in
    (last.counted, last.conserved)
