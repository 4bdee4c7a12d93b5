-- ===== src/ContextScheduler/Admission.antt =====
-- distserve/context_stage_scheduler.py: which requests `get_next_batch_and_pop` takes.
use recompute_or_migrate.Base.{
  ℕ, ◌+◌, ◌≤◌, ◌≡◌, refl, sym, ap, subst, ◌⊎◌, inl, inr, true, false, List, [], ◌∷◌, ◌++◌,
  append_assoc, arith, leb→le, Bool-cases, &&-eq-true, length, sum_of, length-append, sum_of-append,
  ℤ, pos, ◌+ℤ◌, ◌≤ℤ◌, ok, >>=-eq-ok, ok-injective,
}
use mathlib.Core.List.{map-append}
use recompute_or_migrate.Request.{Request, get_num_input_tokens}
use recompute_or_migrate.Request.Batch.{
  BatchedRequests, empty, add_request, batch_num_input_tokens, mem_id, get_request_ids,
}
use recompute_or_migrate.ContextScheduler.{
  ContextScheduler, prompt_blocks, check_add_to_cur_batch, fill_batch, get_next_batch_and_pop,
}

-- The blocks that are promised: to the batch, to the requests that wait for the decoding stage and
-- to the batches that are being processed.
abbrev pub promised : ContextScheduler → List Request → ℤ
promised s rs =
    pos (sum_of (prompt_blocks s) rs + sum_of (prompt_blocks s) s.unaccepted_queue)
    +ℤ s.num_on_fly_request_block

-- What a batch keeps to: the three limits, where it is not empty.
pub record WithinLimits (s : ContextScheduler) (b : BatchedRequests) : Type 0 where
  pub size : length b.requests ≤ s.sched_config.max_batch_size
  pub tokens : batch_num_input_tokens b ≤ s.sched_config.max_tokens_per_batch
  pub blocks : (b.requests ≡ []) ⊎ (promised s b.requests ≤ℤ pos s.max_num_gpu_blocks)

-- The loop stops at the first request that does not fit.
abbrev pub Refuses : ContextScheduler → BatchedRequests → List Request → Type 0
Refuses s b [] = Unit
Refuses s b (r ∷ rs) = check_add_to_cur_batch s b r ≡ false

pub record Admitted (s : ContextScheduler) (b : BatchedRequests) (waiting : List Request)
    (b' : BatchedRequests) (left : List Request) : Type 0 where
  pub order : b.requests ++ waiting ≡ b'.requests ++ left
  pub limits : WithinLimits s b'
  pub greedy : Refuses s b' left

add_request-ok :
    (b b' : BatchedRequests) (r : Request)
    → add_request b r ≡ ok b'
    → b'.requests ≡ b.requests ++ r ∷ []
unfolding add_request
add_request-ok b b' r e = ground arith

checked-WithinLimits :
    (s : ContextScheduler) (b b' : BatchedRequests) (r : Request)
    → check_add_to_cur_batch s b r ≡ true
    → b'.requests ≡ b.requests ++ r ∷ []
    → WithinLimits s b'
unfolding check_add_to_cur_batch
checked-WithinLimits s b b' r fits e = record {
  size = ground (arith, ap length e, length-append b.requests (r ∷ []));
  tokens = ground (
    arith,
    ap (sum_of get_num_input_tokens) e,
    sum_of-append get_num_input_tokens b.requests (r ∷ []),
  );
  blocks = inr (rw e (leb→le _ _ (&&-eq-true _ _ (&&-eq-true _ _ fits).1).1));
}

fill_batch-Admitted :
    (s : ContextScheduler) (b : BatchedRequests) (waiting : List Request) (b' : BatchedRequests)
    (left : List Request)
    → WithinLimits s b
    → fill_batch s b waiting ≡ ok (b', left)
    → Admitted s b waiting b' left
unfolding fill_batch
fill_batch-Admitted s b [] b' left h e =
    subst (λ p. Admitted s b [] p.0 p.1) (ok-injective e)
      (record { order = refl; limits = h; greedy = tt })
fill_batch-Admitted s b (r ∷ rs) b' left h e = elim (Bool-cases (check_add_to_cur_batch s b r)) [
  | inl fits ↦
      let (b1, added, more) = >>=-eq-ok (add_request b r) _ (rw fits at e) in
      let a =
        fill_batch-Admitted s b1 rs b' left
          (checked-WithinLimits s b b1 r fits (add_request-ok b b1 r added)) more in
      record {
        order = cc (append_assoc b.requests (r ∷ []) rs, add_request-ok b b1 r added, a.order);
        limits = a.limits;
        greedy = a.greedy;
      }
  | inr full ↦
      subst (λ p. Admitted s b (r ∷ rs) p.0 p.1) (ok-injective (rw full at e))
        (record { order = refl; limits = h; greedy = full })
]

empty-WithinLimits : (s : ContextScheduler) → WithinLimits s empty
empty-WithinLimits s = record { size = omega arith; tokens = omega arith; blocks = inl refl }

-- The scheduler after the batch is popped.
abbrev pub popped : ContextScheduler → BatchedRequests → List Request → ContextScheduler
popped s b left = record s {
  waiting_queue = left;
  num_on_fly_request_block =
      s.num_on_fly_request_block +ℤ pos (sum_of (prompt_blocks s) b.requests);
}

pub get_next_batch_and_pop-popped :
    (s : ContextScheduler) (b : BatchedRequests) (s' : ContextScheduler)
    → get_next_batch_and_pop s ≡ ok (b, s')
    → popped s b s'.waiting_queue ≡ s'
unfolding get_next_batch_and_pop
get_next_batch_and_pop-popped s b s' e =
    let ((b1, left), filled, same) = >>=-eq-ok (fill_batch s empty s.waiting_queue) _ e in
    subst (λ p. popped s p.0 p.1.waiting_queue ≡ p.1) (ok-injective same) refl

pub get_next_batch_and_pop-Admitted :
    (s : ContextScheduler) (b : BatchedRequests) (s' : ContextScheduler)
    → get_next_batch_and_pop s ≡ ok (b, s')
    → Admitted s empty s.waiting_queue b s'.waiting_queue
unfolding get_next_batch_and_pop
get_next_batch_and_pop-Admitted s b s' e =
    let ((b1, left), filled, same) = >>=-eq-ok (fill_batch s empty s.waiting_queue) _ e in
    subst (λ p. Admitted s empty s.waiting_queue p.0 p.1.waiting_queue) (ok-injective same)
      (fill_batch-Admitted s empty s.waiting_queue b1 left (empty-WithinLimits s) filled)

-- No two requests have one id.
abbrev pub DistinctIds : List Request → List ℕ → Type 0
DistinctIds [] seen = Unit
DistinctIds (r ∷ rs) seen =
    (mem_id r.request_id seen ≡ false) × DistinctIds rs (seen ++ r.request_id ∷ [])

add_request_new :
    (b : BatchedRequests) (r : Request)
    → mem_id r.request_id (get_request_ids b) ≡ false
    → add_request b r ≡ ok (record b { requests = b.requests ++ r ∷ [] })
unfolding add_request
add_request_new b r fresh = rw fresh

fill_batch_total :
    (s : ContextScheduler) (b : BatchedRequests) (waiting : List Request)
    → DistinctIds waiting (get_request_ids b)
    → (b' : BatchedRequests) × (left : List Request) × (fill_batch s b waiting ≡ ok (b', left))
unfolding fill_batch
fill_batch_total s b [] d = (b, [], refl)
fill_batch_total s b (r ∷ rs) d = elim (Bool-cases (check_add_to_cur_batch s b r)) [
  | inl fits ↦
      let b1 : BatchedRequests = record b { requests = b.requests ++ r ∷ [] } in
      let (b', left, e) = fill_batch_total s b1 rs (
        subst (DistinctIds rs)
          (sym (map-append (λ (q : Request). q.request_id) b.requests (r ∷ []))) d.1) in
      (b', left, rw (fits, add_request_new b r d.0) e)
  | inr full ↦ (b, r ∷ rs, rw full)
]

-- With distinct ids in the waiting queue the assertion of `add_request` never fails: there is a
-- next batch.
pub get_next_batch_and_pop_total :
    (s : ContextScheduler)
    → DistinctIds s.waiting_queue []
    → (b : BatchedRequests) × (s' : ContextScheduler) × (get_next_batch_and_pop s ≡ ok (b, s'))
unfolding get_next_batch_and_pop
get_next_batch_and_pop_total s d =
    let (b, left, e) = fill_batch_total s empty s.waiting_queue d in (b, popped s b left, rw e)
