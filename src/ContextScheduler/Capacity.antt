-- ===== src/ContextScheduler/Capacity.antt =====
-- distserve/context_stage_scheduler.py: the blocks promised to requests never pass the capacity.
use recompute_or_migrate.Base.{
  ℕ, ◌+◌, ◌≤◌, ◌≡◌, refl, ap, subst, inl, inr, Bool, not, List, [], ◌∷◌, ◌++◌, map, arith, sum_of,
  keep, sum_of-append, pos, ◌+ℤ◌, ◌-ℤ◌, ok,
}
use recompute_or_migrate.Request.{Request, get_input_len}
use recompute_or_migrate.Request.Batch.{BatchedRequests}
use recompute_or_migrate.ContextScheduler.{
  ContextScheduler, prompt_blocks, delete_first, get_next_batch_and_pop, add_waiting, abort_request,
  on_finish_requests, on_request_migrated,
}
use recompute_or_migrate.ContextScheduler.Admission.{
  WithinLimits, get_next_batch_and_pop-Admitted, popped, get_next_batch_and_pop-popped,
}

abbrev pub batch_blocks : ContextScheduler → List BatchedRequests → ℕ
batch_blocks s = sum_of (λ b. sum_of (prompt_blocks s) b.requests)

-- `on_fly` are the batches that were handed out and have not finished. The counter is their blocks,
-- and with the unaccepted requests they fit on the GPU.
pub record IsWithin (s : ContextScheduler) (on_fly : List BatchedRequests) : Type 0 where
  pub counted : s.num_on_fly_request_block ≡ pos (batch_blocks s on_fly)
  pub fits :
      sum_of (prompt_blocks s) s.unaccepted_queue + batch_blocks s on_fly ≤ s.max_num_gpu_blocks

-- The events that the engine brings to the scheduler. Batches finish in the order in which they
-- were handed out; `b'` is the batch after its iteration, with its tokens.
pub data Step
    : ContextScheduler
      → List BatchedRequests
      → ContextScheduler
      → List BatchedRequests
      → Type 0 where
  adds :
      (s : ContextScheduler) (r : Request) (on_fly : List BatchedRequests)
      → Step s on_fly (add_waiting s r) on_fly
  aborts :
      (s : ContextScheduler) (k : ℕ) (on_fly : List BatchedRequests)
      → Step s on_fly (abort_request s k) on_fly
  takes :
      (s : ContextScheduler) (b : BatchedRequests) (s' : ContextScheduler)
      (on_fly : List BatchedRequests)
      → get_next_batch_and_pop s ≡ ok (b, s')
      → Step s on_fly s' (on_fly ++ b ∷ [])
  finishes :
      (s : ContextScheduler) (b b' : BatchedRequests) (on_fly : List BatchedRequests)
      → map get_input_len b'.requests ≡ map get_input_len b.requests
      → Step s (b ∷ on_fly) (on_finish_requests s b') on_fly
  migrates :
      (s : ContextScheduler) (k : ℕ) (on_fly : List BatchedRequests)
      → Step s on_fly (on_request_migrated s k) on_fly

pub data Reach (s : ContextScheduler) (on_fly : List BatchedRequests)
    : ContextScheduler → List BatchedRequests → Type 0 where
  here : Reach s on_fly s on_fly
  next :
      {t u : ContextScheduler} {f g : List BatchedRequests}
      → Reach s on_fly t f
      → Step t f u g
      → Reach s on_fly u g

sum-delete_first :
    (f : Request → ℕ) (k : ℕ) (rs : List Request) → sum_of f (delete_first k rs) ≤ sum_of f rs
unfolding delete_first
sum-delete_first f k [] = omega arith
sum-delete_first f k (r ∷ rs) = ground (arith, sum-delete_first f k rs)

sum-keep :
    (f : Request → ℕ) (p : Request → Bool) (rs : List Request) → sum_of f (keep p rs) ≤ sum_of f rs
sum-keep f p [] = omega arith
sum-keep f p (r ∷ rs) = ground (arith, sum-keep f p rs)

-- The blocks of a batch depend on the lengths of its prompts alone.
sum-input_len :
    (s : ContextScheduler) (rs qs : List Request)
    → map get_input_len rs ≡ map get_input_len qs
    → sum_of (prompt_blocks s) rs ≡ sum_of (prompt_blocks s) qs
sum-input_len s [] [] e = refl
sum-input_len s [] (q ∷ qs) e = cc
sum-input_len s (r ∷ rs) [] e = cc
sum-input_len s (r ∷ rs) (q ∷ qs) e = ground (arith, sum-input_len s rs qs)

popped-IsWithin :
    (s : ContextScheduler) (b : BatchedRequests) (left : List Request)
    (on_fly : List BatchedRequests)
    → IsWithin s on_fly
    → WithinLimits s b
    → IsWithin (popped s b left) (on_fly ++ b ∷ [])
unfolding ◌+ℤ◌
popped-IsWithin s b left on_fly v limits = record {
  counted = ground (
    arith,
    v.counted,
    sum_of-append (λ (c : BatchedRequests). sum_of (prompt_blocks s) c.requests) on_fly (b ∷ []),
  );
  fits = elim limits.blocks [
    | inl none_taken ↦ ground (
      arith,
      v.fits,
      ap (sum_of (prompt_blocks s)) none_taken,
      sum_of-append (λ (c : BatchedRequests). sum_of (prompt_blocks s) c.requests) on_fly (b ∷ []),
    )
    | inr enough ↦ ground (
      arith,
      v.counted,
      enough,
      sum_of-append (λ (c : BatchedRequests). sum_of (prompt_blocks s) c.requests) on_fly (b ∷ []),
    )
  ];
}

takes-IsWithin :
    (s : ContextScheduler) (b : BatchedRequests) (s' : ContextScheduler)
    (on_fly : List BatchedRequests)
    → IsWithin s on_fly
    → get_next_batch_and_pop s ≡ ok (b, s')
    → IsWithin s' (on_fly ++ b ∷ [])
takes-IsWithin s b s' on_fly v e =
    subst (λ t. IsWithin t (on_fly ++ b ∷ [])) (get_next_batch_and_pop-popped s b s' e)
      (popped-IsWithin s b s'.waiting_queue on_fly v
        (get_next_batch_and_pop-Admitted s b s' e).limits)

finishes-IsWithin :
    (s : ContextScheduler) (b b' : BatchedRequests) (on_fly : List BatchedRequests)
    → map get_input_len b'.requests ≡ map get_input_len b.requests
    → IsWithin s (b ∷ on_fly)
    → IsWithin (on_finish_requests s b') on_fly
unfolding on_finish_requests ◌-ℤ◌
finishes-IsWithin s b b' on_fly same v = record {
  counted = ground (arith, v.counted, sum-input_len s b'.requests b.requests same);
  fits = ground (
    arith,
    v.fits,
    sum-input_len s b'.requests b.requests same,
    sum_of-append (prompt_blocks s) s.unaccepted_queue (keep (λ r. not r.is_finished) b'.requests),
    sum-keep (prompt_blocks s) (λ r. not r.is_finished) b'.requests,
  );
}

Step-IsWithin :
    {s t : ContextScheduler} {f g : List BatchedRequests}
    → Step s f t g
    → IsWithin s f
    → IsWithin t g
unfolding add_waiting abort_request on_request_migrated
Step-IsWithin (adds s r on_fly) v = record { counted = v.counted; fits = v.fits }
Step-IsWithin (aborts s k on_fly) v = record { counted = v.counted; fits = v.fits }
Step-IsWithin (takes s b s' on_fly e) v = takes-IsWithin s b s' on_fly v e
Step-IsWithin (finishes s b b' on_fly same) v = finishes-IsWithin s b b' on_fly same v
Step-IsWithin (migrates s k on_fly) v = record {
  counted = v.counted;
  fits = omega (arith, v.fits, sum-delete_first (prompt_blocks s) k s.unaccepted_queue);
}

-- Whatever the engine does with the scheduler, in whatever order: the counter of blocks on the fly is
-- that of the batches that have not finished, it is never negative, and together with the
-- requests that the decoding stage has not accepted they never need more blocks than the GPU has.
pub Reach-IsWithin :
    {s : ContextScheduler} {f : List BatchedRequests} {t : ContextScheduler}
    {g : List BatchedRequests}
    → IsWithin s f
    → Reach s f t g
    → IsWithin t g
Reach-IsWithin v here = v
Reach-IsWithin v (next r st) = Step-IsWithin st (Reach-IsWithin v r)
