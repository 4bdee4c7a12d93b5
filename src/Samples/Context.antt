-- ===== src/Samples/Context.antt =====
-- The theorems on the scheduler of the context stage at small inputs.
use recompute_or_migrate.Base.{◌≡◌, refl, false, none, [], ◌∷◌, arith, pos, ◌+ℤ◌, ok}
use recompute_or_migrate.Request.{get_num_input_tokens}
use recompute_or_migrate.Request.Batch.{BatchedRequests, add_request}
use recompute_or_migrate.ContextScheduler.{
  ContextScheduler, get_next_batch_and_pop, fill_batch, check_add_to_cur_batch, on_finish_requests,
}
use recompute_or_migrate.ContextScheduler.Capacity.{
  IsWithin, takes, finishes, here, next, Reach-IsWithin,
}
use recompute_or_migrate.Samples.{short, long, context}

-- The two prompts have seven tokens, so the second request waits.
abbrev first : BatchedRequests
first = record { requests = short ∷ []; start_time = none; is_running = false }

abbrev popped_first : ContextScheduler
popped_first = record context { waiting_queue = long ∷ []; num_on_fly_request_block = pos 1 }

takes_first : get_next_batch_and_pop context ≡ ok (first, popped_first)
unfolding get_next_batch_and_pop fill_batch check_add_to_cur_batch add_request get_num_input_tokens
    ◌+ℤ◌
takes_first = refl

context-IsWithin : IsWithin context []
context-IsWithin = record { counted = refl; fits = omega arith }

Reach-IsWithin_example : IsWithin (on_finish_requests popped_first first) []
Reach-IsWithin_example = Reach-IsWithin context-IsWithin (
    next (next here (takes context first popped_first [] takes_first))
      (finishes popped_first first first [] refl))
