-- ===== src/ContextScheduler.antt =====
-- distserve/context_stage_scheduler.py: the first-come-first-serve scheduler of the context stage.
-- Of the block manager the scheduler reads the block size and the capacity of the GPU alone.
pub mod Admission
pub mod Capacity
use Prim.Native.String.{String}
use text.Mathlib.Text.{◌==◌ as str_eq}
use recompute_or_migrate.Base.{
  ℕ, zero, suc, ◌+◌, ◌-◌, ◌*◌, ◌/◌, ◌%◌, ◌≤◌, ◌<◌, min, max, ◌≡◌, refl, sym, ap, subst, ◌∙◌, ◌≢◌,
  ◌↔◌, ◌⊎◌, inl, inr, Bool, true, false, not, ◌&&◌, ◌||◌, Option, none, some, List, [], ◌∷◌, ◌++◌,
  map, append-nil, append_assoc, arith, ltb, leb, ◌==◌, if◌then◌else◌, ltb→lt, lt→ltb, leb→le,
  le→leb, leb-false→lt, ==_iff, ==_refl, Bool-cases, Option-cases, &&-eq-true, is_some, length,
  take, drop, get_elem?, set, replicate, sum_of, keep, All, length-append, length-take, length-drop,
  take-append-drop, sum_of-append, range_from, range, one_if, count, count-append, count-take-drop,
  count-range, ℤ, pos, negsuc, pos_part, neg_part, sub_ℕ, ◌+ℤ◌, ◌-ℤ◌, ◌≤ℤ◌, ltb_ℤ, leb_ℤ, +ℤ_parts,
  -ℤ_parts, eq_of_parts, int_laws, Dict, lookup, insert, erase, has_key, keys, lookup-insert,
  lookup-erase, Distinct, insert-Distinct, erase-Distinct, total, total-erase_absent, total-erase,
  total-insert, total-congr, Error, assertion_error, value_error, key_error, index_error,
  runtime_error, not_implemented, attribute_error, Result, ok, err, ◌>>=◌, ◌>>◌, guard, or_raise,
  >>=-eq-ok, guarded-eq-ok, ok-injective, or_raise-eq-ok, guard-eq-ok,
}
use recompute_or_migrate.Config.{ContextStageSchedConfig}
use recompute_or_migrate.Request.{Request, get_input_len, get_num_input_tokens}
use recompute_or_migrate.Request.Batch.{BatchedRequests, empty, add_request, batch_num_input_tokens}
use recompute_or_migrate.BlockManager.{blocks_for}

pub record ContextScheduler : Type 0 where
  pub sched_config : ContextStageSchedConfig
  pub block_size : ℕ
  pub max_num_gpu_blocks : ℕ
  pub waiting_queue : List Request
  pub unaccepted_queue : List Request
  pub num_on_fly_request_block : ℤ

-- `get_context_stage_scheduler`: the one policy there is, or NotImplementedError.
unfoldable pub get_context_stage_scheduler :
    ContextStageSchedConfig → ℕ → ℕ → Result ContextScheduler
get_context_stage_scheduler config block_size max_num_gpu_blocks = do
  guard (str_eq config.policy "fcfs") not_implemented
  ok (record {
    sched_config = config;
    block_size = block_size;
    max_num_gpu_blocks = max_num_gpu_blocks;
    waiting_queue = [];
    unaccepted_queue = [];
    num_on_fly_request_block = pos 0;
  })

unfoldable pub add_waiting : ContextScheduler → Request → ContextScheduler
add_waiting s r = record s { waiting_queue = s.waiting_queue ++ r ∷ [] }

-- `del queue[i]` at the first request with the id; no change if there is none.
unfoldable pub delete_first : ℕ → List Request → List Request
delete_first k [] = []
delete_first k (r ∷ rs) = if r.request_id == k then rs else r ∷ delete_first k rs

unfoldable pub abort_request : ContextScheduler → ℕ → ContextScheduler
unfolding delete_first
abort_request s k = record s { waiting_queue = delete_first k s.waiting_queue }

abbrev pub prompt_blocks : ContextScheduler → Request → ℕ
prompt_blocks s r = blocks_for s.block_size (get_input_len r)

-- The three limits of `_check_add_to_cur_batch`.
unfoldable pub check_add_to_cur_batch : ContextScheduler → BatchedRequests → Request → Bool
check_add_to_cur_batch s next_batch r =
    ltb (length next_batch.requests) s.sched_config.max_batch_size
    && (leb (batch_num_input_tokens next_batch + get_num_input_tokens r)
          s.sched_config.max_tokens_per_batch
        && leb_ℤ
            (pos (
                sum_of (prompt_blocks s) (next_batch.requests ++ r ∷ [])
                + sum_of (prompt_blocks s) s.unaccepted_queue)
              +ℤ s.num_on_fly_request_block)
            (pos s.max_num_gpu_blocks))

-- The `while` loop: the batch, and what is left of the waiting queue.
unfoldable pub fill_batch :
    ContextScheduler → BatchedRequests → List Request → Result (BatchedRequests × List Request)
fill_batch s next_batch [] = ok (next_batch, [])
fill_batch s next_batch (r ∷ rs) =
    let more = (do next_batch' ← add_request next_batch r; fill_batch s next_batch' rs) in
    if check_add_to_cur_batch s next_batch r then more else ok (next_batch, r ∷ rs)

unfoldable pub get_next_batch_and_pop :
    ContextScheduler → Result (BatchedRequests × ContextScheduler)
get_next_batch_and_pop s = do
  (next_batch, waiting) ← fill_batch s empty s.waiting_queue
  ok (
    next_batch,
    record s {
      waiting_queue = waiting;
      num_on_fly_request_block =
          s.num_on_fly_request_block +ℤ pos (sum_of (prompt_blocks s) next_batch.requests);
    },
  )

unfoldable pub on_finish_requests : ContextScheduler → BatchedRequests → ContextScheduler
on_finish_requests s b = record s {
  unaccepted_queue = s.unaccepted_queue ++ keep (λ r. not r.is_finished) b.requests;
  num_on_fly_request_block =
      s.num_on_fly_request_block -ℤ pos (sum_of (prompt_blocks s) b.requests);
}

unfoldable pub on_request_migrated : ContextScheduler → ℕ → ContextScheduler
unfolding delete_first
on_request_migrated s request_id = record s {
  unaccepted_queue = delete_first request_id s.unaccepted_queue;
}

unfoldable pub get_num_waiting_requests : ContextScheduler → ℕ
get_num_waiting_requests s = length s.waiting_queue
