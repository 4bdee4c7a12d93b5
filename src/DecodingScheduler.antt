-- ===== src/DecodingScheduler.antt =====
-- distserve/decoding_stage_scheduler.py: the first-come-first-serve scheduler of the decoding stage.
-- The block manager, which the scheduler shares with its engine, stands in the scheduler's state.
pub mod Demand
pub mod Rounds
pub mod Loops
pub mod Population
pub mod Queues
use Prim.Native.String.{String}
use text.Mathlib.Text.{◌==◌ as str_eq}
use recompute_or_migrate.Base.{
  ℕ, zero, suc, ◌+◌, ◌-◌, ◌*◌, ◌/◌, ◌%◌, ◌≤◌, ◌<◌, min, max, ◌≡◌, refl, sym, ap, subst, ◌∙◌, ◌≢◌,
  ◌↔◌, ◌⊎◌, inl, inr, Bool, true, false, not, ◌&&◌, ◌||◌, Option, none, some, List, [], ◌∷◌, ◌++◌,
  map, append-nil, append_assoc, arith, ltb, leb, ◌==◌, if◌then◌else◌, ltb→lt, lt→ltb, leb→le,
  le→leb, leb-false→lt, ==_iff, ==_refl, Bool-cases, Option-cases, &&-eq-true, is_some, length,
  take, drop, get_elem?, set, replicate, sum_of, keep, All, length-append, length-take, length-drop,
  take-append-drop, sum_of-append, range_from, range, one_if, count, count-append, count-take-drop,
  count-range, ℤ, pos, negsuc, pos_part, neg_part, sub_ℕ, ◌+ℤ◌, ◌-ℤ◌, ◌≤ℤ◌, ltb_ℤ, leb_ℤ, +ℤ_parts,
  -ℤ_parts, eq_of_parts, int_laws, Dict, lookup, insert, erase, has_key, keys, lookup-insert,
  lookup-erase, Distinct, insert-Distinct, erase-Distinct, total, total-erase_absent, total-erase,
  total-insert, total-congr, Error, assertion_error, value_error, key_error, index_error,
  runtime_error, not_implemented, attribute_error, Result, ok, err, ◌>>=◌, ◌>>◌, guard, or_raise,
  >>=-eq-ok, guarded-eq-ok, ok-injective, or_raise-eq-ok, guard-eq-ok,
}
use recompute_or_migrate.Config.{DecodingStageSchedConfig}
use recompute_or_migrate.Request.{Request, get_input_len, get_output_len, get_num_input_tokens}
use recompute_or_migrate.Request.Batch.{
  BatchedRequests, empty, add_request, batch_num_input_tokens, pop_finished_requests,
}
use recompute_or_migrate.Request.Migrating.{MigratingRequest}
use recompute_or_migrate.BlockManager.{
  BlockManager, blocks_for, swap_in_requests, swap_out_requests, get_num_avail_gpu_blocks,
}

pub record DecodingScheduler : Type 0 where
  pub sched_config : DecodingStageSchedConfig
  pub pipeline_parallel_size : ℕ
  pub unaccepted_queue : List MigratingRequest
  pub waiting_queue : List Request
  pub swapped_queue : List Request
  pub cur_index : ℤ
  pub batch_queues : List BatchedRequests
  pub block_manager : BlockManager

unfoldable pub get_decoding_stage_scheduler :
    DecodingStageSchedConfig → ℕ → BlockManager → Result DecodingScheduler
get_decoding_stage_scheduler config pipeline_parallel_size block_manager = do
  guard (str_eq config.policy "fcfs") not_implemented
  ok (record {
    sched_config = config;
    pipeline_parallel_size = pipeline_parallel_size;
    unaccepted_queue = [];
    waiting_queue = [];
    swapped_queue = [];
    cur_index = negsuc 0;
    batch_queues = replicate pipeline_parallel_size empty;
    block_manager = block_manager;
  })

-- `_get_block_needed` of the whole request, and of its prompt.
abbrev pub request_blocks : DecodingScheduler → Request → ℕ
request_blocks s r = blocks_for s.block_manager.block_size (get_input_len r + get_output_len r)

abbrev pub prompt_blocks : DecodingScheduler → Request → ℕ
prompt_blocks s r = blocks_for s.block_manager.block_size (get_input_len r)

-- The blocks of all batches; there are as many batches as stages of the pipeline.
abbrev pub batches_blocks : DecodingScheduler → ℕ
batches_blocks s = sum_of (λ b. sum_of (request_blocks s) b.requests) s.batch_queues

abbrev pub waiting_blocks : DecodingScheduler → ℕ
waiting_blocks s = sum_of (prompt_blocks s) s.waiting_queue

-- An index of Python: a negative one counts from the end.
abbrev pub index : ℤ → ℕ → ℕ
index (pos i) size = i
index (negsuc i) size = size - suc i

abbrev pub cur : DecodingScheduler → ℕ
cur s = index s.cur_index (length s.batch_queues)

unfoldable pub get_batch : DecodingScheduler → ℕ → Result BatchedRequests
get_batch s i = or_raise (get_elem? s.batch_queues i) index_error

unfoldable pub fits_in : DecodingScheduler → BatchedRequests → Request → Bool
fits_in s b r =
    ltb (length b.requests) s.sched_config.max_batch_size
    && (leb (batch_num_input_tokens b + get_num_input_tokens r) s.sched_config.max_tokens_per_batch
        && leb (batches_blocks s + waiting_blocks s + request_blocks s r)
            s.block_manager.max_num_gpu_blocks)

unfoldable pub check_add_to_cur_batch : DecodingScheduler → Request → Result Bool
check_add_to_cur_batch s r = do b ← get_batch s (cur s); ok (fits_in s b r)

unfoldable pub add_request_migrating : DecodingScheduler → MigratingRequest → DecodingScheduler
add_request_migrating s m = record s { unaccepted_queue = s.unaccepted_queue ++ m ∷ [] }

-- Marks the first request with the id as finished, if there is one.
unfoldable pub mark_finished : ℕ → List Request → Option (List Request)
mark_finished k [] = none
mark_finished k (r ∷ rs) =
    if r.request_id == k
    then some (record r { is_finished = true } ∷ rs)
    else elim (mark_finished k rs) [ none ↦ none | some rs' ↦ some (r ∷ rs') ]

unfoldable pub mark_in_batches : ℕ → List BatchedRequests → Option (List BatchedRequests)
mark_in_batches k [] = none
mark_in_batches k (b ∷ bs) = elim (mark_finished k b.requests) [
  | some rs ↦ some (record b { requests = rs } ∷ bs)
  | none ↦ elim (mark_in_batches k bs) [ none ↦ none | some bs' ↦ some (b ∷ bs') ]
]

unfoldable pub delete_first : ℕ → List Request → List Request
delete_first k [] = []
delete_first k (r ∷ rs) = if r.request_id == k then rs else r ∷ delete_first k rs

unfoldable pub abort_request : DecodingScheduler → ℕ → DecodingScheduler
abort_request s k = elim (mark_in_batches k s.batch_queues) [
  | some batches ↦ record s { batch_queues = batches }
  | none ↦ record s { waiting_queue = delete_first k s.waiting_queue }
]

-- `(cur_index + 1) % pipeline_parallel_size`; the size is positive, so that this is defined.
abbrev pub next_index : DecodingScheduler → ℕ
next_index s = pos_part (s.cur_index +ℤ pos 1) % s.pipeline_parallel_size

unfoldable pub pop_finished : DecodingScheduler → Result (List Request × DecodingScheduler)
pop_finished s = do
  b ← get_batch s (next_index s)
  let (finished, b') = pop_finished_requests b
  ok (finished, record s { batch_queues = set s.batch_queues (next_index s) b' })

-- `requests.pop(-1)`
unfoldable pub pop_last : List Request → Option (List Request × Request)
pop_last [] = none
pop_last (r ∷ []) = some ([], r)
pop_last (r ∷ q ∷ rs) = elim (pop_last (q ∷ rs)) [
  | none ↦ none
  | some (front, last) ↦ some (r ∷ front, last)
]

-- The test of the first loop: the requests want more blocks than the GPU has.
unfoldable pub is_over : DecodingScheduler → Bool
is_over s = ltb s.block_manager.max_num_gpu_blocks (batches_blocks s + waiting_blocks s)

-- The body of the first loop: the last request of the current batch is swapped out.
unfoldable pub swap_out_last : DecodingScheduler → Result DecodingScheduler
swap_out_last s = do
  b ← get_batch s (cur s)
  (front, last) ← or_raise (pop_last b.requests) index_error
  manager ← swap_out_requests s.block_manager (last ∷ [])
  ok (record s {
    swapped_queue = s.swapped_queue ++ last ∷ [];
    batch_queues = set s.batch_queues (cur s) (record b { requests = front });
    block_manager = manager;
  })

-- The first loop, by the number of requests in the current batch: past them `pop` raises.
unfoldable pub make_room : ℕ → DecodingScheduler → Result DecodingScheduler
make_room zero s = if is_over s then err index_error else ok s
make_room (suc n) s =
    let more = (do s' ← swap_out_last s; make_room n s') in if is_over s then more else ok s

abbrev pub put_in_cur : DecodingScheduler → BatchedRequests → DecodingScheduler
put_in_cur s b = record s { batch_queues = set s.batch_queues (cur s) b }

-- The two bodies of the second loop, each with its test: `none` is the `break`.
unfoldable pub add_swapped :
    DecodingScheduler → Request → List Request → Result (Option DecodingScheduler)
add_swapped s r rs = do
  fits ← check_add_to_cur_batch s r
  let swap_in = (do
    manager ← swap_in_requests s.block_manager (r ∷ [])
    b ← get_batch s (cur s)
    b' ← add_request b r
    ok (
        some (record s {
          swapped_queue = rs;
          batch_queues = set s.batch_queues (cur s) b';
          block_manager = manager;
        })))
  if fits then swap_in else ok none

unfoldable pub add_waiting :
    DecodingScheduler → Request → List Request → Result (Option DecodingScheduler)
add_waiting s r rs = do
  fits ← check_add_to_cur_batch s r
  let take_in = (do
    b ← get_batch s (cur s)
    b' ← add_request b r
    ok (some (record s { waiting_queue = rs; batch_queues = set s.batch_queues (cur s) b' })))
  if fits then take_in else ok none

-- A turn of the second loop: the swapped queue first. With both queues empty the loop is over.
unfoldable pub add_step : DecodingScheduler → Result (Option DecodingScheduler)
add_step s = elim s.swapped_queue [
  | r ∷ rs ↦ add_swapped s r rs
  | [] ↦ elim s.waiting_queue [ r ∷ rs ↦ add_waiting s r rs | [] ↦ ok none ]
]

-- The second loop, by the number of requests in the two queues.
unfoldable pub add_loop : ℕ → DecodingScheduler → Result DecodingScheduler
add_loop zero s = ok s
add_loop (suc n) s = do s' ← add_step s; elim s' [ none ↦ ok s | some t ↦ add_loop n t ]

unfoldable pub advance : DecodingScheduler → DecodingScheduler
advance s = record s { cur_index = pos (next_index s) }

unfoldable pub get_next_batch : DecodingScheduler → Result (BatchedRequests × DecodingScheduler)
unfolding advance
get_next_batch s = do
  let s0 = advance s
  b ← get_batch s0 (cur s0)
  s1 ← make_room (length b.requests) s0
  s2 ← add_loop (length s1.swapped_queue + length s1.waiting_queue) s1
  b' ← get_batch s2 (cur s2)
  ok (b', s2)

abbrev pub get_processing_num_requests : DecodingScheduler → ℕ
get_processing_num_requests s = sum_of (λ b. length b.requests) s.batch_queues

abbrev pub get_waiting_num_requests : DecodingScheduler → ℕ
get_waiting_num_requests s = length s.waiting_queue

abbrev pub get_total_num_requests : DecodingScheduler → ℕ
get_total_num_requests s = get_processing_num_requests s + get_waiting_num_requests s

-- Few enough blocks wait, and there are blocks for the prompt. The threshold is in percents.
unfoldable pub should_accept : DecodingScheduler → MigratingRequest → Bool
should_accept s m =
    ltb (waiting_blocks s * 100)
      (s.block_manager.max_num_gpu_blocks * s.sched_config.waiting_block_prop_threshold)
    && leb (prompt_blocks s m.req) (get_num_avail_gpu_blocks s.block_manager)

-- The loop of `post_process`, over the unaccepted queue. `migrate` is the engine's callback, taken as
-- one step: nothing is added to the queue during its `await`.
unfoldable pub accept_loop :
    (BlockManager → MigratingRequest → Result BlockManager)
    → DecodingScheduler
    → List MigratingRequest
    → Result DecodingScheduler
accept_loop migrate s [] = ok (record s { unaccepted_queue = [] })
accept_loop migrate s (m ∷ ms) =
    let more = (do
      manager ← migrate s.block_manager m
      accept_loop migrate
          (record s { waiting_queue = s.waiting_queue ++ m.req ∷ []; block_manager = manager })
          ms) in
    if should_accept s m then more else ok (record s { unaccepted_queue = m ∷ ms })

unfoldable pub post_process :
    (BlockManager → MigratingRequest → Result BlockManager)
    → DecodingScheduler
    → Result DecodingScheduler
unfolding accept_loop
post_process migrate s = accept_loop migrate s s.unaccepted_queue
