-- ===== src/Simulator/Workers.antt =====
-- simdistserve/base/worker.py: a worker, its two queues, and the batches that it takes from them.
-- A length is a natural number. Where a budget is cut, the cut is no larger than the budget.
pub mod Prefill
pub mod Chunks
pub mod Decode
pub mod Passes
use Prim.Native.String.{String}
use recompute_or_migrate.Base.{
  ℕ, zero, suc, ◌+◌, ◌-◌, ◌*◌, ◌/◌, ◌%◌, ◌≤◌, ◌<◌, min, max, ◌≡◌, refl, sym, ap, subst, ◌∙◌, ◌≢◌,
  ◌↔◌, ◌⊎◌, inl, inr, Bool, true, false, not, ◌&&◌, ◌||◌, Option, none, some, List, [], ◌∷◌, ◌++◌,
  map, append-nil, append_assoc, arith, ltb, leb, ◌==◌, if◌then◌else◌, ltb→lt, lt→ltb, leb→le,
  le→leb, leb-false→lt, ==_iff, ==_refl, Bool-cases, Option-cases, &&-eq-true, is_some, if_true,
  if_false, if_both, length, take, drop, get_elem?, set, replicate, sum_of, keep, All,
  length-append, length-take, length-drop, take-append-drop, sum_of-append, range_from, range,
  one_if, count, count-append, count-take-drop, count-range, ℤ, pos, negsuc, pos_part, neg_part,
  sub_ℕ, ◌+ℤ◌, ◌-ℤ◌, ◌≤ℤ◌, ltb_ℤ, leb_ℤ, +ℤ_parts, -ℤ_parts, eq_of_parts, int_laws, Dict, lookup,
  insert, erase, has_key, keys, lookup-insert, lookup-erase, Distinct, insert-Distinct,
  erase-Distinct, total, total-erase_absent, total-erase, total-insert, total-congr, Error,
  assertion_error, value_error, key_error, index_error, runtime_error, not_implemented,
  attribute_error, Result, ok, err, ◌>>=◌, ◌>>◌, guard, or_raise, >>=-eq-ok, >>=-ok, guarded-eq-ok,
  ok-injective, err≢ok, some-injective, none≢some, list-cases, or_raise-eq-ok, guard-eq-ok,
}
use recompute_or_migrate.Simulator.Estimates.{EngineType, get_prefill_time, get_decode_time}
use recompute_or_migrate.Simulator.Requests.{Request, current_context_len, do_prefill, do_decode}

-- What the process of a worker is at: the top of its loop, the wait for the wakeup event, the choice
-- after that event, or the time of a pass over its batches.
pub data Activity (Number : Type 0) : Type 0 where
  at_top waiting awake : Activity Number
  in_prefill : List (Request Number) → List (Request Number) → Activity Number
  in_decode : List (Request Number) → Activity Number

-- An entry of the worker's log.
pub data WorkerEvent : Type 0 where
  log_wait log_prefill log_decode : WorkerEvent

pub record WorkerEntry (Number : Type 0) : Type 0 where
  pub time : Number
  pub event : WorkerEvent
  pub num_tokens : ℕ
  pub prefill_bs : ℕ
  pub decode_bs : ℕ
  pub prefill_len_list : List ℕ
  pub decode_len_list : List ℕ

-- `next_worker` is the place of that worker among the workers of the cluster, and
-- `has_global_scheduler` tells whether the scheduler is set.
pub record Worker (Number : Type 0) : Type 0 where
  pub wid : ℕ
  pub pipe_rank : Option ℕ
  pub is_last_in_pipeline : Bool
  pub next_worker : Option ℕ
  pub has_global_scheduler : Bool
  pub should_request_stay : Bool
  pub model_type : Option String
  pub engine_type : EngineType
  pub tp_prefill : ℕ
  pub tp_decode : ℕ
  pub prefill_max_batch_size : ℕ
  pub decode_max_batch_size : ℕ
  pub prefill_max_tokens : ℕ
  pub decode_max_tokens : ℕ
  pub enable_chunked_prefill : Bool
  pub decode_back_pressure : Number
  pub prefill_queue : List (Request Number)
  pub decode_queue : List (Request Number)
  pub prefill_ips : ℕ
  pub activity : Activity Number
  pub log : List (WorkerEntry Number)

unfoldable pub same_chunk : Option ℕ → Option ℕ → Bool
same_chunk none none = true
same_chunk (some a) (some b) = a == b
same_chunk none (some b) = false
same_chunk (some a) none = false

-- The two tests that leave the loop.
unfoldable pub is_refused : Bool → ℕ → ℕ → Bool
is_refused chunked prefill_max_tokens size =
    if chunked then leb size 0 else ltb prefill_max_tokens size

-- The sizes of the tensor parallelism, for the prefill and for the decoding.
unfoldable pub resolve_tp : ℕ → Option ℕ → Option ℕ → ℕ × ℕ
resolve_tp tp none none = (tp, 1)
resolve_tp tp (some tp_prefill) (some tp_decode) = (tp_prefill, tp_decode)
resolve_tp tp none (some tp_decode) = (tp, 1)
resolve_tp tp (some tp_prefill) none = (tp, 1)

-- A limit of 0 stands for a number that is big enough.
unfoldable pub or_big : ℕ → ℕ
or_big limit = if ltb 0 limit then limit else 10_000_000

module _ {Number : Type 0} where
  unfoldable pub is_first_in_pipeline : Worker Number → Bool
  is_first_in_pipeline w = elim w.pipe_rank [ none ↦ false | some rank ↦ rank == 0 ]

  -- `int_mul n x` is `int(n * x)`.
  unfoldable pub has_back_pressure : (ℕ → Number → ℕ) → Worker Number → Bool
  unfolding current_context_len
  has_back_pressure int_mul w =
      ltb (int_mul w.decode_max_batch_size w.decode_back_pressure)
        (sum_of current_context_len w.decode_queue)

  -- `wakeup`: the process goes on if it waits for the event.
  unfoldable pub wakeup : Worker Number → Worker Number
  wakeup w = elim w.activity [
    | waiting ↦ record w { activity = awake }
    | at_top ↦ w
    | awake ↦ w
    | in_prefill ps ds ↦ w
    | in_decode ds ↦ w
  ]

  -- The loop of `_enter_decodes`: `budget` is its `decode_max_tokens`.
  unfoldable pub take_decodes :
      ℕ → ℕ → List (Request Number) → Result (List (Request Number) × List (Request Number))
  unfolding current_context_len
  take_decodes zero budget queue = ok ([], queue)
  take_decodes (suc rounds) budget [] = err index_error
  take_decodes (suc rounds) budget (r ∷ queue) =
      if ltb budget (current_context_len r + 1) then ok ([], r ∷ queue) else do
        taken ← take_decodes rounds (budget - (current_context_len r + 1)) queue
        ok (r ∷ taken.0, taken.1)

  -- The batch, and the worker without it.
  unfoldable pub enter_decodes :
      Number → ℕ → Worker Number → Result (List (Request Number) × Worker Number)
  unfolding take_decodes do_decode
  enter_decodes now remaining_tok_in_batch w = do
    taken ← take_decodes (min remaining_tok_in_batch (length w.decode_queue)) 50000 w.decode_queue
    ok (map (do_decode now (some (pos w.wid))) taken.0, record w { decode_queue = taken.1 })

  -- The loop of a worker that is not the first: the requests of one chunk.
  unfoldable pub take_chunk :
      ℕ → Option ℕ → List (Request Number) → Result (List (Request Number) × List (Request Number))
  unfolding same_chunk
  take_chunk zero chunk_id queue = ok ([], queue)
  take_chunk (suc rounds) chunk_id [] = err index_error
  take_chunk (suc rounds) chunk_id (r ∷ queue) =
      if not (same_chunk r.chunk_id chunk_id)
      then ok ([], r ∷ queue)
      else do taken ← take_chunk rounds chunk_id queue; ok (r ∷ taken.0, taken.1)

  -- What the first worker picks of a request. The chunk may have grown past the tokens that are left;
  -- then the difference is negative in the code, and no more than 0 here too.
  unfoldable pub sched_size : Bool → ℕ → ℕ → Request Number → ℕ
  sched_size chunked prefill_max_tokens chunk_size r =
      if chunked
      then min r.remain_prefill_lens (prefill_max_tokens - chunk_size)
      else r.remain_prefill_lens

  unfoldable pub picked : ℕ → ℕ → Request Number → Request Number
  picked size chunk_id r = record r {
    current_prefill_lens = size;
    remain_prefill_lens = r.remain_prefill_lens - size;
    chunk_id = some chunk_id;
  }

  -- The loop of the first worker. The assertion is that the rest of the request is not negative.
  unfoldable pub fill_chunk :
      Bool
      → ℕ
      → ℕ
      → ℕ
      → ℕ
      → List (Request Number)
      → Result (List (Request Number) × List (Request Number))
  unfolding sched_size is_refused picked
  fill_chunk chunked zero prefill_max_tokens chunk_size chunk_id queue = ok ([], queue)
  fill_chunk chunked (suc rounds) prefill_max_tokens chunk_size chunk_id [] = err index_error
  fill_chunk chunked (suc rounds) prefill_max_tokens chunk_size chunk_id (r ∷ queue) =
      let size = sched_size chunked prefill_max_tokens chunk_size r in
      if is_refused chunked prefill_max_tokens size
      then ok ([], r ∷ queue)
      else guard (leb size r.remain_prefill_lens) assertion_error >> do
        taken ←
            fill_chunk chunked rounds (prefill_max_tokens - size) (chunk_size + size) chunk_id queue
        ok (picked size chunk_id r ∷ taken.0, taken.1)

  -- The chunk of the first request in a queue.
  unfoldable pub head_chunk : List (Request Number) → Result (Option ℕ)
  head_chunk [] = err index_error
  head_chunk (r ∷ queue) = ok r.chunk_id

  -- The batch before its requests log their pass; `fresh_id` is the UUID that is drawn.
  unfoldable pub select_prefill :
      ℕ → Worker Number → Result (List (Request Number) × List (Request Number))
  unfolding take_chunk fill_chunk head_chunk is_first_in_pipeline
  select_prefill fresh_id w =
      let max_request_size = min w.prefill_max_batch_size (length w.prefill_queue) in
      if is_first_in_pipeline w
      then fill_chunk w.enable_chunked_prefill max_request_size w.prefill_max_tokens 0 fresh_id
          w.prefill_queue
      else do
        chunk_id ← head_chunk w.prefill_queue
        take_chunk max_request_size chunk_id w.prefill_queue

  unfoldable pub enter_prefill :
      Number → ℕ → Worker Number → Result (List (Request Number) × Worker Number)
  unfolding select_prefill do_prefill
  enter_prefill now fresh_id w = do
    taken ← select_prefill fresh_id w
    ok (map (do_prefill now (some (pos w.wid))) taken.0, record w { prefill_queue = taken.1 })

  unfoldable pub log_pass : WorkerEntry Number → Worker Number → Worker Number
  log_pass entry w = record w { log = w.log ++ entry ∷ [] }

  -- `do_prefill` up to the wait for the end of the pass.
  unfoldable pub begin_prefill : Number → ℕ → Worker Number → Result (Worker Number)
  unfolding enter_prefill enter_decodes log_pass current_context_len
  begin_prefill now fresh_id w = do
    entered ← enter_prefill now fresh_id w
    let ps : List (Request Number) = entered.0
    decoded ←
        if w.enable_chunked_prefill
        then enter_decodes now (w.prefill_max_tokens - sum_of (λ r. r.current_prefill_lens) ps)
            entered.1
        else ok ([], entered.1)
    let ds : List (Request Number) = decoded.0
    let entry : WorkerEntry Number = record {
      time = now;
      event = log_prefill;
      num_tokens = sum_of (λ r. r.current_prefill_lens) ps + length ds;
      prefill_bs = length ps;
      decode_bs = length ds;
      prefill_len_list = map (λ r. r.current_prefill_lens) ps;
      decode_len_list = map current_context_len ds;
    }
    delay ← get_prefill_time w.engine_type w.model_type w.tp_prefill
    ok (record (log_pass entry decoded.1) { prefill_ips = length ps; activity = in_prefill ps ds })

  -- `do_decode` up to that wait.
  unfoldable pub begin_decode : Number → Worker Number → Result (Worker Number)
  unfolding enter_decodes log_pass current_context_len
  begin_decode now w = do
    decoded ← enter_decodes now w.decode_max_tokens w
    let ds : List (Request Number) = decoded.0
    let entry : WorkerEntry Number = record {
      time = now;
      event = log_decode;
      num_tokens = length ds;
      prefill_bs = 0;
      decode_bs = length ds;
      prefill_len_list = [];
      decode_len_list = map current_context_len ds;
    }
    delay ← get_decode_time w.engine_type w.model_type w.tp_decode
    ok (record (log_pass entry decoded.1) { activity = in_decode ds })

  unfoldable pub is_empty : List (Request Number) → Bool
  is_empty [] = true
  is_empty (r ∷ rs) = false

  -- The choice in `run`, where both queues may be looked at.
  unfoldable pub choose : (ℕ → Number → ℕ) → Number → ℕ → Worker Number → Result (Worker Number)
  unfolding is_empty has_back_pressure begin_prefill begin_decode
  choose int_mul now fresh_id w =
      if not (is_empty w.prefill_queue) && not (has_back_pressure int_mul w)
      then begin_prefill now fresh_id w
      else begin_decode now w
