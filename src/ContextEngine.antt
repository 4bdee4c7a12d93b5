-- ===== src/ContextEngine.antt =====
-- distserve/single_stage_engine.py: the engine of the context stage, with its scheduler and its cache.
pub mod Cache
pub mod Bridge
use Prim.Native.String.{String}
use recompute_or_migrate.Base.{
  ℕ, zero, suc, ◌+◌, ◌-◌, ◌*◌, ◌/◌, ◌%◌, ◌≤◌, ◌<◌, min, max, ◌≡◌, refl, sym, ap, subst, ◌∙◌, ◌≢◌,
  ◌↔◌, ◌⊎◌, inl, inr, Bool, true, false, not, ◌&&◌, ◌||◌, Option, none, some, List, [], ◌∷◌, ◌++◌,
  map, append-nil, append_assoc, arith, ltb, leb, ◌==◌, if◌then◌else◌, ltb→lt, lt→ltb, leb→le,
  le→leb, leb-false→lt, ==_iff, ==_refl, Bool-cases, Option-cases, &&-eq-true, is_some, if_true,
  if_false, if_both, length, take, drop, get_elem?, set, replicate, sum_of, keep, All,
  length-append, length-take, length-drop, take-append-drop, sum_of-append, range_from, range,
  one_if, count, count-append, count-take-drop, count-range, ℤ, pos, negsuc, pos_part, neg_part,
  sub_ℕ, ◌+ℤ◌, ◌-ℤ◌, ◌≤ℤ◌, ltb_ℤ, leb_ℤ, +ℤ_parts, -ℤ_parts, eq_of_parts, int_laws, Dict, lookup,
  insert, erase, has_key, keys, lookup-insert, lookup-erase, Distinct, insert-Distinct,
  erase-Distinct, total, total-erase_absent, total-erase, total-insert, total-congr, Error,
  assertion_error, value_error, key_error, index_error, runtime_error, not_implemented,
  attribute_error, Result, ok, err, ◌>>=◌, ◌>>◌, guard, or_raise, >>=-eq-ok, guarded-eq-ok,
  ok-injective, err≢ok, some-injective, none≢some, list-cases, or_raise-eq-ok, guard-eq-ok,
}
use recompute_or_migrate.Config.{ParallelConfig}
use recompute_or_migrate.Request.{Request}
use recompute_or_migrate.Request.Batch.{
  BatchedRequests, start_one_iteration, finish_one_iteration, get_request_ids,
  get_input_tokens_batched, get_first_token_indexes,
}
use recompute_or_migrate.Request.Migrating.{MigratingRequest}
use recompute_or_migrate.BlockManager.{
  BlockManager, allocate_blocks_batched, free_blocks, get_block_table, get_partial_block_table,
}
use recompute_or_migrate.ContextScheduler.{
  ContextScheduler, get_next_batch_and_pop, on_finish_requests, on_request_migrated,
}

-- What the engine tells the program around it: the events of the requests, and their new tokens.
pub data Event : Type 0 where
  context_begin context_end : (request_id : ℕ) → Event
  step_output : (request_id : ℕ) → (token : String) → (token_id : ℕ) → Event

-- A call to the workers, without its results.
pub data WorkerCall : Type 0 where
  step_batch :
      (ids : List ℕ)
      → (tokens : List (List ℕ)) → (indexes : List ℕ) → (tables : List (List ℕ)) → WorkerCall
  clear_request_resource : (request_id : ℕ) → WorkerCall

-- `returns` tells of each batch in the pipeline whether it waits for a result of the workers.
pub record ContextEngine : Type 0 where
  pub parallel_config : ParallelConfig
  pub scheduler : ContextScheduler
  pub block_manager : BlockManager
  pub batches_in_pipeline : List BatchedRequests
  pub returns : List Bool
  pub bridge_queue : List MigratingRequest
  pub events : List Event
  pub worker_calls : List WorkerCall

-- `_free_request_resources`
unfoldable pub free_request_resources : ContextEngine → ℕ → Result ContextEngine
free_request_resources s request_id = do
  manager ← free_blocks s.block_manager request_id
  ok (record s {
    block_manager = manager;
    worker_calls = s.worker_calls ++ clear_request_resource request_id ∷ [];
  })

abbrev pub is_empty_batch : BatchedRequests → Bool
is_empty_batch b = length b.requests == 0

-- The batch is put into the pipeline, with nothing to compute.
abbrev pub push_idle : ContextEngine → BatchedRequests → ContextEngine
push_idle s b = record s {
  batches_in_pipeline = s.batches_in_pipeline ++ b ∷ [];
  returns = s.returns ++ false ∷ [];
}

-- The batch is put into the pipeline, with blocks for its prompts.
unfoldable pub push_batch : ContextEngine → BatchedRequests → (now : ℤ) → Result ContextEngine
push_batch s b now = do
  manager ← allocate_blocks_batched s.block_manager b
  started ← start_one_iteration b now
  tables ← get_partial_block_table manager (get_request_ids started)
  ok (record s {
    block_manager = manager;
    batches_in_pipeline = s.batches_in_pipeline ++ started ∷ [];
    returns = s.returns ++ true ∷ [];
    events = s.events ++ map (λ r. context_begin r.request_id) b.requests;
    worker_calls =
        s.worker_calls
        ++ step_batch (get_request_ids started) (get_input_tokens_batched started)
            (get_first_token_indexes started) tables
          ∷ [];
  })

-- The first half of `_step`.
unfoldable pub push_next : ContextEngine → (now : ℤ) → Result ContextEngine
push_next s now = do
  (b, scheduler) ← get_next_batch_and_pop s.scheduler
  let s' = record s { scheduler = scheduler }
  if is_empty_batch b then ok (push_idle s' b) else push_batch s' b now

-- A token that the tokenizer cannot decode is an empty one.
abbrev pub decoded : (ℕ → Option String) → ℕ → String
decoded decode token_id = elim (decode token_id) [ none ↦ "" | some token ↦ token ]

-- The events of the loop over `zip`.
unfoldable pub output_events : List Request → List String → List ℕ → List Event
output_events (r ∷ rs) (token ∷ tokens) (token_id ∷ ids) =
    context_end r.request_id ∷ step_output r.request_id token token_id ∷ output_events rs tokens ids
output_events rs _ _ = []

-- An unfinished request goes to the bridge, with its blocks; a finished one is freed.
unfoldable pub hand_over_one : ContextEngine → Request → Result ContextEngine
unfolding free_request_resources
hand_over_one s r =
    let bridged = (do
      blocks ← get_block_table s.block_manager r.request_id
      ok (record s {
        bridge_queue =
            s.bridge_queue
            ++ record {
              req = r;
              block_indexes = blocks;
              context_parallel_config = s.parallel_config;
            }
              ∷ [];
      })) in
    if not r.is_finished then bridged else free_request_resources s r.request_id

-- The last loop of `_step`.
unfoldable pub hand_over : ContextEngine → List Request → Result ContextEngine
hand_over s [] = ok s
hand_over s (r ∷ rs) = do s' ← hand_over_one s r; hand_over s' rs

-- The earliest batch has its result: the ids of its new tokens.
unfoldable pub finish_batch :
    ContextEngine
    → BatchedRequests
    → List BatchedRequests
    → List Bool
    → (decode : ℕ → Option String) → (token_ids : List ℕ) → (now : ℤ) → Result ContextEngine
unfolding hand_over
finish_batch s first batches returns decode token_ids now = do
  let tokens = map (decoded decode) token_ids
  finished ← finish_one_iteration first tokens token_ids now
  hand_over
      (record s {
        scheduler = on_finish_requests s.scheduler finished;
        batches_in_pipeline = batches;
        returns = returns;
        events = s.events ++ output_events finished.requests tokens token_ids;
      })
      finished.requests

-- An empty batch just leaves the pipeline.
unfoldable pub pop_batch :
    ContextEngine
    → List BatchedRequests
    → List Bool
    → (decode : ℕ → Option String) → (token_ids : List ℕ) → (now : ℤ) → Result ContextEngine
unfolding finish_batch
pop_batch s (first ∷ batches) (true ∷ returns) decode token_ids now =
    finish_batch s first batches returns decode token_ids now
pop_batch s (first ∷ batches) (false ∷ returns) decode token_ids now =
    ok (record s { batches_in_pipeline = batches; returns = returns })
pop_batch s batches returns decode token_ids now = err index_error

-- The second half of `_step`: once the pipeline is full, its earliest batch comes out.
unfoldable pub pop_first :
    ContextEngine
    → (decode : ℕ → Option String) → (token_ids : List ℕ) → (now : ℤ) → Result ContextEngine
unfolding finish_batch
pop_first s decode token_ids now =
    if length s.batches_in_pipeline == s.parallel_config.pipeline_parallel_size
    then pop_batch s s.batches_in_pipeline s.returns decode token_ids now
    else ok s

unfoldable pub step :
    ContextEngine
    → (start : ℤ) → (decode : ℕ → Option String) → (token_ids : List ℕ) → (now : ℤ)
    → Result ContextEngine
unfolding push_next pop_first
step s start decode token_ids now = do s' ← push_next s start; pop_first s' decode token_ids now

unfoldable pub clear_migrated_blocks_callback :
    ContextEngine → MigratingRequest → Result ContextEngine
unfolding free_request_resources
clear_migrated_blocks_callback s m = do
  s' ← free_request_resources s m.req.request_id
  ok (record s' { scheduler = on_request_migrated s'.scheduler m.req.request_id })
