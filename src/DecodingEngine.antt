-- ===== src/DecodingEngine.antt =====
-- distserve/single_stage_engine.py: the engine of the decoding stage. Its scheduler holds the block manager.
-- A batch in the pipeline is one of the scheduler's batches, which both change: it stands here by its index.
-- The events and the calls to the workers are left out.
pub mod Migration
pub mod Cache
use Prim.Native.String.{String}
use recompute_or_migrate.Base.{
  ℕ, zero, suc, ◌+◌, ◌-◌, ◌*◌, ◌/◌, ◌%◌, ◌≤◌, ◌<◌, min, max, ◌≡◌, refl, sym, ap, subst, ◌∙◌, ◌≢◌,
  ◌↔◌, ◌⊎◌, inl, inr, Bool, true, false, not, ◌&&◌, ◌||◌, Option, none, some, List, [], ◌∷◌, ◌++◌,
  map, append-nil, append_assoc, arith, ltb, leb, ◌==◌, if◌then◌else◌, ltb→lt, lt→ltb, leb→le,
  le→leb, leb-false→lt, ==_iff, ==_refl, Bool-cases, Option-cases, &&-eq-true, is_some, if_true,
  if_false, if_both, length, take, drop, get_elem?, set, replicate, sum_of, keep, All,
  length-append, length-take, length-drop, take-append-drop, sum_of-append, range_from, range,
  one_if, count, count-append, count-take-drop, count-range, ℤ, pos, negsuc, pos_part, neg_part,
  sub_ℕ, ◌+ℤ◌, ◌-ℤ◌, ◌≤ℤ◌, ltb_ℤ, leb_ℤ, +ℤ_parts, -ℤ_parts, eq_of_parts, int_laws, Dict, lookup,
  insert, erase, has_key, keys, lookup-insert, lookup-erase, Distinct, insert-Distinct,
  erase-Distinct, total, total-erase_absent, total-erase, total-insert, total-congr, Error,
  assertion_error, value_error, key_error, index_error, runtime_error, not_implemented,
  attribute_error, Result, ok, err, ◌>>=◌, ◌>>◌, guard, or_raise, >>=-eq-ok, >>=-ok, guarded-eq-ok,
  ok-injective, err≢ok, some-injective, none≢some, list-cases, or_raise-eq-ok, guard-eq-ok,
}
use recompute_or_migrate.Config.{ParallelConfig}
use recompute_or_migrate.Request.{Request}
use recompute_or_migrate.Request.Batch.{
  BatchedRequests, start_one_iteration, finish_one_iteration, get_request_ids,
}
use recompute_or_migrate.Request.Migrating.{MigratingRequest}
use recompute_or_migrate.BlockManager.{
  BlockManager, allocate_blocks, allocate_blocks_batched, free_blocks_batched, get_block_table,
  is_all_requests_on_gpu,
}
use recompute_or_migrate.ContextEngine.{decoded}
use recompute_or_migrate.DecodingScheduler.{
  DecodingScheduler, cur, get_batch, add_request_migrating, get_next_batch, pop_finished,
  post_process,
}
use recompute_or_migrate.Recovery.{add_id, discard_everywhere}

pub record DecodingEngine : Type 0 where
  pub parallel_config : ParallelConfig
  pub scheduler : DecodingScheduler
  pub batches_in_pipeline : List ℕ
  pub returns : List Bool
  pub bridge_queue : List MigratingRequest
  pub worker_request_ids : Dict (List ℕ)

-- The request as it was before its first token.
abbrev pub prompt_only : Request → Request
prompt_only r = record r { generated_tokens = []; generated_token_ids = [] }

-- `_migrate_blocks`: blocks for the prompt only, as many as the context stage has for the request.
-- The copy by the workers and the callback, which frees the blocks of the context stage, come after.
unfoldable pub migrate_blocks : BlockManager → MigratingRequest → Result BlockManager
migrate_blocks m migrating = do
  m' ← allocate_blocks m (prompt_only migrating.req)
  target ← get_block_table m' migrating.req.request_id
  guard (length target == length migrating.block_indexes) assertion_error
  ok m'

abbrev pub add_all : List ℕ → List ℕ → List ℕ
add_all [] tracked = tracked
add_all (k ∷ ks) tracked = add_all ks (add_id k tracked)

-- `worker_request_set.update(request_ids)`, of every worker.
unfoldable pub track_everywhere : List ℕ → Dict (List ℕ) → Dict (List ℕ)
track_everywhere ids [] = []
track_everywhere ids ((w, tracked) ∷ d) = (w, add_all ids tracked) ∷ track_everywhere ids d

abbrev pub with_batch : DecodingEngine → BlockManager → ℕ → BatchedRequests → DecodingScheduler
with_batch s manager i b = record s.scheduler {
  batch_queues = set s.scheduler.batch_queues i b;
  block_manager = manager;
}

-- The batch is put into the pipeline, with blocks for its next tokens.
unfoldable pub push_batch : DecodingEngine → BatchedRequests → (now : ℤ) → Result DecodingEngine
unfolding track_everywhere
push_batch s b now = do
  manager ← allocate_blocks_batched s.scheduler.block_manager b
  on_gpu ← is_all_requests_on_gpu manager b
  guard on_gpu assertion_error
  started ← start_one_iteration b now
  ok (record s {
    scheduler = with_batch s manager (cur s.scheduler) started;
    batches_in_pipeline = s.batches_in_pipeline ++ cur s.scheduler ∷ [];
    returns = s.returns ++ true ∷ [];
    worker_request_ids = track_everywhere (get_request_ids started) s.worker_request_ids;
  })

abbrev pub push_idle : DecodingEngine → DecodingEngine
push_idle s = record s {
  batches_in_pipeline = s.batches_in_pipeline ++ cur s.scheduler ∷ [];
  returns = s.returns ++ false ∷ [];
}

-- The first part of `_step`.
unfoldable pub push_next : DecodingEngine → (now : ℤ) → Result DecodingEngine
unfolding push_batch
push_next s now = do
  (b, scheduler) ← get_next_batch s.scheduler
  let s' = record s { scheduler = scheduler }
  if length b.requests == 0 then ok (push_idle s') else push_batch s' b now

abbrev pub untrack : List Request → Dict (List ℕ) → Dict (List ℕ)
untrack [] d = d
untrack (r ∷ rs) d = untrack rs (discard_everywhere r.request_id d)

-- The earliest batch has its result; its finished requests leave the scheduler and the cache.
unfoldable pub finish_batch :
    DecodingEngine
    → (first : ℕ) → List ℕ
    → List Bool
    → (decode : ℕ → Option String) → (token_ids : List ℕ) → (now : ℤ) → Result DecodingEngine
finish_batch s first batches returns decode token_ids now = do
  b ← get_batch s.scheduler first
  finished ← finish_one_iteration b (map (decoded decode) token_ids) token_ids now
  (requests, scheduler) ← pop_finished (with_batch s s.scheduler.block_manager first finished)
  manager ← free_blocks_batched scheduler.block_manager requests
  ok (record s {
    scheduler = record scheduler { block_manager = manager };
    batches_in_pipeline = batches;
    returns = returns;
    worker_request_ids = untrack requests s.worker_request_ids;
  })

unfoldable pub pop_batch :
    DecodingEngine
    → List ℕ
    → List Bool
    → (decode : ℕ → Option String) → (token_ids : List ℕ) → (now : ℤ) → Result DecodingEngine
unfolding finish_batch
pop_batch s (first ∷ batches) (true ∷ returns) decode token_ids now =
    finish_batch s first batches returns decode token_ids now
pop_batch s (first ∷ batches) (false ∷ returns) decode token_ids now =
    ok (record s { batches_in_pipeline = batches; returns = returns })
pop_batch s batches returns decode token_ids now = err index_error

-- The second part of `_step`: once the pipeline is full, its earliest batch comes out.
unfoldable pub pop_first :
    DecodingEngine
    → (decode : ℕ → Option String) → (token_ids : List ℕ) → (now : ℤ) → Result DecodingEngine
unfolding pop_batch
pop_first s decode token_ids now =
    if length s.batches_in_pipeline == s.parallel_config.pipeline_parallel_size
    then pop_batch s s.batches_in_pipeline s.returns decode token_ids now
    else ok s

-- The last part is the proactive migration. The report of the queue length after it calls a method that
-- the scheduler does not have, and its exception is swallowed.
unfoldable pub step :
    DecodingEngine
    → (start : ℤ) → (decode : ℕ → Option String) → (token_ids : List ℕ) → (now : ℤ)
    → Result DecodingEngine
unfolding push_next pop_first migrate_blocks
step s start decode token_ids now = do
  s1 ← push_next s start
  s2 ← pop_first s1 decode token_ids now
  scheduler ← post_process migrate_blocks s2.scheduler
  ok (record s2 { scheduler = scheduler })

-- A turn of the loop that takes the requests from the bridge queue; it waits while the queue is empty.
unfoldable pub take_from_bridge : DecodingEngine → DecodingEngine
take_from_bridge s = elim s.bridge_queue [
  | [] ↦ s
  | m ∷ ms ↦ record s { scheduler = add_request_migrating s.scheduler m; bridge_queue = ms }
]
