-- ===== src/Simulator/Clusters.antt =====
-- simdistserve/clusters/{disagg,vllm}.py: the workers of a cluster, in their instances, and its scheduler.
-- The place of a worker in the list is its `worker_id`.
pub mod Wiring
pub mod Simulation
use Prim.Native.String.{String}
use recompute_or_migrate.Base.{
  ℕ, zero, suc, ◌+◌, ◌-◌, ◌*◌, ◌/◌, ◌%◌, ◌≤◌, ◌<◌, min, max, ◌≡◌, refl, sym, ap, subst, ◌∙◌, ◌≢◌,
  ◌↔◌, ◌⊎◌, inl, inr, Bool, true, false, not, ◌&&◌, ◌||◌, Option, none, some, List, [], ◌∷◌, ◌++◌,
  map, append-nil, append_assoc, arith, ltb, leb, ◌==◌, if◌then◌else◌, ltb→lt, lt→ltb, leb→le,
  le→leb, leb-false→lt, ==_iff, ==_refl, Bool-cases, Option-cases, &&-eq-true, is_some, if_true,
  if_false, if_both, length, take, drop, get_elem?, set, replicate, sum_of, keep, All,
  length-append, length-take, length-drop, take-append-drop, sum_of-append, range_from, range,
  one_if, count, count-append, count-take-drop, count-range, ℤ, pos, negsuc, pos_part, neg_part,
  sub_ℕ, ◌+ℤ◌, ◌-ℤ◌, ◌≤ℤ◌, ltb_ℤ, leb_ℤ, +ℤ_parts, -ℤ_parts, eq_of_parts, int_laws, Dict, lookup,
  insert, erase, has_key, keys, lookup-insert, lookup-erase, Distinct, insert-Distinct,
  erase-Distinct, total, total-erase_absent, total-erase, total-insert, total-congr, Error,
  assertion_error, value_error, key_error, index_error, runtime_error, not_implemented,
  attribute_error, Result, ok, err, ◌>>=◌, ◌>>◌, guard, or_raise, >>=-eq-ok, >>=-ok, guarded-eq-ok,
  ok-injective, err≢ok, some-injective, none≢some, list-cases, or_raise-eq-ok, guard-eq-ok,
  guard-ok,
}
use recompute_or_migrate.Simulator.Requests.{Request}
use recompute_or_migrate.Simulator.Estimates.{EngineType}
use recompute_or_migrate.Simulator.Workers.{Worker, at_top, or_big, resolve_tp}
use recompute_or_migrate.Simulator.Systems.{System}

-- The options of a worker that do not tell its place.
pub record WorkerConfig (Number : Type 0) : Type 0 where
  pub model_type : Option String
  pub engine_type : EngineType
  pub tp : ℕ
  pub tp_prefill : Option ℕ
  pub tp_decode : Option ℕ
  pub prefill_max_batch_size : ℕ
  pub decode_max_batch_size : ℕ
  pub prefill_max_tokens : ℕ
  pub decode_max_tokens : ℕ
  pub enable_chunked_prefill : Bool
  pub decode_back_pressure : Number

-- Some instances: their heads, and their workers.
pub record Instances (Number : Type 0) : Type 0 where
  pub heads : List ℕ
  pub workers : List (Worker Number)

module _ {Number : Type 0} where
  -- `Worker(env, wid, pipe_rank=rank, global_scheduler=None, **worker_configs)`
  unfoldable pub new_worker : WorkerConfig Number → ℕ → ℕ → Worker Number
  unfolding or_big resolve_tp
  new_worker c wid rank = record {
    wid = wid;
    pipe_rank = some rank;
    is_last_in_pipeline = false;
    next_worker = none;
    has_global_scheduler = false;
    should_request_stay = true;
    model_type = c.model_type;
    engine_type = c.engine_type;
    tp_prefill = (resolve_tp c.tp c.tp_prefill c.tp_decode).0;
    tp_decode = (resolve_tp c.tp c.tp_prefill c.tp_decode).1;
    prefill_max_batch_size = or_big c.prefill_max_batch_size;
    decode_max_batch_size = or_big c.decode_max_batch_size;
    prefill_max_tokens = or_big c.prefill_max_tokens;
    decode_max_tokens = or_big c.decode_max_tokens;
    enable_chunked_prefill = c.enable_chunked_prefill;
    decode_back_pressure = c.decode_back_pressure;
    prefill_queue = [];
    decode_queue = [];
    prefill_ips = 0;
    activity = at_top;
    log = [];
  }

  -- The workers of an instance, from a first identifier and rank.
  unfoldable pub new_workers : WorkerConfig Number → ℕ → ℕ → ℕ → List (Worker Number)
  unfolding new_worker
  new_workers c wid rank zero = []
  new_workers c wid rank (suc n) = new_worker c wid rank ∷ new_workers c (wid + 1) (rank + 1) n

  -- `reduce(set_next_worker, chain(instance, (instance[0],)))`, where `first` is `instance[0]`.
  unfoldable pub chain : ℕ → List (Worker Number) → List (Worker Number)
  chain first [] = []
  chain first (w ∷ []) = record w { next_worker = some first } ∷ []
  chain first (w ∷ v ∷ ws) = record w { next_worker = some v.wid } ∷ chain first (v ∷ ws)

  -- A change of `instance[-1]`.
  unfoldable pub change_last :
      (Worker Number → Worker Number) → List (Worker Number) → List (Worker Number)
  change_last f [] = []
  change_last f (w ∷ []) = f w ∷ []
  change_last f (w ∷ v ∷ ws) = w ∷ change_last f (v ∷ ws)

  -- The last worker of a decoding instance, and of one of vLLM.
  unfoldable pub as_last : Worker Number → Worker Number
  as_last w = record w { is_last_in_pipeline = true }

  -- The last worker of a prefill instance, with the scheduler that it is given at the end.
  unfoldable pub as_last_prefill : Worker Number → Worker Number
  as_last_prefill w = record w {
    is_last_in_pipeline = true;
    should_request_stay = false;
    has_global_scheduler = true;
  }

  -- An instance of no worker has no `instance[0]`.
  unfoldable pub new_instance :
      WorkerConfig Number → (Worker Number → Worker Number) → ℕ → ℕ → Result (List (Worker Number))
  unfolding new_workers chain change_last
  new_instance c last wid pp =
      guard (ltb 0 pp) index_error >> ok (change_last last (chain wid (new_workers c wid 0 pp)))

  -- The loop over the instances, from a first identifier.
  unfoldable pub new_instances :
      WorkerConfig Number → (Worker Number → Worker Number) → ℕ → ℕ → ℕ → Result (Instances Number)
  unfolding new_instance
  new_instances c last wid pp zero = ok (record { heads = []; workers = [] })
  new_instances c last wid pp (suc n) = do
    instance_workers ← new_instance c last wid pp
    others ← new_instances c last (wid + pp) pp n
    ok (record { heads = wid ∷ others.heads; workers = instance_workers ++ others.workers })

  -- `DisaggCluster`: instances for the prefill, and instances for the decoding.
  unfoldable pub disagg_cluster : WorkerConfig Number → ℕ → ℕ → ℕ → ℕ → Result (System Number)
  unfolding new_instances as_last_prefill as_last
  disagg_cluster c n_prefill n_decode pp_prefill pp_decode = do
    ps ← new_instances c as_last_prefill 0 pp_prefill n_prefill
    ds ← new_instances c as_last (n_prefill * pp_prefill) pp_decode n_decode
    ok (record {
      workers = ps.workers ++ ds.workers;
      prefill_heads = ps.heads;
      decode_heads = ds.heads;
      gone = [];
    })

  -- `VLLMCluster`: instances that do both.
  unfoldable pub vllm_cluster : WorkerConfig Number → ℕ → ℕ → Result (System Number)
  unfolding new_instances as_last
  vllm_cluster c n_instance pp = do
    is ← new_instances c as_last 0 pp n_instance
    ok (record {
      workers = is.workers;
      prefill_heads = is.heads;
      decode_heads = is.heads;
      gone = [];
    })
