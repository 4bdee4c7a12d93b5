-- ===== src/Samples.antt =====
-- Small inputs, on which the theorems are applied and the definitions are run.
mod Requests
mod Blocks
mod Context
mod Decoding
mod Engines
mod DecodingSteps
mod Numbers
mod Rom
mod Simulation
mod Search
mod Frontend
mod Placement
use Prim.Native.String.{String}
use recompute_or_migrate.Base.{
  ℕ, zero, suc, ◌+◌, ◌-◌, ◌*◌, ◌/◌, ◌%◌, ◌≤◌, ◌<◌, min, max, ◌≡◌, refl, sym, ap, subst, ◌∙◌, ◌≢◌,
  ◌↔◌, ◌⊎◌, inl, inr, Bool, true, false, not, ◌&&◌, ◌||◌, Option, none, some, List, [], ◌∷◌, ◌++◌,
  map, append-nil, append_assoc, arith, ltb, leb, ◌==◌, if◌then◌else◌, ltb→lt, lt→ltb, leb→le,
  le→leb, leb-false→lt, ==_iff, ==_refl, Bool-cases, Option-cases, &&-eq-true, is_some, length,
  take, drop, get_elem?, set, replicate, sum_of, keep, All, length-append, length-take, length-drop,
  take-append-drop, sum_of-append, range_from, range, one_if, count, count-append, count-take-drop,
  count-range, ℤ, pos, negsuc, pos_part, neg_part, sub_ℕ, ◌+ℤ◌, ◌-ℤ◌, ◌≤ℤ◌, ltb_ℤ, leb_ℤ, +ℤ_parts,
  -ℤ_parts, eq_of_parts, int_laws, Dict, lookup, insert, erase, has_key, keys, lookup-insert,
  lookup-erase, Distinct, insert-Distinct, erase-Distinct, total, total-erase_absent, total-erase,
  total-insert, total-congr, Error, assertion_error, value_error, key_error, index_error,
  runtime_error, not_implemented, attribute_error, Result, ok, err, ◌>>=◌, ◌>>◌, guard, or_raise,
  >>=-eq-ok, guarded-eq-ok, ok-injective, or_raise-eq-ok, guard-eq-ok,
}
use recompute_or_migrate.Config.{ContextStageSchedConfig}
use recompute_or_migrate.Request.Sampling.{SamplingParams}
use recompute_or_migrate.Request.{Request, init}
use recompute_or_migrate.Request.Batch.{BatchedRequests}
use recompute_or_migrate.ContextScheduler.{ContextScheduler}

-- At most three tokens, ended by "." too.
abbrev pub params : SamplingParams
params = record {
  n = pos 1;
  best_of = pos 1;
  presence_penalty = pos 0;
  frequency_penalty = pos 0;
  temperature = pos 100000;
  top_p = pos 100000;
  top_k = negsuc 0;
  use_beam_search = false;
  stop = "." ∷ [];
  ignore_eos = false;
  max_tokens = pos 3;
  logprobs = none;
}

abbrev pub request : ℕ → List ℕ → Request
request k ids = record {
  arrival_time = pos 0;
  request_id = k;
  prompt = "hi";
  prompt_token_ids = ids;
  sampling_params = params;
  generated_tokens = [];
  generated_token_ids = [];
  is_finished = false;
  is_running = false;
  process_time = pos 0;
  last_step_time = pos 0;
  priority = pos 0;
}

abbrev pub short : Request
short = request 1 (5 ∷ 6 ∷ [])

abbrev pub long : Request
long = request 2 (5 ∷ 6 ∷ 7 ∷ 8 ∷ 9 ∷ [])

abbrev pub pair : BatchedRequests
pair = record { requests = short ∷ long ∷ []; start_time = none; is_running = false }

abbrev pub context : ContextScheduler
context = record {
  sched_config = record { policy = "fcfs"; max_batch_size = 4; max_tokens_per_batch = 6 };
  block_size = 2;
  max_num_gpu_blocks = 8;
  waiting_queue = short ∷ long ∷ [];
  unaccepted_queue = [];
  num_on_fly_request_block = pos 0;
}
