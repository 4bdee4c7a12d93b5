-- ===== src/Samples/Simulation.antt =====
-- The theorems on the simulator and on the events of a lifetime at small inputs. Times are numbers of
-- milliseconds, and the back pressure of a worker is in percent.
use recompute_or_migrate.Base.{
  value_error, err, ℕ, ◌*◌, ◌/◌, ◌<◌, ◌≡◌, refl, Bool, true, false, none, some, List, [], ◌∷◌,
  arith, get_elem?, All, pos, negsuc, keys, ok,
}
use recompute_or_migrate.Lifetime.{
  LifetimeEvent, issued, decoding_end, number, json_encode_lifetime_events,
  json_decode_lifetime_events, json_decode-json_encode,
}
use recompute_or_migrate.Simulator.Requests.{Request, finish_prefill, do_prefill}
use recompute_or_migrate.Simulator.Requests.Lifecycle.{
  Pass, passes, IsDecoding, finish_prefill-passes-IsDecoding,
}
use recompute_or_migrate.Simulator.Estimates.{
  distserve, find_params, get_prefill_time, get_decode_time,
}
use recompute_or_migrate.Simulator.Clusters.Wiring.{IsProfiled}
use recompute_or_migrate.Simulator.Workers.{
  resolve_tp, Worker, at_top, enter_prefill, picked, is_first_in_pipeline, has_back_pressure,
}
use recompute_or_migrate.Simulator.Workers.Prefill.{IsCut, enter_prefill-IsCut, enter_prefill_alone}
use recompute_or_migrate.Simulator.Systems.{System, prefill, find_best_worker}
use recompute_or_migrate.Simulator.Systems.Places.{copies}
use recompute_or_migrate.Simulator.Systems.Loads.{load_of, IsLeast, find_best_worker-IsLeast}
use recompute_or_migrate.Simulator.Systems.Soundness.{population}
use recompute_or_migrate.Simulator.Systems.Runs.{Action, arrives, turns, run, arrivals}
use recompute_or_migrate.Simulator.Systems.Spinning.{Holds, spins, spins_lem}
use recompute_or_migrate.Simulator.Clusters.{WorkerConfig, disagg_cluster}
use recompute_or_migrate.Simulator.Clusters.Simulation.{disagg_cluster-run}

-- Issued at 3, and ended at 90.
abbrev life : List (LifetimeEvent ℕ)
life =
    record { event_type = issued; timestamp = number 3 }
    ∷ record { event_type = decoding_end; timestamp = number 90 }
    ∷ []

json_decode-json_encode_example :
    json_decode_lifetime_events 100 (json_encode_lifetime_events life) ≡ ok life
json_decode-json_encode_example = json_decode-json_encode 100 life ((λ h. cc), ((λ h. cc), tt))

-- A prompt of `n` tokens, for an output of two.
abbrev prompt : ℕ → ℕ → Request ℕ
prompt id n = record {
  req_id = id;
  counter = negsuc 0;
  log = [];
  terminated = false;
  prefill_lens = n;
  output_lens = 2;
  remain_prefill_lens = n;
  current_prefill_lens = 0;
  chunk_id = none;
}

-- A request with its prompt processed, over the passes of two workers.
abbrev processed : Request ℕ
processed = record (prompt 1 6) {
  remain_prefill_lens = 0;
  current_prefill_lens = 6;
  chunk_id = some 7;
}

abbrev two_rounds : List (Pass ℕ)
two_rounds =
    record { time = 10; next_wid = some (pos 1); is_last = false }
    ∷ record { time = 12; next_wid = some (pos 0); is_last = true }
    ∷ record { time = 14; next_wid = some (pos 1); is_last = false }
    ∷ record { time = 16; next_wid = some (pos 0); is_last = true }
    ∷ []

finish_prefill-passes-IsDecoding_example :
    IsDecoding 2 2 (passes two_rounds (finish_prefill 8 true (some (pos 0)) processed))
finish_prefill-passes-IsDecoding_example =
    finish_prefill-passes-IsDecoding 8 (some (pos 0)) processed two_rounds refl refl refl

-- A worker alone in its pipeline, of ten tokens in a pass.
abbrev alone : Bool → List (Request ℕ) → Worker ℕ
alone chunked queue = record {
  wid = 0;
  pipe_rank = some 0;
  is_last_in_pipeline = true;
  next_worker = some 0;
  has_global_scheduler = false;
  should_request_stay = true;
  model_type = some "OPT-13B";
  engine_type = distserve;
  tp_prefill = 1;
  tp_decode = 1;
  prefill_max_batch_size = 4;
  decode_max_batch_size = 4;
  prefill_max_tokens = 10;
  decode_max_tokens = 10;
  enable_chunked_prefill = chunked;
  decode_back_pressure = 90;
  prefill_queue = queue;
  decode_queue = [];
  prefill_ips = 0;
  activity = at_top;
  log = [];
}

alone-is_first :
    (chunked : Bool) (queue : List (Request ℕ)) → is_first_in_pipeline (alone chunked queue) ≡ true
unfolding is_first_in_pipeline
alone-is_first chunked queue = refl

abbrev three : List (Request ℕ)
three = prompt 1 6 ∷ prompt 2 3 ∷ prompt 3 4 ∷ []

enter_prefill-IsCut_example :
    (batch : List (Request ℕ)) × (rest : List (Request ℕ)) × (enter_prefill 5 7 (alone false three)
      ≡ ok (batch, record (alone false three) { prefill_queue = rest }))
    × IsCut 4 10 three batch rest
enter_prefill-IsCut_example =
    enter_prefill-IsCut 5 7 (alone false three) (alone-is_first false three)

enter_prefill_alone_example :
    enter_prefill 5 7 (alone true three)
    ≡ ok (
      do_prefill 5 (some (pos 0)) (picked 6 7 (prompt 1 6)) ∷ [],
      record (alone true three) { prefill_queue = prompt 2 3 ∷ prompt 3 4 ∷ [] },
    )
enter_prefill_alone_example =
    enter_prefill_alone 5 7 (alone true three) (prompt 1 6) (prompt 2 3 ∷ prompt 3 4 ∷ [])
      (alone-is_first true three) refl refl (omega arith) (omega arith) (omega arith) (omega arith)

-- A pair of workers, the first with the longer queue.
abbrev uneven : System ℕ
uneven = record {
  workers = alone false three ∷ alone false (prompt 4 2 ∷ []) ∷ [];
  prefill_heads = 0 ∷ 1 ∷ [];
  decode_heads = 0 ∷ 1 ∷ [];
  gone = [];
}

find_best_worker-IsLeast_example :
    (place : ℕ) × (ls : List (ℕ × ℕ)) × (find_best_worker prefill (0 ∷ 1 ∷ []) uneven ≡ ok place)
    × (place < 2)
    × (keys ls ≡ 0 ∷ 1 ∷ [])
    × All
        (λ (e : ℕ × ℕ).
          (w : Worker ℕ) × (get_elem? uneven.workers e.0 ≡ some w) × (load_of prefill w ≡ e.1))
        ls
    × IsLeast place ls
find_best_worker-IsLeast_example = find_best_worker-IsLeast prefill 0 (1 ∷ []) uneven (omega arith)

abbrev percent : ℕ → ℕ → ℕ
percent n x = n * x / 100

abbrev options : WorkerConfig ℕ
options = record {
  model_type = some "OPT-13B";
  engine_type = distserve;
  tp = 1;
  tp_prefill = some 2;
  tp_decode = none;
  prefill_max_batch_size = 4;
  decode_max_batch_size = 4;
  prefill_max_tokens = 10;
  decode_max_tokens = 10;
  enable_chunked_prefill = true;
  decode_back_pressure = 90;
}

-- A prompt arrives at a prefill worker, which does a pass over it; the decoding worker waits.
abbrev story : List (Action ℕ)
story =
    turns 0 1 0
    ∷ turns 0 2 1
    ∷ arrives 3 (prompt 1 6)
    ∷ turns 3 3 0
    ∷ turns 9 4 0
    ∷ turns 9 5 1
    ∷ []

options-IsProfiled : IsProfiled options
unfolding get_prefill_time get_decode_time resolve_tp
options-IsProfiled = (refl, refl)

-- A worker without a model raises at its first pass.
no_model : get_prefill_time distserve none 1 ≡ err value_error
unfolding get_prefill_time find_params
no_model = refl

disagg_cluster-run_example :
    (s : System ℕ) × (t : System ℕ) × (disagg_cluster options 1 1 1 1 ≡ ok s)
    × (run percent story s ≡ ok t)
    × ((a : ℕ) → population a t ≡ copies a (arrivals story))
disagg_cluster-run_example =
    disagg_cluster-run options 1 1 1 1 percent story options-IsProfiled (omega arith) (omega arith)
      (omega arith) (omega arith) (omega arith)

-- A worker of ten tokens in a pass, before a prompt of twelve.
abbrev long_prompt : System ℕ
long_prompt = record uneven { workers = alone false (prompt 1 12 ∷ []) ∷ [] }

long_prompt-Holds : Holds percent (prompt 1 12) [] 0 at_top long_prompt
unfolding is_first_in_pipeline has_back_pressure get_prefill_time
long_prompt-Holds = record {
  worker = alone false (prompt 1 12 ∷ []);
  stands = refl;
  blocked = record {
    first = refl;
    whole = refl;
    long = refl;
    waits = refl;
    free = refl;
    times = refl;
  };
  activity_is = refl;
}

spins_lem_example :
    (t : System ℕ) × (run percent
        (spins percent (prompt 1 12) [] 0 (((3, 5), 1) ∷ ((5, 7), 2) ∷ []))
        long_prompt
      ≡ ok t)
    × Holds percent (prompt 1 12) [] 0 at_top t
spins_lem_example =
    spins_lem percent (prompt 1 12) [] 0 (((3, 5), 1) ∷ ((5, 7), 2) ∷ []) long_prompt
      long_prompt-Holds
