-- ===== src/Samples/Engines.antt =====
-- The theorems on the context engine and on the recovery at small inputs.
use recompute_or_migrate.Base.{
  ℕ, ◌≡◌, refl, ◌≢◌, false, ◌||◌, none, some, List, [], ◌∷◌, ◌++◌, map, ◌==◌, if◌then◌else◌, All,
  pos, lookup, insert, Result, ok, err,
}
use recompute_or_migrate.Request.Migrating.{MigratingRequest}
use recompute_or_migrate.BlockManager.{get_block_table, init}
use recompute_or_migrate.Rom.Decision.{recompute}
use recompute_or_migrate.Rom.LocalScheduler.{mem}
use recompute_or_migrate.ContextEngine.{ContextEngine, step, hand_over, hand_over_one}
use recompute_or_migrate.ContextEngine.Bridge.{Carries, hand_over_lem}
use recompute_or_migrate.Recovery.{
  reassign, discard_everywhere, Recovery, Attempt, moved, source_dead, try_sources,
  recover_via_migrate, handle_decode_worker_failure, current_bandwidth, get_rom_decision,
}
use recompute_or_migrate.Recovery.Outcome.{handle_decode_worker_failure_total}
use recompute_or_migrate.Samples.{short, context}
use recompute_or_migrate.Samples.Blocks.{both}
use recompute_or_migrate.Samples.Decoding.{parallel}
use recompute_or_migrate.Samples.Numbers.{finite, numbers}
use recompute_or_migrate.Samples.Rom.{small, slow_decision}

abbrev engine : ContextEngine
engine = record {
  parallel_config = parallel;
  scheduler = context;
  block_manager = init 8 1 2;
  batches_in_pipeline = [];
  returns = [];
  bridge_queue = [];
  events = [];
  worker_calls = [];
}

-- The second of two requests is finished.
abbrev busy : ContextEngine
busy = record engine { block_manager = both }

abbrev handed : ContextEngine
handed = record busy {
  bridge_queue =
      record { req = short; block_indexes = 0 ∷ []; context_parallel_config = parallel } ∷ [];
}

hands_over : hand_over busy (short ∷ []) ≡ ok handed
unfolding hand_over hand_over_one get_block_table lookup
hands_over = refl

hand_over_lem_example :
    (added : List MigratingRequest) × (handed.bridge_queue ≡ [] ++ added)
    × (map (λ m. m.req) added ≡ short ∷ [])
    × All (Carries both.block_table) added
hand_over_lem_example = hand_over_lem busy (short ∷ []) handed hands_over

-- Two workers; the first, which tracks two requests, fails, and nothing can be moved to the second.
abbrev failing : Recovery numbers
failing = record {
  rom_config = small;
  worker_handles = 0 ∷ 1 ∷ [];
  worker_request_ids = (0, 1 ∷ 2 ∷ []) ∷ (1, []) ∷ [];
  dead_workers = [];
  block_manager = both;
  local_scheduler = none;
  prompt_len_map = (1, 15) ∷ [];
  log = [];
}

abbrev attempts : ℕ → ℕ → Attempt
attempts target source = if source == 0 then moved else source_dead

abbrev recovered : Recovery numbers
recovered = record failing { worker_request_ids = (0, 2 ∷ []) ∷ (1, 1 ∷ []) ∷ [] }

moves_one : recover_via_migrate numbers attempts failing 1 1 ≡ ok recovered
unfolding recover_via_migrate get_block_table lookup try_sources reassign discard_everywhere insert
moves_one = refl

small_table : small.prefill_time_table ≢ []
small_table e = cc

handle_decode_worker_failure_total_example :
    (s' : Recovery numbers) × (handle_decode_worker_failure numbers attempts failing 0
        (finite 1)
        (finite 2)
      ≡ ok s')
    × (mem 0 s'.dead_workers ≡ (false || 0 == 0))
handle_decode_worker_failure_total_example =
    handle_decode_worker_failure_total numbers attempts failing 0 0 (finite 1) (finite 2)
      small_table

to_recompute :
    get_rom_decision numbers failing 1 (current_bandwidth numbers failing (finite 1))
    ≡ ok (recompute, finite 60, finite 50)
unfolding get_rom_decision lookup
to_recompute = slow_decision

abbrev or_engine : Result ContextEngine → ContextEngine
or_engine (ok s) = s
or_engine (err e) = engine

abbrev stepped : ContextEngine
stepped = or_engine (step engine (pos 1) (λ k. some "a") (7 ∷ []) (pos 2))
