-- ===== src/Samples/Rom.antt =====
-- The theorems on the RoM scheduler at small inputs.
use text.Mathlib.Text.{◌==◌ as str_eq}
use recompute_or_migrate.Base.{
  arith, ◌≡◌, refl, ◌↔◌, true, none, some, List, [], ◌∷◌, if◌then◌else◌, pos, ◌-ℤ◌, lookup, insert,
  erase, ok,
}
use recompute_or_migrate.Config.{mem_policy}
use recompute_or_migrate.Rom.Config.{
  RomConfig, Environment, default_config, default_table, validate, set_value, overridden, from_env,
}
use recompute_or_migrate.Rom.Config.Valid.{IsValid, validate-ok_iff, from_env-IsValid}
use recompute_or_migrate.Rom.Decision.{
  migrate, recompute, compute_kv_size_bytes, compute_kv_size_bytes_from_config, compute_c_mig,
  insert_sorted, sorted, bisect_right, interpolate_inside, interpolate_from, interpolate,
  compute_c_recomp, decide, make_decision, first_breakeven, breakeven_prompt_len,
}
use recompute_or_migrate.Rom.Decision.Choice.{
  cost, other_cost, make_decision_cheaper, make_decision_bandwidth, make_decision_down,
}
use recompute_or_migrate.Rom.Decision.Breakpoints.{compute_c_recomp_entry}
use recompute_or_migrate.Rom.Decision.Breakeven.{Searched, breakeven_prompt_len_lem}
use recompute_or_migrate.Rom.LocalScheduler.{
  LocalScheduler, update_bandwidth, push_history, new_scheduler, candidates, least,
  get_best_decode_worker, update_queue_length, deregister_worker, register_worker,
}
use recompute_or_migrate.Rom.LocalScheduler.Calls.{
  Call, registers, reports, deregisters, measures, perform, perform_all, IsSound, IsPick,
  perform_all-Best,
}
use recompute_or_migrate.Samples.Numbers.{
  finite, infinite, numbers, numbers-StartsExactly, numbers-IsOrdered,
}

-- Three layers of four heads of two dimensions, and latencies in whole seconds.
abbrev pub small : RomConfig numbers
small = record {
  policy = "rom";
  sim_bandwidth_mbps = finite 10;
  monitor_interval_s = finite 1;
  monitor_enabled = true;
  log_file = "rom.log";
  num_layers = pos 1000;
  num_kv_heads = pos 100;
  head_dim = pos 100;
  dtype_bytes = pos 2;
  prefill_time_table = (20, finite 60) ∷ (10, finite 50) ∷ [];
}

-- Fifteen tokens are 600 million bytes: 600 seconds at 1 MB/s, 60 at 10 MB/s and 30 at 20 MB/s. The
-- recomputation takes 50 seconds, since the numbers round the half of the segment down.
pub slow_decision :
    make_decision numbers (pos 15) (finite 10) small ≡ ok (recompute, finite 60, finite 50)
unfolding make_decision compute_kv_size_bytes_from_config compute_kv_size_bytes compute_c_mig
    compute_c_recomp sorted insert_sorted interpolate interpolate_from interpolate_inside
    bisect_right decide ◌-ℤ◌
slow_decision = refl

faster_decision :
    make_decision numbers (pos 15) (finite 20) small ≡ ok (migrate, finite 30, finite 50)
unfolding make_decision compute_kv_size_bytes_from_config compute_kv_size_bytes compute_c_mig
    compute_c_recomp sorted insert_sorted interpolate interpolate_from interpolate_inside
    bisect_right decide ◌-ℤ◌
faster_decision = refl

fastest_decision :
    make_decision numbers (pos 15) (finite 40) small ≡ ok (migrate, finite 15, finite 50)
unfolding make_decision compute_kv_size_bytes_from_config compute_kv_size_bytes compute_c_mig
    compute_c_recomp sorted insert_sorted interpolate interpolate_from interpolate_inside
    bisect_right decide ◌-ℤ◌
fastest_decision = refl

down_decision :
    make_decision numbers (pos 15) (finite 0) small ≡ ok (recompute, infinite, finite 50)
unfolding make_decision compute_kv_size_bytes_from_config compute_kv_size_bytes compute_c_mig
    compute_c_recomp sorted insert_sorted interpolate interpolate_from interpolate_inside
    bisect_right decide ◌-ℤ◌
down_decision = refl

make_decision_cheaper_example :
    numbers.leq
      (cost numbers recompute (finite 60) (finite 50))
      (other_cost numbers recompute (finite 60) (finite 50))
    ≡ true
make_decision_cheaper_example =
    make_decision_cheaper numbers numbers-IsOrdered (pos 15) (finite 10) small recompute (finite 60)
      (finite 50) refl refl refl refl slow_decision

make_decision_bandwidth_example : migrate ≡ migrate
make_decision_bandwidth_example =
    make_decision_bandwidth numbers numbers-IsOrdered (pos 15) (finite 20) (finite 40) small migrate
      (finite 30) (finite 50) (finite 15) (finite 50) refl refl faster_decision fastest_decision

-- At 6 MB/s the first length of the table is cheaper to recompute.
first_length : breakeven_prompt_len numbers (finite 6) small ≡ ok 10
unfolding breakeven_prompt_len first_breakeven make_decision compute_kv_size_bytes_from_config
    compute_kv_size_bytes compute_c_mig compute_c_recomp sorted insert_sorted interpolate
    interpolate_from interpolate_inside bisect_right decide ◌-ℤ◌
first_length = refl

breakeven_prompt_len_lem_example : Searched numbers (finite 6) small (10 ∷ 20 ∷ []) 10
unfolding sorted insert_sorted
breakeven_prompt_len_lem_example = breakeven_prompt_len_lem numbers (finite 6) small 10 first_length

validate-ok_iff_example : (validate numbers small ≡ ok tt) ↔ IsValid numbers small
validate-ok_iff_example = validate-ok_iff numbers small

abbrev environment : Environment numbers
environment = record {
  get = λ name. if str_eq name "ROM_POLICY" then some "always_migrate" else none;
  parse_float = λ v. none;
  parse_int = λ v. none;
  strip_lower = λ v. v;
}

abbrev migrates_always : RomConfig numbers
migrates_always = record (default_config numbers) { policy = "always_migrate" }

read_policy : from_env numbers environment ≡ ok migrates_always
unfolding from_env overridden set_value validate mem_policy
read_policy = refl

from_env-IsValid_example :
    IsValid numbers migrates_always × (migrates_always.prefill_time_table ≡ default_table numbers)
from_env-IsValid_example = from_env-IsValid numbers environment migrates_always read_policy

abbrev calls : List (Call numbers)
calls =
    registers 0
    ∷ registers 1
    ∷ registers 2
    ∷ reports 0 (pos 4)
    ∷ reports 1 (pos 2)
    ∷ reports 2 (pos 3)
    ∷ measures (finite 7) (finite 1)
    ∷ deregisters 1
    ∷ []

abbrev actor : LocalScheduler numbers
actor = perform_all numbers (new_scheduler numbers small) calls

picks_two : get_best_decode_worker numbers actor (some (1 ∷ [])) ≡ some 2
unfolding perform_all perform new_scheduler get_best_decode_worker candidates least register_worker
    deregister_worker update_queue_length update_bandwidth push_history insert erase lookup
picks_two = refl

perform_all-Best_example :
    IsSound numbers small actor
    × IsPick numbers
        (1 ∷ [])
        actor.queue_lengths
        (get_best_decode_worker numbers actor (some (1 ∷ [])))
perform_all-Best_example = perform_all-Best numbers small calls (some (1 ∷ []))

compute_c_recomp_entry_example :
    compute_c_recomp numbers (pos 10) small.prefill_time_table ≡ ok (finite 50)
unfolding lookup
compute_c_recomp_entry_example =
    compute_c_recomp_entry numbers numbers-StartsExactly small.prefill_time_table 10 (finite 50)
      (refl, (refl, tt)) ((refl, refl), ((refl, refl), tt)) (omega arith) refl

make_decision_down_example : (recompute ≡ recompute) × (infinite ≡ infinite)
make_decision_down_example =
    make_decision_down numbers (pos 15) (finite 0) small recompute infinite (finite 50) refl refl
      refl down_decision
