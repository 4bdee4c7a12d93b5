-- ===== src/Recovery.antt =====
-- distserve/single_stage_engine.py and distserve/worker.py: the recovery from a failed decode worker.
-- The workers are known by their indices. What a transfer does on the devices is `attempt`.
pub mod Tracking
pub mod Outcome
use recompute_or_migrate.Base.{
  ℕ, zero, suc, ◌+◌, ◌-◌, ◌*◌, ◌/◌, ◌%◌, ◌≤◌, ◌<◌, min, max, ◌≡◌, refl, sym, ap, subst, ◌∙◌, ◌≢◌,
  ◌↔◌, ◌⊎◌, inl, inr, Bool, true, false, not, ◌&&◌, ◌||◌, Option, none, some, List, [], ◌∷◌, ◌++◌,
  map, append-nil, append_assoc, arith, ltb, leb, ◌==◌, if◌then◌else◌, ltb→lt, lt→ltb, leb→le,
  le→leb, leb-false→lt, ==_iff, ==_refl, Bool-cases, Option-cases, &&-eq-true, is_some, if_true,
  if_false, if_both, length, take, drop, get_elem?, set, replicate, sum_of, keep, All,
  length-append, length-take, length-drop, take-append-drop, sum_of-append, range_from, range,
  one_if, count, count-append, count-take-drop, count-range, ℤ, pos, negsuc, pos_part, neg_part,
  sub_ℕ, ◌+ℤ◌, ◌-ℤ◌, ◌≤ℤ◌, ltb_ℤ, leb_ℤ, +ℤ_parts, -ℤ_parts, eq_of_parts, int_laws, Dict, lookup,
  insert, erase, has_key, keys, lookup-insert, lookup-erase, Distinct, insert-Distinct,
  erase-Distinct, total, total-erase_absent, total-erase, total-insert, total-congr, Error,
  assertion_error, value_error, key_error, index_error, runtime_error, not_implemented,
  attribute_error, Result, ok, err, ◌>>=◌, ◌>>◌, guard, or_raise, >>=-eq-ok, guarded-eq-ok,
  ok-injective, err≢ok, some-injective, none≢some, list-cases, or_raise-eq-ok, guard-eq-ok,
}
use recompute_or_migrate.BlockManager.{BlockManager, or_empty, get_block_table}
use recompute_or_migrate.Floats.{Floats}
use recompute_or_migrate.Rom.Config.{RomConfig}
use recompute_or_migrate.Rom.Decision.{Decision, migrate, recompute, make_decision}
use recompute_or_migrate.Rom.LocalScheduler.{
  LocalScheduler, mem, get_bandwidth, deregister_worker, get_best_decode_worker,
}
use recompute_or_migrate.Rom.Logger.{RomEvent, Log, log_decision, log_recovery, log_worker_failure}

-- The state of the decoding engine that a recovery reads and writes, with the actor of the bandwidths, where
-- there is one, and the lengths of the prompts that the engine of both stages keeps.
pub record Recovery (F : Floats) : Type 0 where
  pub rom_config : RomConfig F
  pub worker_handles : List ℕ
  pub worker_request_ids : Dict (List ℕ)
  pub dead_workers : List ℕ
  pub block_manager : BlockManager
  pub local_scheduler : Option (LocalScheduler F)
  pub prompt_len_map : Dict ℕ
  pub log : Log F

-- What one transfer from a source comes to: done, the source is dead, or another exception. As the source
-- stands `_call_migrate_blocks` passes `migrate_blocks` other arguments than it takes, so that every transfer
-- from a source that is not dead is `broken`; `moved` is kept for what the recovery does after one that works.
pub data Attempt : Type 0 where
  moved source_dead broken : Attempt

-- The loop of `pull_kv_blocks_for_request`: the next source only where one is dead.
unfoldable pub try_sources : (ℕ → Attempt) → List ℕ → Result (Unit {0})
try_sources attempt [] = err runtime_error
try_sources attempt (w ∷ ws) = elim (attempt w) [
  | moved ↦ ok tt
  | source_dead ↦ try_sources attempt ws
  | broken ↦ err runtime_error
]

-- A set of request ids, and `update`, `add` and `discard`.
abbrev pub discard_id : ℕ → List ℕ → List ℕ
discard_id k ids = keep (λ i. not (i == k)) ids

abbrev pub add_id : ℕ → List ℕ → List ℕ
add_id k ids = if mem k ids then ids else ids ++ k ∷ []

unfoldable pub discard_everywhere : ℕ → Dict (List ℕ) → Dict (List ℕ)
discard_everywhere k [] = []
discard_everywhere k ((w, ids) ∷ d) = (w, discard_id k ids) ∷ discard_everywhere k d

abbrev pub ids_of : Dict (List ℕ) → ℕ → List ℕ
ids_of d w = or_empty (lookup w d)

-- The last two statements of `recover_via_migrate`.
unfoldable pub reassign : ℕ → ℕ → Dict (List ℕ) → Dict (List ℕ)
unfolding discard_everywhere
reassign k target d =
    insert target (add_id k (ids_of (discard_everywhere k d) target)) (discard_everywhere k d)

-- `_build_worker_index`: one handle for each stage of the pipeline that has workers.
unfoldable pub build_worker_index : ℕ → List (List ℕ) → Dict (List ℕ) → List ℕ × Dict (List ℕ)
build_worker_index rank [] ids = ([], ids)
build_worker_index rank ([] ∷ stages) ids = build_worker_index (suc rank) stages ids
build_worker_index rank ((w ∷ ws) ∷ stages) ids =
    let (handles, ids') =
      build_worker_index (suc rank) stages (if has_key rank ids then ids else insert rank [] ids) in
    (rank ∷ handles, ids')

module _ (F : Floats) where
  -- `attempt` is of the target, then of the source.
  unfoldable pub recover_via_migrate :
      (ℕ → ℕ → Attempt) → Recovery F → (request_id target : ℕ) → Result (Recovery F)
  unfolding try_sources reassign
  recover_via_migrate attempt s request_id target = do
    guard (mem target s.worker_handles) runtime_error
    table ← get_block_table s.block_manager request_id
    try_sources (attempt target) (discard_id target s.worker_handles)
    ok (record s { worker_request_ids = reassign request_id target s.worker_request_ids })

  -- The method is called but declared nowhere, so that the call raises an AttributeError.
  abbrev pub recover_via_recompute : Recovery F → ℕ → Result (Recovery F)
  recover_via_recompute s request_id = err attribute_error

  abbrev pub current_bandwidth : Recovery F → (now : F.Carrier) → F.Carrier
  current_bandwidth s now = elim s.local_scheduler [
    | none ↦ s.rom_config.sim_bandwidth_mbps
    | some actor ↦ get_bandwidth F actor now
  ]

  abbrev pub prompt_len_of : Recovery F → ℕ → ℕ
  prompt_len_of s request_id = elim (lookup request_id s.prompt_len_map) [ none ↦ 0 | some n ↦ n ]

  -- `LLMEngine.get_rom_decision`
  unfoldable pub get_rom_decision :
      Recovery F → ℕ → F.Carrier → Result (Decision × F.Carrier × F.Carrier)
  get_rom_decision s request_id bandwidth =
      make_decision F (pos (prompt_len_of s request_id)) bandwidth s.rom_config

  -- The branch of `_recover_one_request`: without a target there is no migration.
  unfoldable pub execute_recovery :
      (ℕ → ℕ → Attempt) → Recovery F → Decision → ℕ → Option ℕ → Result (Recovery F)
  unfolding recover_via_migrate
  execute_recovery attempt s migrate request_id (some target) =
      recover_via_migrate attempt s request_id target
  execute_recovery attempt s migrate request_id none = recover_via_recompute s request_id
  execute_recovery attempt s recompute request_id target = recover_via_recompute s request_id

  -- An exception of the recovery is caught and logged.
  unfoldable pub record_outcome :
      Recovery F
      → Result (Recovery F)
      → (now : F.Carrier) → ℕ
      → Decision
      → (latency : F.Carrier) → Recovery F
  record_outcome s (ok s') now request_id decision latency = record s' {
    log = log_recovery F s'.log now request_id decision true latency none;
  }
  record_outcome s (err e) now request_id decision latency = record s {
    log = log_recovery F s.log now request_id decision false latency (some e);
  }

  unfoldable pub recover_one_request :
      (ℕ → ℕ → Attempt)
      → Recovery F
      → (request_id failed : ℕ) → (target : Option ℕ) → (now later : F.Carrier)
      → Result (Recovery F)
  unfolding get_rom_decision execute_recovery record_outcome
  recover_one_request attempt s request_id failed target now later = do
    let bandwidth = current_bandwidth s now
    (decision, c_mig, c_recomp) ← get_rom_decision s request_id bandwidth
    let logged = record s {
      log =
          log_decision F s.log now request_id (prompt_len_of s request_id) bandwidth c_mig c_recomp
            decision s.rom_config.policy (some failed) target;
    }
    ok (
        record_outcome logged (execute_recovery attempt logged decision request_id target) later
          request_id decision (F.sub later now))

  unfoldable pub recover_requests :
      (ℕ → ℕ → Attempt)
      → Recovery F
      → List ℕ
      → (failed : ℕ) → (target : Option ℕ) → (now later : F.Carrier) → Result (Recovery F)
  unfolding recover_one_request
  recover_requests attempt s [] failed target now later = ok s
  recover_requests attempt s (k ∷ ks) failed target now later = do
    s' ← recover_one_request attempt s k failed target now later
    recover_requests attempt s' ks failed target now later

  abbrev pub without_worker : Option (LocalScheduler F) → ℕ → Option (LocalScheduler F)
  without_worker none w = none
  without_worker (some actor) w = some (deregister_worker F actor w)

  abbrev pub best_target : Option (LocalScheduler F) → ℕ → Option ℕ
  best_target none w = none
  best_target (some actor) w = get_best_decode_worker F actor (some (w ∷ []))

  -- The worker is dead from now on, and no target any more, whatever comes of its requests.
  abbrev pub mark_dead : Recovery F → ℕ → (now : F.Carrier) → Recovery F
  mark_dead s w now = record s {
    dead_workers = add_id w s.dead_workers;
    local_scheduler = without_worker s.local_scheduler w;
    log = log_worker_failure F s.log now w (ids_of s.worker_request_ids w);
  }

  unfoldable pub handle_decode_worker_failure :
      (ℕ → ℕ → Attempt) → Recovery F → (worker : ℕ) → (now later : F.Carrier) → Result (Recovery F)
  unfolding recover_requests
  handle_decode_worker_failure attempt s w now later =
      let s' = mark_dead s w now in
      recover_requests attempt s' (ids_of s.worker_request_ids w) w
        (best_target s'.local_scheduler w) now later
