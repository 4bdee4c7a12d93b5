-- ===== src/Recovery/Outcome.antt =====
-- distserve/single_stage_engine.py: what comes of the failure of a worker.
use recompute_or_migrate.Base.{
  ℕ, ◌≡◌, refl, sym, ap, subst, ◌∙◌, ◌≢◌, false, ◌||◌, Option, none, some, List, [], ◌∷◌, ◌++◌,
  ◌==◌, pos, runtime_error, attribute_error, Result, ok, err, >>=-eq-ok, >>=-ok, ok-injective,
  err≢ok, guard-eq-ok,
}
use recompute_or_migrate.Floats.{Floats}
use recompute_or_migrate.Rom.Decision.{Decision, migrate, recompute}
use recompute_or_migrate.Rom.Decision.Tables.{make_decision_total}
use recompute_or_migrate.Rom.LocalScheduler.{mem}
use recompute_or_migrate.Rom.Logger.{Log, warning, rom_recovery, log_decision, log_recovery}
use recompute_or_migrate.BlockManager.{get_block_table}
use recompute_or_migrate.Recovery.{
  Recovery, Attempt, ids_of, recover_via_migrate, try_sources, discard_id, current_bandwidth,
  prompt_len_of, get_rom_decision, execute_recovery, record_outcome, recover_one_request,
  recover_requests, without_worker, best_target, mark_dead, handle_decode_worker_failure,
}
use recompute_or_migrate.Recovery.Tracking.{mem-add}

module _ (F : Floats) where
  -- What a recovery of one request never touches.
  record Same (s s' : Recovery F) : Type 0 where
    config : s'.rom_config ≡ s.rom_config
    dead : s'.dead_workers ≡ s.dead_workers
    handles : s'.worker_handles ≡ s.worker_handles

  Same-refl : (s : Recovery F) → Same s s
  Same-refl s = record { config = refl; dead = refl; handles = refl }

  Same-trans : {s t u : Recovery F} → Same s t → Same t u → Same s u
  Same-trans a b = record {
    config = b.config ∙ a.config;
    dead = b.dead ∙ a.dead;
    handles = b.handles ∙ a.handles;
  }

  recover_via_migrate-Same :
      (attempt : ℕ → ℕ → Attempt) (s : Recovery F) (k target : ℕ) (s' : Recovery F)
      → recover_via_migrate F attempt s k target ≡ ok s'
      → Same s s'
  unfolding recover_via_migrate
  recover_via_migrate-Same attempt s k target s' e =
      let (registered, e1) = guard-eq-ok (mem target s.worker_handles) runtime_error _ e in
      let (table, got, e2) = >>=-eq-ok (get_block_table s.block_manager k) _ e1 in
      let (done, pulled, e3) =
        >>=-eq-ok (try_sources (attempt target) (discard_id target s.worker_handles)) _ e2 in
      subst (Same s) (ok-injective e3) (record { config = refl; dead = refl; handles = refl })

  record_outcome-Same :
      (s : Recovery F) (outcome : Result (Recovery F)) (now : F.Carrier) (k : ℕ) (d : Decision)
      (latency : F.Carrier)
      → ((t : Recovery F) → outcome ≡ ok t → Same s t)
      → Same s (record_outcome F s outcome now k d latency)
  unfolding record_outcome
  record_outcome-Same s (ok t) now k d latency h =
      let v = h t refl in record { config = v.config; dead = v.dead; handles = v.handles }
  record_outcome-Same s (err e) now k d latency h = record {
    config = refl;
    dead = refl;
    handles = refl;
  }

  execute_recovery-Same :
      (attempt : ℕ → ℕ → Attempt) (s : Recovery F) (d : Decision) (k : ℕ) (target : Option ℕ)
      (t : Recovery F)
      → execute_recovery F attempt s d k target ≡ ok t
      → Same s t
  unfolding execute_recovery
  execute_recovery-Same attempt s migrate k (some w) t e =
      recover_via_migrate-Same attempt s k w t e
  execute_recovery-Same attempt s migrate k none t e = absurd (err≢ok e)
  execute_recovery-Same attempt s recompute k target t e = absurd (err≢ok e)

  recover_one_request_total :
      (attempt : ℕ → ℕ → Attempt) (s : Recovery F) (k failed : ℕ) (target : Option ℕ)
      (now later : F.Carrier)
      → s.rom_config.prefill_time_table ≢ []
      → (s' : Recovery F) × (recover_one_request F attempt s k failed target now later ≡ ok s')
        × Same s s'
  unfolding recover_one_request get_rom_decision
  recover_one_request_total attempt s k failed target now later h =
      let (d, m, r, e) =
        make_decision_total F (pos (prompt_len_of F s k)) (current_bandwidth F s now) s.rom_config
          h in
      let logged =
        log_decision F s.log now k (prompt_len_of F s k) (current_bandwidth F s now) m r d
          s.rom_config.policy (some failed) target in
      let outcome = execute_recovery F attempt (record s { log = logged }) d k target in
      let kept =
        record_outcome-Same (record s { log = logged }) outcome later k d (F.sub later now)
          (λ t e'. execute_recovery-Same attempt (record s { log = logged }) d k target t e') in
      (_, >>=-ok _ e, record { config = kept.config; dead = kept.dead; handles = kept.handles })

  recover_requests_total :
      (attempt : ℕ → ℕ → Attempt) (s : Recovery F) (ks : List ℕ) (failed : ℕ) (target : Option ℕ)
      (now later : F.Carrier)
      → s.rom_config.prefill_time_table ≢ []
      → (s' : Recovery F) × (recover_requests F attempt s ks failed target now later ≡ ok s')
        × Same s s'
  unfolding recover_requests
  recover_requests_total attempt s [] failed target now later h = (s, refl, Same-refl s)
  recover_requests_total attempt s (k ∷ ks) failed target now later h =
      let (s1, e1, v1) = recover_one_request_total attempt s k failed target now later h in
      let (s2, e2, v2) =
        recover_requests_total attempt s1 ks failed target now later
          (λ gone. h (ap (λ c. c.prefill_time_table) (sym v1.config) ∙ gone)) in
      (s2, >>=-ok _ e1 ∙ e2, Same-trans v1 v2)

  -- With an entry in the table of latencies, the handling of a failure ends for all requests of the worker,
  -- whatever the transfers come to. The worker then counts as dead, and so does every worker that did before.
  pub handle_decode_worker_failure_total :
      (attempt : ℕ → ℕ → Attempt) (s : Recovery F) (w v : ℕ) (now later : F.Carrier)
      → s.rom_config.prefill_time_table ≢ []
      → (s' : Recovery F) × (handle_decode_worker_failure F attempt s w now later ≡ ok s')
        × (mem v s'.dead_workers ≡ (mem v s.dead_workers || v == w))
  unfolding handle_decode_worker_failure
  handle_decode_worker_failure_total attempt s w v now later h =
      let (s', e, same) =
        recover_requests_total attempt (mark_dead F s w now) (ids_of s.worker_request_ids w) w
          (best_target F (without_worker F s.local_scheduler w) w) now later h in
      (s', e, ap (mem v) same.dead ∙ mem-add w v s.dead_workers)

  -- A request that is to be recomputed is not recovered: it stays where it was tracked, and the log ends with
  -- a failure of its recovery.
  pub recompute_refused :
      (attempt : ℕ → ℕ → Attempt) (s : Recovery F) (k failed : ℕ) (target : Option ℕ)
      (now later m r : F.Carrier)
      → get_rom_decision F s k (current_bandwidth F s now) ≡ ok (recompute, m, r)
      → (s' : Recovery F) × (before : Log F) × (recover_one_request F attempt s k failed target now
            later
          ≡ ok s')
        × (s'.worker_request_ids ≡ s.worker_request_ids)
        × (s'.log
            ≡ before
              ++ (
                warning,
                rom_recovery later k recompute false
                    (F.round (F.sub later now) 6)
                    (some attribute_error),
              )
                ∷ [])
  unfolding recover_one_request record_outcome execute_recovery log_recovery
  recompute_refused attempt s k failed target now later m r e = (_, _, >>=-ok _ e, refl, refl)
