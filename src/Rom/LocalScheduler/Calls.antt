-- ===== src/Rom/LocalScheduler/Calls.antt =====
-- distserve/rom_local_scheduler.py: what holds of the actor after any calls.
use recompute_or_migrate.Base.{
  ℕ, ◌≤◌, ◌≡◌, refl, sym, ◌⊎◌, none, lookup, subst, true, false, ◌&&◌, Option, some, List, [], ◌∷◌,
  ◌++◌, arith, if_both, length, length-append, length-drop, ℤ, pos_part, Dict, insert, has_key,
  Distinct, insert-Distinct, erase-Distinct, value_error, Result, ok, err, ◌>>◌, guard,
}
use recompute_or_migrate.Floats.{Floats, of_ℕ}
use recompute_or_migrate.Rom.Config.{RomConfig}
use recompute_or_migrate.Rom.LocalScheduler.{
  LocalScheduler, mem, new_scheduler, push_history, update_bandwidth, set_bandwidth_alpha,
  register_worker, deregister_worker, update_queue_length, get_best_decode_worker, excluded_of,
  reset,
}
use recompute_or_migrate.Rom.LocalScheduler.Workers.{
  Best, get_best_decode_worker-Best, get_best_decode_worker-none_iff,
}

-- The calls that change the state.
pub data Call (F : Floats) : Type 0 where
  measures : (bandwidth now : F.Carrier) → Call F
  smooths : (alpha : F.Carrier) → Call F
  registers : ℕ → Call F
  deregisters : ℕ → Call F
  reports : ℕ → ℤ → Call F
  resets : Call F

module _ (F : Floats) where
  -- A call that raises leaves the state as it is.
  abbrev kept_or : LocalScheduler F → Result (LocalScheduler F) → LocalScheduler F
  kept_or s (ok s') = s'
  kept_or s (err e) = s

  unfoldable pub perform : LocalScheduler F → Call F → LocalScheduler F
  perform s (measures m now) = update_bandwidth F s m now
  perform s (smooths alpha) = kept_or s (set_bandwidth_alpha F s alpha)
  perform s (registers w) = register_worker F s w
  perform s (deregisters w) = deregister_worker F s w
  perform s (reports w size) = update_queue_length F s w size
  perform s resets = reset F s

  unfoldable pub perform_all : LocalScheduler F → List (Call F) → LocalScheduler F
  perform_all s [] = s
  perform_all s (c ∷ cs) = perform_all (perform s c) cs

  -- The ids of the workers are distinct, the history is within its maximum, and neither the configuration
  -- nor the maximum has changed.
  pub record IsSound (c : RomConfig F) (s : LocalScheduler F) : Type 0 where
    pub workers : Distinct s.queue_lengths
    pub history : length s.bw_history ≤ 100
    pub limit : s.bw_history_max ≡ 100
    pub config : s.config ≡ c

  push_history-length :
      (n : ℕ) (xs : List F.Carrier) (x : F.Carrier)
      → length xs ≤ n
      → length (push_history F n xs x) ≤ n
  unfolding push_history
  push_history-length n xs x h =
      ground (arith, length-append {0} xs (x ∷ []), length-drop {0} 1 (xs ++ x ∷ []))

  with_workers :
      (c : RomConfig F) (s : LocalScheduler F) (d : Dict ℕ)
      → IsSound c s
      → Distinct d
      → IsSound c (record s { queue_lengths = d })
  with_workers c s d h v = record {
    workers = v;
    history = h.history;
    limit = h.limit;
    config = h.config;
  }

  update_bandwidth-IsSound :
      (c : RomConfig F) (s : LocalScheduler F) (m now : F.Carrier)
      → IsSound c s
      → IsSound c (update_bandwidth F s m now)
  unfolding update_bandwidth
  update_bandwidth-IsSound c s m now h = if_both (IsSound c) (F.leq m (of_ℕ F 0)) _ _ h (record {
    workers = h.workers;
    history =
        subst (λ n. length (push_history F n s.bw_history m) ≤ 100) (sym h.limit)
          (push_history-length 100 s.bw_history m h.history);
    limit = h.limit;
    config = h.config;
  })

  set_bandwidth_alpha-IsSound :
      (c : RomConfig F) (s : LocalScheduler F) (alpha : F.Carrier)
      → IsSound c s
      → IsSound c (kept_or s (set_bandwidth_alpha F s alpha))
  unfolding set_bandwidth_alpha
  set_bandwidth_alpha-IsSound c s alpha h =
      elim (F.less (of_ℕ F 0) alpha && F.leq alpha (of_ℕ F 1))
        as (λ t.
          IsSound c (kept_or s (guard t value_error >> ok (record s { bw_alpha = alpha })))) [
            | true ↦ record {
              workers = h.workers;
              history = h.history;
              limit = h.limit;
              config = h.config;
            }
            | false ↦ h
          ]

  register_worker-IsSound :
      (c : RomConfig F) (s : LocalScheduler F) (w : ℕ)
      → IsSound c s
      → IsSound c (register_worker F s w)
  unfolding register_worker
  register_worker-IsSound c s w h = if_both (IsSound c) (has_key w s.queue_lengths) _ _ h (
      with_workers c s (insert w 0 s.queue_lengths) h
        (insert-Distinct w 0 s.queue_lengths h.workers))

  perform-IsSound :
      (c : RomConfig F) (s : LocalScheduler F) (call : Call F)
      → IsSound c s
      → IsSound c (perform s call)
  unfolding perform deregister_worker update_queue_length reset
  perform-IsSound c s (measures m now) h = update_bandwidth-IsSound c s m now h
  perform-IsSound c s (smooths alpha) h = set_bandwidth_alpha-IsSound c s alpha h
  perform-IsSound c s (registers w) h = register_worker-IsSound c s w h
  perform-IsSound c s (deregisters w) h =
      with_workers c s _ h (erase-Distinct w s.queue_lengths h.workers)
  perform-IsSound c s (reports w size) h =
      with_workers c s _ h (insert-Distinct w (pos_part size) s.queue_lengths h.workers)
  perform-IsSound c s resets h = record {
    workers = tt;
    history = omega arith;
    limit = h.limit;
    config = h.config;
  }

  perform_all-IsSound :
      (c : RomConfig F) (s : LocalScheduler F) (cs : List (Call F))
      → IsSound c s
      → IsSound c (perform_all s cs)
  unfolding perform_all
  perform_all-IsSound c s [] h = h
  perform_all-IsSound c s (call ∷ cs) h =
      perform_all-IsSound c (perform s call) cs (perform-IsSound c s call h)

  new_scheduler-IsSound : (c : RomConfig F) → IsSound c (new_scheduler F c)
  unfolding new_scheduler
  new_scheduler-IsSound c = record {
    workers = tt;
    history = omega arith;
    limit = refl;
    config = refl;
  }

  -- What a pick for a recovery is: no worker only if every one that is registered is excluded, and else
  -- one of the best.
  abbrev pub IsPick : List ℕ → Dict ℕ → Option ℕ → Type 0
  IsPick exclude workers none = (w : ℕ) → lookup w workers ≡ none ⊎ (mem w exclude ≡ true)
  IsPick exclude workers (some w) = Best exclude workers w

  picked-IsPick :
      (s : LocalScheduler F) (exclude : Option (List ℕ)) (o : Option ℕ)
      → Distinct s.queue_lengths
      → get_best_decode_worker F s exclude ≡ o
      → IsPick (excluded_of exclude) s.queue_lengths o
  picked-IsPick s exclude none h e = (get_best_decode_worker-none_iff F s exclude).0 e
  picked-IsPick s exclude (some w) h e = get_best_decode_worker-Best F s exclude w h e

  -- After any calls on a new actor, whatever is picked: the ids of the workers are distinct, at most 100
  -- samples are kept, and the configuration is the one it was made with. A pick for a recovery is of a
  -- worker that is registered, not excluded, and has a queue as short as any such worker; none is picked
  -- only if every worker that is registered is excluded.
  pub perform_all-Best :
      (c : RomConfig F) (cs : List (Call F)) (exclude : Option (List ℕ))
      → IsSound c (perform_all (new_scheduler F c) cs)
        × IsPick
            (excluded_of exclude)
            (perform_all (new_scheduler F c) cs).queue_lengths
            (get_best_decode_worker F (perform_all (new_scheduler F c) cs) exclude)
  perform_all-Best c cs exclude =
      let sound = perform_all-IsSound c (new_scheduler F c) cs (new_scheduler-IsSound c) in
      (sound, picked-IsPick _ exclude _ sound.workers refl)

  -- A reset brings an actor back to a new one, whatever was called before, but for the coefficient of the
  -- smoothing, which stays.
  pub reset_lem :
      (c : RomConfig F) (cs : List (Call F))
      → reset F (perform_all (new_scheduler F c) cs)
        ≡ record (new_scheduler F c) { bw_alpha = (perform_all (new_scheduler F c) cs).bw_alpha }
  unfolding reset new_scheduler
  reset_lem c cs =
      let sound = perform_all-IsSound c (new_scheduler F c) cs (new_scheduler-IsSound c) in
      rw (sound.config, sound.limit)
