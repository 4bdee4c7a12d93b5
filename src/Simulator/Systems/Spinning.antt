-- ===== src/Simulator/Systems/Spinning.antt =====
-- simdistserve/base/worker.py: a prompt that is longer than a pass may be.
use recompute_or_migrate.Base.{
  ℕ, zero, suc, min, ◌≡◌, refl, ap, ◌∙◌, true, false, not, ◌&&◌, Option, some, List, [], ◌∷◌, ltb,
  if_true, if_false, length, get_elem?, index_error, ok, ◌>>=◌, or_raise, >>=-ok,
}
use recompute_or_migrate.Simulator.Estimates.{get_prefill_time}
use recompute_or_migrate.Simulator.Requests.{Request}
use recompute_or_migrate.Simulator.Workers.{
  Worker, Activity, at_top, in_prefill, is_first_in_pipeline, has_back_pressure, fill_chunk,
  sched_size, is_refused, select_prefill, enter_prefill, begin_prefill, choose, is_empty, log_pass,
}
use recompute_or_migrate.Simulator.Workers.Prefill.{select_first}
use recompute_or_migrate.Simulator.Systems.Places.{get-set}
use recompute_or_migrate.Simulator.Systems.Runs.{Action, turns, act, run}
use recompute_or_migrate.Simulator.Systems.{
  System, worker_at, put, modify, exit_prefill, exit_decode, log_waiting, finish_pass, turn_at,
  turn,
}

module _ {Number : Type 0} (int_mul : ℕ → Number → ℕ) (r : Request Number)
    (queue : List (Request Number)) where
  -- A first worker that takes whole prompts, with no back pressure, before a prompt that is longer than
  -- `prefill_max_tokens`. The lengths of its passes can be estimated.
  pub record IsBlocked (w : Worker Number) : Type 0 where
    pub first : is_first_in_pipeline w ≡ true
    pub whole : w.enable_chunked_prefill ≡ false
    pub long : ltb w.prefill_max_tokens r.remain_prefill_lens ≡ true
    pub waits : w.prefill_queue ≡ r ∷ queue
    pub free : has_back_pressure int_mul w ≡ false
    pub times : get_prefill_time w.engine_type w.model_type w.tp_prefill ≡ ok tt

  fill_refused :
      (rounds budget fresh : ℕ)
      → ltb budget r.remain_prefill_lens ≡ true
      → fill_chunk false rounds budget 0 fresh (r ∷ queue) ≡ ok ([], r ∷ queue)
  unfolding fill_chunk sched_size is_refused
  fill_refused zero budget fresh long = refl
  fill_refused (suc rounds) budget fresh long = if_true _ _ _ long

  enter_refused :
      (now : Number) (fresh : ℕ) (w : Worker Number)
      → IsBlocked w
      → enter_prefill now fresh w ≡ ok ([], record w { prefill_queue = r ∷ queue })
  unfolding enter_prefill
  enter_refused now fresh w h =
      let e : select_prefill fresh w ≡ ok ([], r ∷ queue) =
        select_first fresh w h.first
        ∙ simp (h.whole, h.waits)
            (fill_refused (min w.prefill_max_batch_size (length (r ∷ queue))) w.prefill_max_tokens
              fresh h.long) in
      >>=-ok _ e

  begin_refused :
      (now : Number) (fresh : ℕ) (w : Worker Number)
      → IsBlocked w
      → (v : Worker Number) × (begin_prefill now fresh w ≡ ok v)
        × IsBlocked v
        × (v.activity ≡ in_prefill [] [])
  unfolding begin_prefill log_pass is_first_in_pipeline has_back_pressure
  begin_refused now fresh w h = (
    _,
    >>=-ok _ (enter_refused now fresh w h) ∙ >>=-ok _ (if_false _ _ _ h.whole) ∙ >>=-ok _ h.times,
    record {
      first = h.first;
      whole = h.whole;
      long = h.long;
      waits = refl;
      free = h.free;
      times = h.times;
    },
    refl,
  )

  choose_refused :
      (now : Number) (fresh : ℕ) (w : Worker Number)
      → IsBlocked w
      → (v : Worker Number) × (choose int_mul now fresh w ≡ ok v)
        × IsBlocked v
        × (v.activity ≡ in_prefill [] [])
  unfolding choose is_empty
  choose_refused now fresh w h =
      let t : (not (is_empty w.prefill_queue) && not (has_back_pressure int_mul w)) ≡ true =
        rw (h.free) (simp (h.waits) refl) in
      let (v, e, b, a) = begin_refused now fresh w h in (v, if_true _ _ _ t ∙ e, b, a)

  -- The worker in a system, at the top of its loop or in a pass over no request.
  pub record Holds (i : ℕ) (activity : Activity Number) (s : System Number) : Type 0 where
    pub worker : Worker Number
    pub stands : get_elem? s.workers i ≡ some worker
    pub blocked : IsBlocked worker
    pub activity_is : worker.activity ≡ activity

  Holds-put :
      (i : ℕ) (activity : Activity Number) (w v : Worker Number) (s : System Number)
      → get_elem? s.workers i ≡ some w
      → IsBlocked v
      → v.activity ≡ activity
      → Holds i activity (put i v s)
  unfolding put
  Holds-put i activity w v s e b a = record {
    worker = v;
    stands = get-set s.workers i w v e;
    blocked = b;
    activity_is = a;
  }

  turn-Holds :
      (now : Number) (fresh i : ℕ) (activity : Activity Number) (s : System Number)
      (h : Holds i activity s)
      → turn int_mul now fresh i s ≡ turn_at int_mul now fresh i h.worker activity s
  unfolding turn worker_at
  turn-Holds now fresh i activity s h =
      ap
        (λ (o : Option (Worker Number)).
          or_raise o index_error >>= (λ w. turn_at int_mul now fresh i w w.activity s))
        h.stands
      ∙ ap (λ (a : Activity Number). turn_at int_mul now fresh i h.worker a s) h.activity_is

  start_turn :
      (now : Number) (fresh i : ℕ) (s : System Number)
      → Holds i at_top s
      → (t : System Number) × (turn int_mul now fresh i s ≡ ok t) × Holds i (in_prefill [] []) t
  unfolding turn_at is_empty
  start_turn now fresh i s h =
      let (v, e, b, a) = choose_refused now fresh h.worker h.blocked in
      let some_left : (is_empty h.worker.prefill_queue && is_empty h.worker.decode_queue) ≡ false =
        simp (h.blocked.waits) refl in
      (
        put i v s,
        turn-Holds now fresh i at_top s h ∙ if_false _ _ _ some_left ∙ >>=-ok _ e,
        Holds-put i (in_prefill [] []) h.worker v s h.stands b a,
      )

  end_turn :
      (now : Number) (fresh i : ℕ) (s : System Number)
      → Holds i (in_prefill [] []) s
      → (t : System Number) × (turn int_mul now fresh i s ≡ ok t) × Holds i at_top t
  unfolding turn_at finish_pass exit_prefill exit_decode modify log_waiting log_pass worker_at put
      is_first_in_pipeline has_back_pressure
  end_turn now fresh i s h =
      let w : Worker Number = record h.worker { prefill_ips = 0; activity = at_top } in
      let e = get-set s.workers i h.worker w h.stands in
      let b = h.blocked in
      (
        _,
        turn-Holds now fresh i (in_prefill [] []) s h
            ∙ >>=-ok {statement = worker_at i (put i w s)} _
                (ap (λ (o : Option (Worker Number)). or_raise o index_error) e),
        Holds-put i at_top w (log_waiting now w) (put i w s) e
            (record {
              first = b.first;
              whole = b.whole;
              long = b.long;
              waits = b.waits;
              free = b.free;
              times = b.times;
            })
            refl,
      )

  -- The two turns of each pass.
  abbrev pub spins : ℕ → List ((Number × Number) × ℕ) → List (Action Number)
  spins i [] = []
  spins i (((start, end), fresh) ∷ rounds) =
      turns start fresh i ∷ turns end fresh i ∷ spins i rounds

  -- A first worker that takes whole prompts, has no back pressure, is of a profiled model and stands before a
  -- prompt longer than `prefill_max_tokens` does its passes over nothing: after any number of them, at any times, in which no
  -- other worker takes a turn and no request arrives, it raises nothing and stands before the same queue.
  pub spins_lem :
      (i : ℕ) (rounds : List ((Number × Number) × ℕ)) (s : System Number)
      → Holds i at_top s
      → (t : System Number) × (run int_mul (spins i rounds) s ≡ ok t) × Holds i at_top t
  unfolding run act
  spins_lem i [] s h = (s, refl, h)
  spins_lem i (((start, end), fresh) ∷ rounds) s h =
      let (s1, e1, h1) = start_turn start fresh i s h in
      let (s2, e2, h2) = end_turn end fresh i s1 h1 in
      let (t, e, h3) = spins_lem i rounds s2 h2 in (t, >>=-ok _ e1 ∙ >>=-ok _ e2 ∙ e, h3)
