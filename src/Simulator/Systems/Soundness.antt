-- ===== src/Simulator/Systems/Soundness.antt =====
-- simdistserve/base: the wiring of a cluster, the population of a system, and what it is for an
-- operation to be sound: it raises nothing, keeps the wiring, and adds the requests that it says.
use recompute_or_migrate.Base.{
  ℕ, ◌+◌, ◌<◌, ◌≡◌, refl, ◌∙◌, true, ◌||◌, some, List, arith, length, get_elem?, sum_of, All,
  Result, ok, ◌>>=◌, >>=-ok,
}
use recompute_or_migrate.Simulator.Estimates.{get_prefill_time, get_decode_time}
use recompute_or_migrate.Simulator.Requests.{Request}
use recompute_or_migrate.Simulator.Workers.{
  Worker, Activity, at_top, waiting, awake, in_prefill, in_decode,
}
use recompute_or_migrate.Simulator.Systems.Places.{
  get_of_lt, length-set, All-get, All-set, sum_of-set, copies, copies-append,
}
use recompute_or_migrate.Simulator.Systems.{System, worker_at, put, modify, leave}

module _ {Number : Type 0} where
  -- How often a request stands in the batches of a pass.
  unfoldable pub in_pass : ℕ → Activity Number → ℕ
  unfolding copies
  in_pass a at_top = 0
  in_pass a waiting = 0
  in_pass a awake = 0
  in_pass a (in_prefill ps ds) = copies a ps + copies a ds
  in_pass a (in_decode ds) = copies a ds

  unfoldable pub worker_copies : ℕ → Worker Number → ℕ
  unfolding copies in_pass
  worker_copies a w = copies a w.prefill_queue + copies a w.decode_queue + in_pass a w.activity

  -- How often a request stands in a system: in the queues, in the batches, and with those that left.
  unfoldable pub population : ℕ → System Number → ℕ
  unfolding worker_copies
  population a s = sum_of (worker_copies a) s.workers + copies a s.gone

  -- A worker of `n`: its next worker is one of them, the scheduler is set where it is called, and the
  -- lengths of its passes can be estimated.
  pub record IsWiredWorker (n : ℕ) (w : Worker Number) : Type 0 where
    pub next : ℕ
    pub next_is : w.next_worker ≡ some next
    pub below : next < n
    pub reaches : (w.should_request_stay || w.has_global_scheduler) ≡ true
    pub times_prefill : get_prefill_time w.engine_type w.model_type w.tp_prefill ≡ ok tt
    pub times_decode : get_decode_time w.engine_type w.model_type w.tp_decode ≡ ok tt

  pub record IsWired (n : ℕ) (s : System Number) : Type 0 where
    pub sized : length s.workers ≡ n
    pub wired : All (IsWiredWorker n) s.workers
    pub prefills : All (λ h. h < n) s.prefill_heads
    pub decodes : All (λ h. h < n) s.decode_heads
    pub some_prefill : 0 < length s.prefill_heads
    pub some_decode : 0 < length s.decode_heads

  pub record Sound (n : ℕ) (s : System Number) (added : ℕ → ℕ) (r : Result (System Number))
      : Type 0 where
    pub after : System Number
    pub runs : r ≡ ok after
    pub wired : IsWired n after
    pub counts : (a : ℕ) → population a after ≡ population a s + added a

  -- A worker takes the place of another of the same wiring.
  pub put-IsWired :
      (n i : ℕ) (w : Worker Number) (s : System Number)
      → IsWired n s
      → IsWiredWorker n w
      → IsWired n (put i w s)
  unfolding put
  put-IsWired n i w s h hw = record {
    sized = length-set s.workers i w ∙ h.sized;
    wired = All-set (IsWiredWorker n) s.workers i w h.wired hw;
    prefills = h.prefills;
    decodes = h.decodes;
    some_prefill = h.some_prefill;
    some_decode = h.some_decode;
  }

  pub population-put :
      (a i : ℕ) (w v : Worker Number) (s : System Number)
      → get_elem? s.workers i ≡ some w
      → population a (put i v s) + worker_copies a w ≡ population a s + worker_copies a v
  unfolding population put
  population-put a i w v s e = omega (arith, sum_of-set (worker_copies a) s.workers i w v e)

  -- The worker at a place below `n`.
  pub worker_at_total :
      (n i : ℕ) (s : System Number)
      → IsWired n s
      → i < n
      → (w : Worker Number) × (get_elem? s.workers i ≡ some w)
        × (worker_at i s ≡ ok w)
        × IsWiredWorker n w
  unfolding worker_at
  worker_at_total n i s h b =
      let (w, e) = get_of_lt s.workers i (omega (arith, h.sized, b)) in
      (w, e, rw e refl, All-get (IsWiredWorker n) s.workers i w h.wired e)

  pub ok-Sound : (n : ℕ) (s : System Number) → IsWired n s → Sound n s (λ a. 0) (ok s)
  ok-Sound n s h = record { after = s; runs = refl; wired = h; counts = λ a. omega arith }

  pub recount :
      {n : ℕ} {s : System Number} {added added' : ℕ → ℕ} {r : Result (System Number)}
      → Sound n s added r
      → ((a : ℕ) → added a ≡ added' a)
      → Sound n s added' r
  recount h e = record {
    after = h.after;
    runs = h.runs;
    wired = h.wired;
    counts = λ a. omega (arith, h.counts a, e a);
  }

  -- The same, of another spelling of the operation.
  pub respell :
      {n : ℕ} {s : System Number} {added : ℕ → ℕ} {r r' : Result (System Number)}
      → r' ≡ r
      → Sound n s added r
      → Sound n s added r'
  respell e h = record { after = h.after; runs = e ∙ h.runs; wired = h.wired; counts = h.counts }

  -- Two sound operations in sequence.
  pub >>=-Sound :
      {n : ℕ} {s : System Number} {added more : ℕ → ℕ} {r : Result (System Number)}
      (k : System Number → Result (System Number))
      → Sound n s added r
      → ((t : System Number) → IsWired n t → Sound n t more (k t))
      → Sound n s (λ a. added a + more a) (r >>= k)
  >>=-Sound k h step =
      let next = step h.after h.wired in
      record {
        after = next.after;
        runs = >>=-ok k h.runs ∙ next.runs;
        wired = next.wired;
        counts = λ a. omega (arith, h.counts a, next.counts a);
      }

  -- An update of one worker that keeps its wiring.
  pub modify-Sound :
      {n : ℕ} (i : ℕ) (f : Worker Number → Worker Number) (added : ℕ → ℕ) (s : System Number)
      → IsWired n s
      → i < n
      → ((w : Worker Number) → IsWiredWorker n w → IsWiredWorker n (f w))
      → ((a : ℕ) (w : Worker Number) → worker_copies a (f w) ≡ worker_copies a w + added a)
      → Sound n s added (modify i f s)
  unfolding modify
  modify-Sound {n} i f added s h b keeps counts =
      let (w, e, at, hw) = worker_at_total n i s h b in
      record {
        after = put i (f w) s;
        runs = >>=-ok _ at;
        wired = put-IsWired n i (f w) s h (keeps w hw);
        counts = λ a. omega (arith, population-put a i w (f w) s e, counts a w);
      }

  pub leave-Sound :
      {n : ℕ} (rs : List (Request Number)) (s : System Number)
      → IsWired n s
      → Sound n s (λ a. copies a rs) (ok (leave rs s))
  unfolding leave population
  leave-Sound rs s h = record {
    after = leave rs s;
    runs = refl;
    wired = record {
      sized = h.sized;
      wired = h.wired;
      prefills = h.prefills;
      decodes = h.decodes;
      some_prefill = h.some_prefill;
      some_decode = h.some_decode;
    };
    counts = λ a. omega (arith, copies-append a s.gone rs);
  }
