-- ===== src/Simulator/Systems/Turns.antt =====
-- simdistserve/base/worker.py: the end of a pass, and the turns of a process.
use recompute_or_migrate.Base.{
  ℕ, ◌+◌, ◌<◌, ◌≡◌, refl, ap, ◌∙◌, inl, inr, not, ◌&&◌, some, List, [], ◌∷◌, map, arith, Bool-cases,
  if_true, if_false, get_elem?, keep, ok, ◌>>=◌, >>=-ok,
}
use recompute_or_migrate.Simulator.Requests.{Request, finish_decode, should_finish}
use recompute_or_migrate.Simulator.Requests.Identity.{id-finish_decode}
use recompute_or_migrate.Simulator.Workers.{
  Worker, Activity, at_top, waiting, awake, in_prefill, in_decode, log_pass, is_empty, choose,
}
use recompute_or_migrate.Simulator.Workers.Passes.{choose-IsStarted}
use recompute_or_migrate.Simulator.Systems.Places.{copies, copies-map, copies-keep}
use recompute_or_migrate.Simulator.Systems.Soundness.{
  in_pass, worker_copies, IsWiredWorker, IsWired, Sound, put-IsWired, population-put,
  worker_at_total, ok-Sound, respell, recount, >>=-Sound, modify-Sound, leave-Sound,
}
use recompute_or_migrate.Simulator.Systems.Sending.{forward-Sound, next_wid_total, pass_on-Sound}
use recompute_or_migrate.Simulator.Systems.{
  System, decode, put, modify, exit_prefill, forward_batch, exit_decode, log_waiting, finish_pass,
  turn_at, turn,
}

module _ {Number : Type 0} where
  exit_prefill-Sound :
      {n : ℕ} (now : Number) (w : Worker Number) (rs : List (Request Number)) (s : System Number)
      → IsWired n s
      → IsWiredWorker n w
      → Sound n s (λ a. copies a rs) (exit_prefill now w rs s)
  unfolding exit_prefill copies
  exit_prefill-Sound {n} now w [] s h hw = ok-Sound n s h
  exit_prefill-Sound {n} now w (r ∷ rs) s h hw =
      let (wid, e) = next_wid_total w s h hw in
      recount
        (respell (>>=-ok _ e) (
          >>=-Sound (exit_prefill now w rs) (pass_on-Sound now w wid r s h hw)
            (λ t ht. exit_prefill-Sound now w rs t ht hw)))
        (λ a. omega arith)

  forward_batch-Sound :
      {n : ℕ} (w : Worker Number) (rs : List (Request Number)) (s : System Number)
      → IsWired n s
      → IsWiredWorker n w
      → Sound n s (λ a. copies a rs) (forward_batch w rs s)
  unfolding forward_batch copies
  forward_batch-Sound {n} w [] s h hw = ok-Sound n s h
  forward_batch-Sound w (r ∷ rs) s h hw = forward-Sound decode w (r ∷ rs) s h hw

  exit_decode-Sound :
      {n : ℕ} (now : Number) (w : Worker Number) (rs : List (Request Number)) (s : System Number)
      → IsWired n s
      → IsWiredWorker n w
      → Sound n s (λ a. copies a rs) (exit_decode now w rs s)
  unfolding exit_decode copies
  exit_decode-Sound {n} now w [] s h hw = ok-Sound n s h
  exit_decode-Sound {n} now w (r ∷ rs) s h hw =
      let (wid, e) = next_wid_total w s h hw in
      let ended : List (Request Number) =
        map (finish_decode now w.is_last_in_pipeline wid) (r ∷ rs) in
      recount
        (respell (>>=-ok _ e) (
          >>=-Sound (forward_batch w (keep (λ q. not (should_finish q)) ended))
            (leave-Sound (keep should_finish ended) s h)
            (λ t ht. forward_batch-Sound w (keep (λ q. not (should_finish q)) ended) t ht hw)))
        (λ a.
          copies-keep should_finish a ended
          ∙ copies-map (finish_decode now w.is_last_in_pipeline wid)
              (id-finish_decode now w.is_last_in_pipeline wid) a (r ∷ rs))

  log_waiting-Sound :
      {n : ℕ} (now : Number) (i : ℕ) (s : System Number)
      → IsWired n s
      → i < n
      → Sound n s (λ a. 0) (modify i (log_waiting now) s)
  unfolding log_waiting log_pass worker_copies
  log_waiting-Sound now i s h b =
      modify-Sound i _ _ s h b
        (λ w hw. record {
          next = hw.next;
          next_is = hw.next_is;
          below = hw.below;
          reaches = hw.reaches;
          times_prefill = hw.times_prefill;
          times_decode = hw.times_decode;
        })
        (λ a w. omega arith)

  -- A worker is written over one that has the requests that are to be added to the system again.
  put-Sound :
      {n : ℕ} (i : ℕ) (w v : Worker Number) (s : System Number)
      → IsWired n s
      → get_elem? s.workers i ≡ some w
      → IsWiredWorker n v
      → ((a : ℕ) → worker_copies a v ≡ worker_copies a w)
      → Sound n s (λ a. 0) (ok (put i v s))
  put-Sound {n} i w v s h e hv c = record {
    after = put i v s;
    runs = refl;
    wired = put-IsWired n i v s h hv;
    counts = λ a. omega (arith, population-put a i w v s e, c a);
  }

  finish_pass-Sound :
      {n : ℕ} (now : Number) (i : ℕ) (w : Worker Number) (ips : ℕ) (ps ds : List (Request Number))
      (s : System Number)
      → IsWired n s
      → i < n
      → IsWiredWorker n w
      → get_elem? s.workers i ≡ some w
      → ((a : ℕ) → in_pass a w.activity ≡ copies a ps + copies a ds)
      → Sound n s (λ a. 0) (finish_pass now i w ips ps ds s)
  unfolding finish_pass worker_copies in_pass
  finish_pass-Sound {n} now i w ips ps ds s h b hw e c =
      let v : Worker Number = record w { prefill_ips = ips; activity = at_top } in
      let hv : IsWiredWorker n v = record {
        next = hw.next;
        next_is = hw.next_is;
        below = hw.below;
        reaches = hw.reaches;
        times_prefill = hw.times_prefill;
        times_decode = hw.times_decode;
      } in
      let done =
        >>=-Sound _ (exit_prefill-Sound now w ps (put i v s) (put-IsWired n i v s h hv) hw) (λ t ht.
          >>=-Sound _ (exit_decode-Sound now w ds t ht hw)
            (λ u hu. log_waiting-Sound now i u hu b)) in
      record {
        after = done.after;
        runs = done.runs;
        wired = done.wired;
        counts = λ a. omega (arith, done.counts a, population-put a i w v s e, c a);
      }

  started-Sound :
      {n : ℕ} (int_mul : ℕ → Number → ℕ) (now : Number) (fresh i : ℕ) (w : Worker Number)
      (s : System Number)
      → IsWired n s
      → get_elem? s.workers i ≡ some w
      → IsWiredWorker n w
      → ((a : ℕ) → in_pass a w.activity ≡ 0)
      → Sound n s (λ a. 0) (choose int_mul now fresh w >>= (λ v. ok (put i v s)))
  unfolding worker_copies
  started-Sound {n} int_mul now fresh i w s h e hw idle =
      let (v, f, started) = choose-IsStarted int_mul now fresh w hw.times_prefill hw.times_decode in
      respell (>>=-ok _ f)
        (put-Sound i w v s h e (started.keeps n hw) (λ a. omega (arith, started.counts a, idle a)))

  worker_copies-waiting :
      (a : ℕ) (w : Worker Number)
      → in_pass a w.activity ≡ 0
      → worker_copies a (record w { activity = waiting }) ≡ worker_copies a w
  unfolding worker_copies in_pass
  worker_copies-waiting a w idle = omega (arith, idle)

  turn_at-Sound :
      {n : ℕ} (int_mul : ℕ → Number → ℕ) (now : Number) (fresh i : ℕ) (w : Worker Number)
      (activity : Activity Number) (s : System Number)
      → IsWired n s
      → i < n
      → get_elem? s.workers i ≡ some w
      → IsWiredWorker n w
      → w.activity ≡ activity
      → Sound n s (λ a. 0) (turn_at int_mul now fresh i w activity s)
  unfolding turn_at in_pass copies
  turn_at-Sound {n} int_mul now fresh i w at_top s h b e hw t =
      elim (Bool-cases (is_empty w.prefill_queue && is_empty w.decode_queue)) [
        | inl none_left ↦ respell (if_true _ _ _ none_left) (
            put-Sound i w (record w { activity = waiting }) s h e
              (record {
                next = hw.next;
                next_is = hw.next_is;
                below = hw.below;
                reaches = hw.reaches;
                times_prefill = hw.times_prefill;
                times_decode = hw.times_decode;
              })
              (λ a. worker_copies-waiting a w (ap (in_pass a) t)))
        | inr some_left ↦
            respell (if_false _ _ _ some_left)
              (started-Sound int_mul now fresh i w s h e hw (λ a. ap (in_pass a) t))
      ]
  turn_at-Sound {n} int_mul now fresh i w waiting s h b e hw t = ok-Sound n s h
  turn_at-Sound int_mul now fresh i w awake s h b e hw t =
      started-Sound int_mul now fresh i w s h e hw (λ a. ap (in_pass a) t)
  turn_at-Sound int_mul now fresh i w (in_prefill ps ds) s h b e hw t =
      finish_pass-Sound now i w 0 ps ds s h b hw e (λ a. ap (in_pass a) t)
  turn_at-Sound int_mul now fresh i w (in_decode ds) s h b e hw t =
      finish_pass-Sound now i w w.prefill_ips [] ds s h b hw e
        (λ a. omega (arith, ap (in_pass a) t))

  -- A turn of the process of any worker raises nothing, keeps the wiring, and neither loses nor doubles
  -- a request.
  pub turn-Sound :
      {n : ℕ} (int_mul : ℕ → Number → ℕ) (now : Number) (fresh i : ℕ) (s : System Number)
      → IsWired n s
      → i < n
      → Sound n s (λ a. 0) (turn int_mul now fresh i s)
  unfolding turn
  turn-Sound {n} int_mul now fresh i s h b =
      let (w, e, at, hw) = worker_at_total n i s h b in
      respell (>>=-ok _ at) (turn_at-Sound int_mul now fresh i w w.activity s h b e hw refl)
