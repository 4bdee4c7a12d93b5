-- ===== src/Simulator/Workers/Passes.antt =====
-- simdistserve/base/worker.py: the start of a pass raises nothing, and loses and doubles no request.
use recompute_or_migrate.Base.{
  ℕ, ◌+◌, ◌-◌, ◌≡◌, refl, sym, ap, ◌∙◌, inl, inr, Bool, true, false, not, ◌&&◌, some, List, [], ◌∷◌,
  ◌++◌, map, arith, ◌==◌, if◌then◌else◌, Bool-cases, if_true, if_false, sum_of, sum_of-append,
  one_if, pos, ok, >>=-ok, list-cases,
}
use recompute_or_migrate.Simulator.Estimates.{get_prefill_time, get_decode_time}
use recompute_or_migrate.Simulator.Requests.{Request, do_prefill, do_decode}
use recompute_or_migrate.Simulator.Requests.Identity.{id-do_prefill, id-do_decode}
use recompute_or_migrate.Simulator.Workers.{
  Worker, is_first_in_pipeline, has_back_pressure, enter_prefill, enter_decodes, log_pass,
  begin_prefill, begin_decode, is_empty, choose,
}
use recompute_or_migrate.Simulator.Workers.Prefill.{
  unscheduled, unprocessed, IsCut, enter_prefill-IsCut,
}
use recompute_or_migrate.Simulator.Workers.Chunks.{enter_prefill-IsChunk}
use recompute_or_migrate.Simulator.Workers.Decode.{enter_decodes-IsTaken}
use recompute_or_migrate.Simulator.Systems.Places.{copies, copies-append, copies-map}
use recompute_or_migrate.Simulator.Systems.Soundness.{in_pass, worker_copies, IsWiredWorker}

pairs : ℕ → List (ℕ × ℕ) → ℕ
pairs a ps = sum_of (λ (p : ℕ × ℕ). one_if (p.0 == a)) ps

pairs-append : (a : ℕ) (xs ys : List (ℕ × ℕ)) → pairs a (xs ++ ys) ≡ pairs a xs + pairs a ys
unfolding pairs
pairs-append a xs ys = sum_of-append _ xs ys

module _ {Number : Type 0} where
  pairs-unprocessed :
      (a : ℕ) (rs : List (Request Number)) → pairs a (map unprocessed rs) ≡ copies a rs
  unfolding pairs copies
  pairs-unprocessed a [] = refl
  pairs-unprocessed a (r ∷ rs) = omega (arith, pairs-unprocessed a rs)

  pairs-unscheduled :
      (a : ℕ) (rs : List (Request Number)) → pairs a (map unscheduled rs) ≡ copies a rs
  unfolding pairs copies
  pairs-unscheduled a [] = refl
  pairs-unscheduled a (r ∷ rs) = omega (arith, pairs-unscheduled a rs)

  copies-IsCut :
      (a rounds budget : ℕ) (queue batch rest : List (Request Number))
      → IsCut rounds budget queue batch rest
      → copies a batch + copies a rest ≡ copies a queue
  copies-IsCut a rounds budget queue batch rest cut = omega (
    arith,
    ap (pairs a) cut.same,
    pairs-append a (map unprocessed batch) (map unscheduled rest),
    pairs-unprocessed a batch,
    pairs-unscheduled a rest,
    pairs-unscheduled a queue,
  )

  copies_whole :
      (a : ℕ) (queue batch rest : List (Request Number))
      → batch ++ rest ≡ queue
      → copies a batch + copies a rest ≡ copies a queue
  copies_whole a queue batch rest e = sym (copies-append a batch rest) ∙ ap (copies a) e

  -- A batch off a queue of the worker.
  entered :
      (now : Number) (fresh : ℕ) (w : Worker Number)
      → is_empty w.prefill_queue ≡ false
      → (batch : List (Request Number)) × (rest : List (Request Number)) × (enter_prefill now fresh
            w
          ≡ ok (batch, record w { prefill_queue = rest }))
        × ((a : ℕ) → copies a batch + copies a rest ≡ copies a w.prefill_queue)
  unfolding is_empty
  entered now fresh w some_request = elim (Bool-cases (is_first_in_pipeline w)) [
    | inl t ↦
        let (batch, rest, e, cut) = enter_prefill-IsCut now fresh w t in
        (batch, rest, e, λ a. copies-IsCut a _ _ _ batch rest cut)
    | inr t ↦ elim (list-cases w.prefill_queue) [
      | inl none_left ↦
          absurd (let h : true ≡ false = sym (ap is_empty none_left) ∙ some_request in cc)
      | inr (r, queue, q) ↦
          let (batch, rest, e, chunk) = enter_prefill-IsChunk now fresh w r queue t q in
          (
            map (do_prefill now (some (pos w.wid))) batch,
            rest,
            e,
            λ a. omega (
              arith,
              copies_whole a w.prefill_queue batch rest chunk.whole,
              copies-map (do_prefill now (some (pos w.wid))) (id-do_prefill now (some (pos w.wid)))
                  a batch,
            ),
          )
    ]
  ]

  decoded :
      (now : Number) (k : ℕ) (w : Worker Number)
      → (batch : List (Request Number)) × (rest : List (Request Number)) × (enter_decodes now k w
          ≡ ok (batch, record w { decode_queue = rest }))
        × ((a : ℕ) → copies a batch + copies a rest ≡ copies a w.decode_queue)
  decoded now k w =
      let (batch, rest, e, taken) = enter_decodes-IsTaken now k w in
      (
        map (do_decode now (some (pos w.wid))) batch,
        rest,
        e,
        λ a. omega (
          arith,
          copies_whole a w.decode_queue batch rest taken.whole,
          copies-map (do_decode now (some (pos w.wid))) (id-do_decode now (some (pos w.wid))) a
              batch,
        ),
      )

  decoded_if :
      (t : Bool) (now : Number) (k : ℕ) (w : Worker Number)
      → (batch : List (Request Number)) × (rest : List (Request Number)) × ((if t
            then enter_decodes now k w
            else ok ([], w))
          ≡ ok (batch, record w { decode_queue = rest }))
        × ((a : ℕ) → copies a batch + copies a rest ≡ copies a w.decode_queue)
  unfolding copies
  decoded_if true now k w = decoded now k w
  decoded_if false now k w = ([], w.decode_queue, refl, λ a. omega arith)

  -- A worker after the start of a pass: with the wiring that it had, and the requests.
  pub record IsStarted (w v : Worker Number) : Type 0 where
    pub keeps : (n : ℕ) → IsWiredWorker n w → IsWiredWorker n v
    pub counts : (a : ℕ) → worker_copies a v ≡ copies a w.prefill_queue + copies a w.decode_queue

  begin_prefill-IsStarted :
      (now : Number) (fresh : ℕ) (w : Worker Number)
      → is_empty w.prefill_queue ≡ false
      → get_prefill_time w.engine_type w.model_type w.tp_prefill ≡ ok tt
      → (v : Worker Number) × (begin_prefill now fresh w ≡ ok v) × IsStarted w v
  unfolding begin_prefill log_pass worker_copies in_pass
  begin_prefill-IsStarted now fresh w some_request times =
      let (ps, rest, e, c) = entered now fresh w some_request in
      let (ds, others, f, d) =
        decoded_if w.enable_chunked_prefill now
          (w.prefill_max_tokens - sum_of (λ r. r.current_prefill_lens) ps)
          (record w { prefill_queue = rest }) in
      (
        _,
        >>=-ok _ e ∙ >>=-ok _ f ∙ >>=-ok _ times,
        record {
          keeps = λ n h. record {
            next = h.next;
            next_is = h.next_is;
            below = h.below;
            reaches = h.reaches;
            times_prefill = h.times_prefill;
            times_decode = h.times_decode;
          };
          counts = λ a. omega (arith, c a, d a);
        },
      )

  begin_decode-IsStarted :
      (now : Number) (w : Worker Number)
      → get_decode_time w.engine_type w.model_type w.tp_decode ≡ ok tt
      → (v : Worker Number) × (begin_decode now w ≡ ok v) × IsStarted w v
  unfolding begin_decode log_pass worker_copies in_pass
  begin_decode-IsStarted now w times =
      let (ds, others, f, d) = decoded now w.decode_max_tokens w in
      (
        _,
        >>=-ok _ f ∙ >>=-ok _ times,
        record {
          keeps = λ n h. record {
            next = h.next;
            next_is = h.next_is;
            below = h.below;
            reaches = h.reaches;
            times_prefill = h.times_prefill;
            times_decode = h.times_decode;
          };
          counts = λ a. omega (arith, d a);
        },
      )

  pub choose-IsStarted :
      (int_mul : ℕ → Number → ℕ) (now : Number) (fresh : ℕ) (w : Worker Number)
      → get_prefill_time w.engine_type w.model_type w.tp_prefill ≡ ok tt
      → get_decode_time w.engine_type w.model_type w.tp_decode ≡ ok tt
      → (v : Worker Number) × (choose int_mul now fresh w ≡ ok v) × IsStarted w v
  unfolding choose
  choose-IsStarted int_mul now fresh w p d =
      elim (Bool-cases (not (is_empty w.prefill_queue) && not (has_back_pressure int_mul w))) [
        | inl t ↦
            let (v, e, started) = begin_prefill-IsStarted now fresh w (ground (arith, t)) p in
            (v, if_true _ _ _ t ∙ e, started)
        | inr t ↦
            let (v, e, started) = begin_decode-IsStarted now w d in
            (v, if_false _ _ _ t ∙ e, started)
      ]
