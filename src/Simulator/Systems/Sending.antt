-- ===== src/Simulator/Systems/Sending.antt =====
-- simdistserve/base/{scheduler,worker}.py: requests on their way to a queue.
use recompute_or_migrate.Base.{
  ℕ, ◌+◌, ◌<◌, ◌≡◌, refl, sym, ap, subst, ◌∙◌, inl, inr, Bool, true, false, not, ◌||◌, Option, none,
  some, List, [], ◌∷◌, arith, ltb, Bool-cases, if_true, if_false, length, All, ℤ, pos, ltb_ℤ, leb_ℤ,
  assertion_error, attribute_error, ok, ◌>>=◌, or_raise, >>=-ok, guard-ok,
}
use recompute_or_migrate.Simulator.Requests.{
  Request, log_event, init, wait_decode, finish_prefill, finish_decode, should_finish,
}
use recompute_or_migrate.Simulator.Requests.Identity.{
  id-init, id-finish_decode, id-finish_prefill, counter-finish_prefill,
}
use recompute_or_migrate.Simulator.Workers.{Worker, wakeup}
use recompute_or_migrate.Simulator.Systems.Places.{copies, copies-append}
use recompute_or_migrate.Simulator.Systems.Loads.{find_best_worker-IsLeast}
use recompute_or_migrate.Simulator.Systems.Soundness.{
  in_pass, worker_copies, IsWiredWorker, IsWired, Sound, worker_at_total, respell, recount,
  modify-Sound, leave-Sound,
}
use recompute_or_migrate.Simulator.Systems.{
  System, Side, prefill, decode, extend, send, find_best_worker, schedule_prefill, queue_decode,
  schedule_decode, schedule_new_req, arrive, forward, next_wid, to_scheduler, route, pass_on,
}

module _ {Number : Type 0} where
  extend-IsWiredWorker :
      (n : ℕ) (side : Side) (items : List (Request Number)) (w : Worker Number)
      → IsWiredWorker n w
      → IsWiredWorker n (wakeup (extend side items w))
  unfolding extend wakeup
  extend-IsWiredWorker n prefill items w h = record {
    next = h.next;
    next_is = ground (arith, h.next_is);
    below = h.below;
    reaches = ground (arith, h.reaches);
    times_prefill = ground (arith, h.times_prefill);
    times_decode = ground (arith, h.times_decode);
  }
  extend-IsWiredWorker n decode items w h = record {
    next = h.next;
    next_is = ground (arith, h.next_is);
    below = h.below;
    reaches = ground (arith, h.reaches);
    times_prefill = ground (arith, h.times_prefill);
    times_decode = ground (arith, h.times_decode);
  }

  worker_copies-wakeup :
      (a : ℕ) (w : Worker Number) → worker_copies a (wakeup w) ≡ worker_copies a w
  unfolding wakeup worker_copies in_pass
  worker_copies-wakeup a w = ground arith

  worker_copies-extend :
      (a : ℕ) (side : Side) (items : List (Request Number)) (w : Worker Number)
      → worker_copies a (extend side items w) ≡ worker_copies a w + copies a items
  unfolding extend worker_copies
  worker_copies-extend a prefill items w = omega (arith, copies-append a w.prefill_queue items)
  worker_copies-extend a decode items w = omega (arith, copies-append a w.decode_queue items)

  pub send-Sound :
      {n : ℕ} (side : Side) (i : ℕ) (items : List (Request Number)) (s : System Number)
      → IsWired n s
      → i < n
      → Sound n s (λ a. copies a items) (send side i items s)
  unfolding send
  send-Sound {n} side i items s h b =
      modify-Sound i _ _ s h b (extend-IsWiredWorker n side items)
        (λ a w. worker_copies-wakeup a (extend side items w) ∙ worker_copies-extend a side items w)

  pub forward-Sound :
      {n : ℕ} (side : Side) (w : Worker Number) (items : List (Request Number)) (s : System Number)
      → IsWired n s
      → IsWiredWorker n w
      → Sound n s (λ a. copies a items) (forward side w items s)
  unfolding forward
  forward-Sound side w items s h hw =
      respell
        (ap (λ (o : Option ℕ). or_raise o attribute_error >>= (λ j. send side j items s))
          hw.next_is)
        (send-Sound side hw.next items s h hw.below)

  pub next_wid_total :
      {n : ℕ} (w : Worker Number) (s : System Number)
      → IsWired n s
      → IsWiredWorker n w
      → (wid : Option ℤ) × (next_wid w s ≡ ok wid)
  unfolding next_wid
  next_wid_total {n} w s h hw =
      let (v, e, at, hv) = worker_at_total n hw.next s h hw.below in
      (some (pos v.wid), rw (hw.next_is, at) refl)

  -- The choice among heads of which there is one.
  best_total :
      (n : ℕ) (side : Side) (heads : List ℕ) (s : System Number)
      → IsWired n s
      → All (λ h. h < n) heads
      → 0 < length heads
      → (place : ℕ) × (find_best_worker side heads s ≡ ok place) × (place < n)
  best_total n side [] s h below some_head = absurd (omega (arith, some_head))
  best_total n side (head ∷ heads) s h below some_head =
      let (place, ls, e, b, k, loads, least) =
        find_best_worker-IsLeast side head heads s
          (subst (λ (m : ℕ). All (λ k. k < m) (head ∷ heads)) (sym h.sized) below) in
      (place, e, omega (arith, b, h.sized))

  same_copies :
      (a : ℕ) (q r : Request Number) → q.req_id ≡ r.req_id → copies a (q ∷ []) ≡ copies a (r ∷ [])
  unfolding copies
  same_copies a q r e = rw e refl

  pub queue_decode-Sound :
      {n : ℕ} (now : Number) (r : Request Number) (s : System Number)
      → IsWired n s
      → Sound n s (λ a. copies a (r ∷ [])) (queue_decode now r s)
  unfolding queue_decode wait_decode log_event
  queue_decode-Sound {n} now r s h =
      let (place, e, b) = best_total n decode s.decode_heads s h h.decodes h.some_decode in
      let (w, g, at, hw) = worker_at_total n place s h b in
      recount
        (respell (>>=-ok _ e ∙ >>=-ok _ at)
          (send-Sound decode place (wait_decode now (some (pos w.wid)) r ∷ []) s h b))
        (λ a. same_copies a _ r (ground arith))

  schedule_prefill-Sound :
      {n : ℕ} (r : Request Number) (s : System Number)
      → IsWired n s
      → ltb_ℤ r.counter (pos 0) ≡ true
      → Sound n s (λ a. copies a (r ∷ [])) (schedule_prefill r s)
  unfolding schedule_prefill
  schedule_prefill-Sound {n} r s h c =
      let (place, e, b) = best_total n prefill s.prefill_heads s h h.prefills h.some_prefill in
      respell (guard-ok (ltb_ℤ r.counter (pos 0)) assertion_error _ c ∙ >>=-ok _ e)
        (send-Sound prefill place (r ∷ []) s h b)

  pub schedule_decode-Sound :
      {n : ℕ} (now : Number) (r : Request Number) (s : System Number)
      → IsWired n s
      → leb_ℤ (pos 0) r.counter ≡ true
      → Sound n s (λ a. copies a (r ∷ [])) (schedule_decode now r s)
  unfolding schedule_decode
  schedule_decode-Sound {n} now r s h c =
      respell (guard-ok (leb_ℤ (pos 0) r.counter) assertion_error _ c)
        (elim (Bool-cases (should_finish r)) [
          | inl t ↦ respell (if_true _ _ _ t) (
              recount (leave-Sound (finish_decode now false none r ∷ []) s h)
                (λ a. same_copies a _ r (id-finish_decode now false none r)))
          | inr t ↦ respell (if_false _ _ _ t) (queue_decode-Sound now r s h)
        ])

  -- A new request is scheduled for its prefill, or for its decoding if its counter says so.
  pub arrive-Sound :
      {n : ℕ} (now : Number) (r : Request Number) (s : System Number)
      → IsWired n s
      → Sound n s (λ a. copies a (r ∷ [])) (arrive now r s)
  unfolding arrive schedule_new_req
  arrive-Sound {n} now r s h =
      recount
        (elim (Bool-cases (ltb_ℤ (init now r).counter (pos 0))) [
          | inl t ↦ respell (if_true _ _ _ t) (schedule_prefill-Sound (init now r) s h t)
          | inr t ↦
              respell (if_false _ _ _ t)
                (schedule_decode-Sound now (init now r) s h (ground (arith, t)))
        ])
        (λ a. same_copies a _ r (id-init now r))

  route-Sound :
      {n : ℕ} (now : Number) (w : Worker Number) (r : Request Number) (s : System Number)
      → IsWired n s
      → IsWiredWorker n w
      → r.counter ≡ pos 0
      → Sound n s (λ a. copies a (r ∷ [])) (route now w r s)
  unfolding route to_scheduler
  route-Sound {n} now w r s h hw z = elim (Bool-cases (should_finish r)) [
    | inl t ↦ respell (if_true _ _ _ t) (leave-Sound (r ∷ []) s h)
    | inr t ↦ respell (if_false _ _ _ t) (elim (Bool-cases w.should_request_stay) [
      | inl u ↦ respell (if_false _ _ _ (ap not u)) (forward-Sound decode w (r ∷ []) s h hw)
      | inr u ↦
          let set_scheduler : w.has_global_scheduler ≡ true =
            sym (ap (λ (b : Bool). b || w.has_global_scheduler) u) ∙ hw.reaches in
          respell
            (if_true _ _ _ (ap not u)
              ∙ guard-ok w.has_global_scheduler attribute_error _ set_scheduler)
            (schedule_decode-Sound now r s h (rw z refl))
    ])
  ]

  last_counter :
      (now : Number) (wid : Option ℤ) (is_last : Bool) (r : Request Number)
      → (not is_last || ltb 0 (finish_prefill now is_last wid r).remain_prefill_lens) ≡ false
      → (finish_prefill now is_last wid r).counter ≡ pos 0
  last_counter now wid true r h = counter-finish_prefill now wid r h
  last_counter now wid false r h = cc

  -- After its pass a request goes to the next worker, to the scheduler, or leaves.
  pub pass_on-Sound :
      {n : ℕ} (now : Number) (w : Worker Number) (wid : Option ℤ) (r : Request Number)
      (s : System Number)
      → IsWired n s
      → IsWiredWorker n w
      → Sound n s
          (λ a. copies a (r ∷ []))
          (pass_on now w (finish_prefill now w.is_last_in_pipeline wid r) s)
  unfolding pass_on
  pass_on-Sound {n} now w wid r s h hw =
      let q : Request Number = finish_prefill now w.is_last_in_pipeline wid r in
      recount
        (elim (Bool-cases (
          not w.is_last_in_pipeline
          || ltb 0 (finish_prefill now w.is_last_in_pipeline wid r).remain_prefill_lens)) [
            | inl t ↦ respell (if_true _ _ _ t) (forward-Sound prefill w _ s h hw)
            | inr t ↦
                respell (if_false _ _ _ t)
                  (route-Sound now w _ s h hw (last_counter now wid w.is_last_in_pipeline r t))
          ])
        (λ a. same_copies a _ r (id-finish_prefill now w.is_last_in_pipeline wid r))
