-- ===== src/Simulator/Workers/Prefill.antt =====
-- simdistserve/base/worker.py: what a prefill batch holds.
use recompute_or_migrate.Base.{
  ℕ, zero, suc, ◌+◌, ◌-◌, ◌*◌, ◌≤◌, ◌<◌, min, ◌≡◌, refl, ap, ◌∙◌, inl, inr, Bool, true, false,
  Option, some, List, [], ◌∷◌, ◌++◌, map, arith, leb, le→leb, Bool-cases, if_true, length, sum_of,
  ℤ, pos, ok, >>=-ok,
}
use recompute_or_migrate.Simulator.Requests.{Request, do_prefill, log_event}
use recompute_or_migrate.Simulator.Workers.{
  Worker, is_first_in_pipeline, sched_size, is_refused, picked, fill_chunk, select_prefill,
  enter_prefill,
}

module _ {Number : Type 0} where
  -- A request and the length that is still to be processed: before a pass, and in a batch, where a
  -- part of it is being processed.
  abbrev pub unscheduled : Request Number → ℕ × ℕ
  unscheduled r = (r.req_id, r.remain_prefill_lens)

  abbrev pub unprocessed : Request Number → ℕ × ℕ
  unprocessed r = (r.req_id, r.current_prefill_lens + r.remain_prefill_lens)

  -- The tokens of the requests in a batch that are being processed.
  abbrev pub tokens_in : List (Request Number) → ℕ
  tokens_in rs = sum_of (λ r. r.current_prefill_lens) rs

  -- A cut of a queue into a batch and the rest.
  pub record IsCut (rounds budget : ℕ) (queue batch rest : List (Request Number)) : Type 0 where
    pub same : map unprocessed batch ++ map unscheduled rest ≡ map unscheduled queue
    pub few : length batch ≤ rounds
    pub small : tokens_in batch ≤ budget

  fits :
      (chunked : Bool) (budget s : ℕ) (r : Request Number)
      → is_refused chunked budget (sched_size chunked budget s r) ≡ false
      → (sched_size chunked budget s r ≤ budget)
        × (sched_size chunked budget s r ≤ r.remain_prefill_lens)
  unfolding is_refused sched_size
  fits true budget s r h = omega arith
  fits false budget s r h = ground arith

  fill_chunk-step :
      (chunked : Bool) (rounds budget s size fresh : ℕ) (r : Request Number)
      (queue batch rest : List (Request Number))
      → sched_size chunked budget s r ≡ size
      → is_refused chunked budget size ≡ false
      → leb size r.remain_prefill_lens ≡ true
      → fill_chunk chunked rounds (budget - size) (s + size) fresh queue ≡ ok (batch, rest)
      → fill_chunk chunked (suc rounds) budget s fresh (r ∷ queue)
        ≡ ok (picked size fresh r ∷ batch, rest)
  unfolding fill_chunk
  fill_chunk-step chunked rounds budget s size fresh r queue batch rest z t p e =
      rw (z, t, p, e) refl

  picked-IsCut :
      (rounds budget size fresh : ℕ) (r : Request Number) (queue batch rest : List (Request Number))
      → size ≤ budget
      → size ≤ r.remain_prefill_lens
      → IsCut rounds (budget - size) queue batch rest
      → IsCut (suc rounds) budget (r ∷ queue) (picked size fresh r ∷ batch) rest
  unfolding picked
  picked-IsCut rounds budget size fresh r queue batch rest h p cut = record {
    same =
        let e : size + (r.remain_prefill_lens - size) ≡ r.remain_prefill_lens = omega arith in
        rw (e, cut.same) refl;
    few = omega (arith, cut.few);
    small = omega (arith, cut.small);
  }

  -- `fill_chunk` raises nothing as long as its rounds are no more than the requests, and cuts.
  fill_chunk-IsCut :
      (chunked : Bool) (rounds budget s fresh : ℕ) (queue : List (Request Number))
      → rounds ≤ length queue
      → (batch : List (Request Number)) × (rest : List (Request Number)) × (fill_chunk chunked
            rounds budget s fresh queue
          ≡ ok (batch, rest))
        × IsCut rounds budget queue batch rest
  unfolding fill_chunk
  fill_chunk-IsCut chunked zero budget s fresh queue h =
      ([], queue, refl, record { same = refl; few = omega arith; small = omega arith })
  fill_chunk-IsCut chunked (suc rounds) budget s fresh [] h = absurd (omega (arith, h))
  fill_chunk-IsCut chunked (suc rounds) budget s fresh (r ∷ queue) h =
      elim (Bool-cases (is_refused chunked budget (sched_size chunked budget s r))) [
        | inl t ↦ (
          [],
          r ∷ queue,
          if_true _ _ _ t,
          record { same = refl; few = omega arith; small = omega arith },
        )
        | inr t ↦
            let (within, part) = fits chunked budget s r t in
            let size : ℕ = sched_size chunked budget s r in
            let (batch, rest, e, cut) =
              fill_chunk-IsCut chunked rounds (budget - sched_size chunked budget s r)
                (s + sched_size chunked budget s r) fresh queue (omega (arith, h)) in
            (
              picked (sched_size chunked budget s r) fresh r ∷ batch,
              rest,
              fill_chunk-step chunked rounds budget s _ fresh r queue batch rest refl t
                  (le→leb _ _ part) e,
              picked-IsCut rounds budget _ fresh r queue batch rest within part cut,
            )
      ]

  unprocessed-do_prefill :
      (now : Number) (wid : Option ℤ) (batch : List (Request Number))
      → map unprocessed (map (do_prefill now wid) batch) ≡ map unprocessed batch
  unfolding do_prefill log_event
  unprocessed-do_prefill now wid [] = refl
  unprocessed-do_prefill now wid (r ∷ batch) =
      rw (unprocessed-do_prefill now wid batch) (ground arith)

  tokens_in-do_prefill :
      (now : Number) (wid : Option ℤ) (batch : List (Request Number))
      → tokens_in (map (do_prefill now wid) batch) ≡ tokens_in batch
  unfolding do_prefill log_event
  tokens_in-do_prefill now wid [] = refl
  tokens_in-do_prefill now wid (r ∷ batch) = ground (arith, tokens_in-do_prefill now wid batch)

  length-map :
      (f : Request Number → Request Number) (batch : List (Request Number))
      → length (map f batch) ≡ length batch
  length-map f [] = refl
  length-map f (r ∷ batch) = ap suc (length-map f batch)

  do_prefill-IsCut :
      (now : Number) (wid : Option ℤ) (rounds budget : ℕ) (queue batch rest : List (Request Number))
      → IsCut rounds budget queue batch rest
      → IsCut rounds budget queue (map (do_prefill now wid) batch) rest
  do_prefill-IsCut now wid rounds budget queue batch rest cut = record {
    same = rw (unprocessed-do_prefill now wid batch) cut.same;
    few = omega (arith, length-map (do_prefill now wid) batch, cut.few);
    small = omega (arith, tokens_in-do_prefill now wid batch, cut.small);
  }

  pub select_first :
      (fresh : ℕ) (w : Worker Number)
      → is_first_in_pipeline w ≡ true
      → select_prefill fresh w
        ≡ fill_chunk w.enable_chunked_prefill
            (min w.prefill_max_batch_size (length w.prefill_queue))
            w.prefill_max_tokens
            0
            fresh
            w.prefill_queue
  unfolding select_prefill
  select_first fresh w t = if_true _ _ _ t

  -- Once as many tokens are in the chunk as are left, the chunk is closed.
  fill_closed :
      (rounds budget s fresh : ℕ) (queue : List (Request Number))
      → rounds ≤ length queue
      → budget ≤ s
      → fill_chunk true rounds budget s fresh queue ≡ ok ([], queue)
  unfolding fill_chunk sched_size is_refused
  fill_closed zero budget s fresh queue h full = refl
  fill_closed (suc rounds) budget s fresh [] h full = absurd (omega (arith, h))
  fill_closed (suc rounds) budget s fresh (r ∷ queue) h full =
      let e : leb (min r.remain_prefill_lens (budget - s)) 0 ≡ true = ground arith in
      if_true _ _ _ e

  fill_alone :
      (rounds budget fresh : ℕ) (r : Request Number) (queue : List (Request Number))
      → 0 < rounds
      → rounds ≤ length (r ∷ queue)
      → 0 < r.remain_prefill_lens
      → r.remain_prefill_lens ≤ budget
      → budget ≤ 2 * r.remain_prefill_lens
      → fill_chunk true rounds budget 0 fresh (r ∷ queue)
        ≡ ok (picked r.remain_prefill_lens fresh r ∷ [], queue)
  unfolding sched_size is_refused
  fill_alone zero budget fresh r queue some_rounds h p small large =
      absurd (omega (arith, some_rounds))
  fill_alone (suc rounds) budget fresh r queue some_rounds h p small large =
      fill_chunk-step true rounds budget 0 r.remain_prefill_lens fresh r queue [] queue
        (omega arith) (ground (arith, p)) (le→leb _ _ (omega arith))
        (fill_closed rounds _ _ fresh queue (omega (arith, h)) (omega (arith, large)))

  -- The first worker of a pipeline cuts a batch off the front of its queue and raises nothing: its
  -- loop reads no empty queue, and its assertion holds. The batch has no more requests than the
  -- limit, and processes no more tokens than `prefill_max_tokens`. The order of the requests stays,
  -- and of each the tokens that are processed and those that are left are the tokens that were left
  -- before. The rest of the worker stays.
  pub enter_prefill-IsCut :
      (now : Number) (fresh : ℕ) (w : Worker Number)
      → is_first_in_pipeline w ≡ true
      → (batch : List (Request Number)) × (rest : List (Request Number)) × (enter_prefill now fresh
            w
          ≡ ok (batch, record w { prefill_queue = rest }))
        × IsCut w.prefill_max_batch_size w.prefill_max_tokens w.prefill_queue batch rest
  unfolding enter_prefill
  enter_prefill-IsCut now fresh w t =
      let (batch, rest, e, cut) =
        fill_chunk-IsCut w.enable_chunked_prefill
          (min w.prefill_max_batch_size (length w.prefill_queue)) w.prefill_max_tokens 0 fresh
          w.prefill_queue (omega arith) in
      (
        map (do_prefill now (some (pos w.wid))) batch,
        rest,
        >>=-ok _ (select_first fresh w t ∙ e),
        do_prefill-IsCut now _ _ _ _ batch rest
            (record { same = cut.same; few = omega (arith, cut.few); small = cut.small }),
      )

  -- The budget of a chunk is cut twice by each request in it, by the count of tokens that are left and
  -- by the size of the chunk: after a request of at least half of `prefill_max_tokens` the chunk takes
  -- no other, however much room there is.
  pub enter_prefill_alone :
      (now : Number) (fresh : ℕ) (w : Worker Number) (r : Request Number)
      (queue : List (Request Number))
      → is_first_in_pipeline w ≡ true
      → w.enable_chunked_prefill ≡ true
      → w.prefill_queue ≡ r ∷ queue
      → 0 < w.prefill_max_batch_size
      → 0 < r.remain_prefill_lens
      → r.remain_prefill_lens ≤ w.prefill_max_tokens
      → w.prefill_max_tokens ≤ 2 * r.remain_prefill_lens
      → enter_prefill now fresh w
        ≡ ok (
          do_prefill now (some (pos w.wid)) (picked r.remain_prefill_lens fresh r) ∷ [],
          record w { prefill_queue = queue },
        )
  unfolding enter_prefill
  enter_prefill_alone now fresh w r queue t c q b p small large =
      let filled =
        fill_alone (min w.prefill_max_batch_size (length (r ∷ queue))) w.prefill_max_tokens fresh r
          queue (omega (arith, b)) (omega arith) p small large in
      let e : select_prefill fresh w ≡ ok (picked r.remain_prefill_lens fresh r ∷ [], queue) =
        select_first fresh w t ∙ simp (c, q) filled in
      >>=-ok _ e
