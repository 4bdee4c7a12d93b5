-- ===== src/Simulator/Workers/Chunks.antt =====
-- simdistserve/base/worker.py: what a worker takes that is not the first of its pipeline.
use recompute_or_migrate.Base.{
  ℕ, zero, suc, ◌≤◌, min, ◌≡◌, refl, ap, ◌∙◌, inl, inr, true, false, Option, some, List, [], ◌∷◌,
  ◌++◌, map, arith, Bool-cases, if_false, length, All, pos, ok, >>=-ok,
}
use recompute_or_migrate.Simulator.Requests.{Request, do_prefill}
use recompute_or_migrate.Simulator.Workers.{
  Worker, is_first_in_pipeline, same_chunk, take_chunk, head_chunk, select_prefill, enter_prefill,
}

module _ {Number : Type 0} where
  -- A cut of a queue in which nothing is changed, whose batch is of one chunk.
  pub record IsChunk (rounds : ℕ) (chunk_id : Option ℕ) (queue batch rest : List (Request Number))
      : Type 0 where
    pub whole : batch ++ rest ≡ queue
    pub few : length batch ≤ rounds
    pub alike : All (λ r. same_chunk r.chunk_id chunk_id ≡ true) batch

  take_chunk-step :
      (rounds : ℕ) (chunk_id : Option ℕ) (r : Request Number)
      (queue batch rest : List (Request Number))
      → same_chunk r.chunk_id chunk_id ≡ true
      → take_chunk rounds chunk_id queue ≡ ok (batch, rest)
      → take_chunk (suc rounds) chunk_id (r ∷ queue) ≡ ok (r ∷ batch, rest)
  unfolding take_chunk
  take_chunk-step rounds chunk_id r queue batch rest t e = rw (t, e) refl

  take_chunk-IsChunk :
      (rounds : ℕ) (chunk_id : Option ℕ) (queue : List (Request Number))
      → rounds ≤ length queue
      → (batch : List (Request Number)) × (rest : List (Request Number)) × (take_chunk rounds
            chunk_id queue
          ≡ ok (batch, rest))
        × IsChunk rounds chunk_id queue batch rest
  unfolding take_chunk
  take_chunk-IsChunk zero chunk_id queue h =
      ([], queue, refl, record { whole = refl; few = omega arith; alike = tt })
  take_chunk-IsChunk (suc rounds) chunk_id [] h = absurd (omega (arith, h))
  take_chunk-IsChunk (suc rounds) chunk_id (r ∷ queue) h =
      elim (Bool-cases (same_chunk r.chunk_id chunk_id)) [
        | inl t ↦
            let (batch, rest, e, chunk) =
              take_chunk-IsChunk rounds chunk_id queue (omega (arith, h)) in
            (
              r ∷ batch,
              rest,
              take_chunk-step rounds chunk_id r queue batch rest t e,
              record {
                whole = ap (λ (q : List (Request Number)). r ∷ q) chunk.whole;
                few = omega (arith, chunk.few);
                alike = (t, chunk.alike);
              },
            )
        | inr t ↦ ([], r ∷ queue, rw t refl, record { whole = refl; few = omega arith; alike = tt })
      ]

  head_chunk_lem :
      (queue : List (Request Number)) (r : Request Number) (rest : List (Request Number))
      → queue ≡ r ∷ rest
      → head_chunk queue ≡ ok r.chunk_id
  unfolding head_chunk
  head_chunk_lem queue r rest e = rw e refl

  -- A worker that is not the first takes the requests at the front of its queue that are of the
  -- chunk of the first of them, and no more than its limit; it raises nothing if there is a request.
  -- The queue is those requests and the rest, and the requests but log that they are processed.
  pub enter_prefill-IsChunk :
      (now : Number) (fresh : ℕ) (w : Worker Number) (r : Request Number)
      (queue : List (Request Number))
      → is_first_in_pipeline w ≡ false
      → w.prefill_queue ≡ r ∷ queue
      → (batch : List (Request Number)) × (rest : List (Request Number)) × (enter_prefill now fresh
            w
          ≡ ok (map (do_prefill now (some (pos w.wid))) batch, record w { prefill_queue = rest }))
        × IsChunk w.prefill_max_batch_size r.chunk_id w.prefill_queue batch rest
  unfolding enter_prefill select_prefill
  enter_prefill-IsChunk now fresh w r queue t q =
      let (batch, rest, e, chunk) =
        take_chunk-IsChunk (min w.prefill_max_batch_size (length w.prefill_queue)) r.chunk_id
          w.prefill_queue (omega arith) in
      (
        batch,
        rest,
        >>=-ok _ (if_false _ _ _ t ∙ >>=-ok _ (head_chunk_lem w.prefill_queue r queue q) ∙ e),
        record { whole = chunk.whole; few = omega (arith, chunk.few); alike = chunk.alike },
      )
