-- ===== src/Simulator/Workers/Decode.antt =====
-- simdistserve/base/worker.py: what a decode batch holds.
use recompute_or_migrate.Base.{
  ℕ, zero, suc, ◌+◌, ◌-◌, ◌≤◌, min, ◌≡◌, refl, ap, inl, inr, false, some, List, [], ◌∷◌, ◌++◌, map,
  arith, ltb, Bool-cases, if_true, length, sum_of, pos, ok, >>=-ok,
}
use recompute_or_migrate.Simulator.Requests.{Request, current_context_len, do_decode}
use recompute_or_migrate.Simulator.Workers.{Worker, take_decodes, enter_decodes}

module _ {Number : Type 0} where
  -- The tokens of a batch with the ones that the pass adds.
  abbrev pub next_tokens : List (Request Number) → ℕ
  next_tokens rs = sum_of (λ r. current_context_len r + 1) rs

  -- A cut of a queue at a number of requests and a number of tokens.
  pub record IsTaken (rounds budget : ℕ) (queue batch rest : List (Request Number)) : Type 0 where
    pub whole : batch ++ rest ≡ queue
    pub few : length batch ≤ rounds
    pub small : next_tokens batch ≤ budget

  take_decodes-step :
      (rounds budget : ℕ) (r : Request Number) (queue batch rest : List (Request Number))
      → ltb budget (current_context_len r + 1) ≡ false
      → take_decodes rounds (budget - (current_context_len r + 1)) queue ≡ ok (batch, rest)
      → take_decodes (suc rounds) budget (r ∷ queue) ≡ ok (r ∷ batch, rest)
  unfolding take_decodes
  take_decodes-step rounds budget r queue batch rest t e = rw (t, e) refl

  take_decodes-IsTaken :
      (rounds budget : ℕ) (queue : List (Request Number))
      → rounds ≤ length queue
      → (batch : List (Request Number)) × (rest : List (Request Number)) × (take_decodes rounds
            budget queue
          ≡ ok (batch, rest))
        × IsTaken rounds budget queue batch rest
  unfolding take_decodes
  take_decodes-IsTaken zero budget queue h =
      ([], queue, refl, record { whole = refl; few = omega arith; small = omega arith })
  take_decodes-IsTaken (suc rounds) budget [] h = absurd (omega (arith, h))
  take_decodes-IsTaken (suc rounds) budget (r ∷ queue) h =
      elim (Bool-cases (ltb budget (current_context_len r + 1))) [
        | inl t ↦ (
          [],
          r ∷ queue,
          if_true _ _ _ t,
          record { whole = refl; few = omega arith; small = omega arith },
        )
        | inr t ↦
            let (batch, rest, e, taken) =
              take_decodes-IsTaken rounds (budget - (current_context_len r + 1)) queue
                (omega (arith, h)) in
            let room : current_context_len r + 1 ≤ budget = ground (arith, t) in
            (
              r ∷ batch,
              rest,
              take_decodes-step rounds budget r queue batch rest t e,
              record {
                whole = ap (λ (q : List (Request Number)). r ∷ q) taken.whole;
                few = omega (arith, taken.few);
                small = omega (arith, taken.small);
              },
            )
      ]

  -- A worker takes a batch for the decoding off the front of its queue, in order, and raises nothing.
  -- The batch has no more requests than the number that is given, which the callers call a number of
  -- tokens, and with their next tokens its contexts stay within 50000 tokens. Nothing else changes but
  -- the logs of those requests.
  pub enter_decodes-IsTaken :
      (now : Number) (remaining : ℕ) (w : Worker Number)
      → (batch : List (Request Number)) × (rest : List (Request Number)) × (enter_decodes now
            remaining w
          ≡ ok (map (do_decode now (some (pos w.wid))) batch, record w { decode_queue = rest }))
        × IsTaken remaining 50000 w.decode_queue batch rest
  unfolding enter_decodes
  enter_decodes-IsTaken now remaining w =
      let (batch, rest, e, taken) =
        take_decodes-IsTaken (min remaining (length w.decode_queue)) 50000 w.decode_queue
          (omega arith) in
      (
        batch,
        rest,
        >>=-ok _ e,
        record { whole = taken.whole; few = omega (arith, taken.few); small = taken.small },
      )
