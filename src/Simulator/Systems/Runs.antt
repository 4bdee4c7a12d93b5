-- ===== src/Simulator/Systems/Runs.antt =====
-- simdistserve/base: any interleaving of arrivals and turns.
use recompute_or_migrate.Base.{ℕ, ◌<◌, List, [], ◌∷◌, arith, All, Result, ok, ◌>>=◌}
use recompute_or_migrate.Simulator.Requests.{Request}
use recompute_or_migrate.Simulator.Systems.Places.{copies}
use recompute_or_migrate.Simulator.Systems.Soundness.{IsWired, Sound, ok-Sound, >>=-Sound, recount}
use recompute_or_migrate.Simulator.Systems.Sending.{arrive-Sound}
use recompute_or_migrate.Simulator.Systems.Turns.{turn-Sound}
use recompute_or_migrate.Simulator.Systems.{System, arrive, turn}

-- What happens next in a simulation: a request arrives, or the process of a worker has a turn, at a
-- time, with the identifier that a chunk of it would have.
pub data Action (Number : Type 0) : Type 0 where
  arrives : Number → Request Number → Action Number
  turns : Number → ℕ → ℕ → Action Number

module _ {Number : Type 0} where
  unfoldable pub act : (ℕ → Number → ℕ) → Action Number → System Number → Result (System Number)
  unfolding arrive turn
  act int_mul (arrives now r) s = arrive now r s
  act int_mul (turns now fresh i) s = turn int_mul now fresh i s

  unfoldable pub run :
      (ℕ → Number → ℕ) → List (Action Number) → System Number → Result (System Number)
  unfolding act
  run int_mul [] s = ok s
  run int_mul (action ∷ actions) s = do s' ← act int_mul action s; run int_mul actions s'

  abbrev pub arrivals : List (Action Number) → List (Request Number)
  arrivals [] = []
  arrivals (arrives now r ∷ actions) = r ∷ arrivals actions
  arrivals (turns now fresh i ∷ actions) = arrivals actions

  -- A turn is that of one of `n` workers.
  abbrev pub InRange : ℕ → Action Number → Type 0
  InRange n (arrives now r) = Unit
  InRange n (turns now fresh i) = i < n

  pub run-Sound :
      {n : ℕ} (int_mul : ℕ → Number → ℕ) (actions : List (Action Number)) (s : System Number)
      → IsWired n s
      → All (InRange n) actions
      → Sound n s (λ a. copies a (arrivals actions)) (run int_mul actions s)
  unfolding run act copies
  run-Sound {n} int_mul [] s h inside = ok-Sound n s h
  run-Sound {n} int_mul (arrives now r ∷ actions) s h inside =
      recount
        (>>=-Sound (run int_mul actions) (arrive-Sound now r s h)
          (λ t ht. run-Sound int_mul actions t ht inside.1))
        (λ a. omega arith)
  run-Sound {n} int_mul (turns now fresh i ∷ actions) s h inside =
      recount
        (>>=-Sound (run int_mul actions) (turn-Sound int_mul now fresh i s h inside.0)
          (λ t ht. run-Sound int_mul actions t ht inside.1))
        (λ a. omega arith)
