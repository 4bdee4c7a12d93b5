-- ===== src/Request/Migrating.antt =====
-- distserve/request.py and distserve/utils.py: how a request is made, and the element of the bridge
-- queue between the two stages.
use Prim.Native.String.{String}
use recompute_or_migrate.Base.{
  ◌⊎◌, inl, inr, ℕ, ◌+◌, ◌≡◌, refl, true, ◌||◌, Option, none, some, List, is_some, ℤ, pos,
  assertion_error, Result, ok, err, ◌>>=◌,
}
use recompute_or_migrate.Config.{ParallelConfig}
use recompute_or_migrate.Request.Sampling.{SamplingParams}
use recompute_or_migrate.Request.{Request, init}

pub record MigratingRequest : Type 0 where
  pub req : Request
  pub block_indexes : List ℕ
  pub context_parallel_config : ParallelConfig

-- `next(counter)`: the number, and the counter after it.
unfoldable pub next_id : ℕ → ℕ × ℕ
next_id counter = (counter, counter + 1)

-- The id that the caller gives is taken as it is, and the counter stays.
unfoldable pub choose_id : Option ℕ → ℕ → ℕ × ℕ
unfolding next_id
choose_id none counter = next_id counter
choose_id (some k) counter = (k, counter)

-- What the program asks of the tokenizer, which is a third-party library.
pub record Tokenizer : Type 0 where
  pub encode : String → List ℕ
  pub decode : List ℕ → String

-- The token ids first, then the text: of a request with neither, the first assertion fails.
unfoldable pub choose_prompt :
    Tokenizer → Option String → Option (List ℕ) → Result (String × List ℕ)
choose_prompt t none none = err assertion_error
choose_prompt t (some prompt) none = ok (prompt, t.encode prompt)
choose_prompt t none (some ids) = ok (t.decode ids, ids)
choose_prompt t (some prompt) (some ids) = ok (prompt, ids)

abbrev pub given_or : Option ℤ → ℤ → ℤ
given_or none now = now
given_or (some t) now = t

-- `now` is the clock, read where no arrival time is given. The result is the request and the
-- counter after it.
unfoldable pub create_request :
    Tokenizer
    → Option String
    → Option (List ℕ)
    → SamplingParams
    → (counter : ℕ) → (arrival_time : Option ℤ) → (request_id : Option ℕ) → (now : ℤ)
    → Result (Request × ℕ)
unfolding choose_id choose_prompt
create_request t prompt ids params counter arrival_time request_id now = do
  let (k, counter') = choose_id request_id counter
  (text, tokens) ← choose_prompt t prompt ids
  ok (init (given_or arrival_time now) k text tokens params (pos 0), counter')

-- From a prompt, from its token ids or from both a request is made, with the next number for an id that is
-- not given. The text and the ids that were given are kept, and the request arrives now.
pub create_request_lem :
    (t : Tokenizer) (prompt : Option String) (ids : Option (List ℕ)) (params : SamplingParams)
    (counter : ℕ) (now : ℤ)
    → is_some prompt || is_some ids ≡ true
    → (r : Request) × (create_request t prompt ids params counter none none now
        ≡ ok (r, counter + 1))
      × (r.request_id ≡ counter)
      × ((prompt ≡ none) ⊎ (prompt ≡ some r.prompt))
      × ((ids ≡ none) ⊎ (ids ≡ some r.prompt_token_ids))
      × (r.arrival_time ≡ now)
unfolding create_request init
create_request_lem t none none params counter now h = cc
create_request_lem t (some p) none params counter now h = (_, refl, refl, inr refl, inl refl, refl)
create_request_lem t none (some i) params counter now h = (_, refl, refl, inl refl, inr refl, refl)
create_request_lem t (some p) (some i) params counter now h =
    (_, refl, refl, inr refl, inr refl, refl)
