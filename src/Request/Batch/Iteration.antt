-- ===== src/Request/Batch/Iteration.antt =====
-- distserve/request.py: one iteration of a batch, from its start to its end.
use Prim.Native.String.{String}
use recompute_or_migrate.Base.{
  ℕ, ◌≡◌, refl, false, none, List, [], ◌∷◌, arith, All, ℤ, ◌+ℤ◌, ◌-ℤ◌, ok, ◌>>=◌,
}
use recompute_or_migrate.Request.{Request}
use recompute_or_migrate.Request.Tokens.{IsServed, with_token, add_generated_token-IsServed}
use recompute_or_migrate.Request.Batch.{
  BatchedRequests, finish_request, finish_requests, start_one_iteration, finish_one_iteration,
}

abbrev pub IsOpen : Request → Type 0
IsOpen r = IsServed r × (r.is_finished ≡ false)

-- What the iteration makes of one request.
abbrev pub stepped : Request → String → ℕ → ℤ → ℤ → Request
stepped r token token_id start_time end_time =
    with_token
      (record r {
        last_step_time = end_time;
        process_time = r.process_time +ℤ (end_time -ℤ start_time);
      })
      token token_id

-- The batch after the iteration, request by request.
abbrev pub all_stepped : List Request → List String → List ℕ → ℤ → ℤ → List Request
all_stepped (r ∷ rs) (token ∷ tokens) (i ∷ ids) s e =
    stepped r token i s e ∷ all_stepped rs tokens ids s e
all_stepped rs _ _ s e = rs

timed-IsServed :
    (r : Request) (s e : ℤ)
    → IsServed r
    → IsServed (record r { last_step_time = e; process_time = r.process_time +ℤ (e -ℤ s) })
timed-IsServed r s e h = record {
  aligned = h.aligned;
  within = h.within;
  unfinished = h.unfinished;
}

finish_request_lem :
    (r : Request) (token : String) (token_id : ℕ) (s e : ℤ)
    → IsOpen r
    → finish_request r token token_id s e ≡ ok (stepped r token token_id s e)
unfolding finish_request
finish_request_lem r token token_id s e h =
    (add_generated_token-IsServed _ token token_id (timed-IsServed r s e h.0) h.1).0

finish_requests_lem :
    (rs : List Request) (tokens : List String) (ids : List ℕ) (s e : ℤ)
    → All IsOpen rs
    → finish_requests rs tokens ids s e ≡ ok (all_stepped rs tokens ids s e)
unfolding finish_requests
finish_requests_lem (r ∷ rs) (token ∷ tokens) (i ∷ ids) s e h =
    rw (finish_request_lem r token i s e h.0, finish_requests_lem rs tokens ids s e h.1)
finish_requests_lem [] _ _ s e h = refl
finish_requests_lem (r ∷ rs) [] _ s e h = refl
finish_requests_lem (r ∷ rs) (token ∷ tokens) [] s e h = refl

All-IsServed : (rs : List Request) → All IsOpen rs → All IsServed rs
All-IsServed [] h = tt
All-IsServed (r ∷ rs) h = (h.0.0, All-IsServed rs h.1)

all_stepped-IsServed :
    (rs : List Request) (tokens : List String) (ids : List ℕ) (s e : ℤ)
    → All IsOpen rs
    → All IsServed (all_stepped rs tokens ids s e)
all_stepped-IsServed (r ∷ rs) (token ∷ tokens) (i ∷ ids) s e h = (
  (add_generated_token-IsServed _ token i (timed-IsServed r s e h.0.0) h.0.1).1,
  all_stepped-IsServed rs tokens ids s e h.1,
)
all_stepped-IsServed [] _ _ s e h = tt
all_stepped-IsServed (r ∷ rs) [] _ s e h = (h.0.0, All-IsServed rs h.1)
all_stepped-IsServed (r ∷ rs) (token ∷ tokens) [] s e h = (h.0.0, All-IsServed rs h.1)

-- An iteration of an idle batch of unfinished requests runs from its start to its end with no
-- exception: the first requests get the tokens in their order, with the time that it took, those
-- past the tokens stay as they are, every request stays within its limit, and the batch is idle
-- again.
pub iteration_lem :
    (b : BatchedRequests) (tokens : List String) (ids : List ℕ) (s e : ℤ)
    → b.start_time ≡ none
    → All IsOpen b.requests
    → ((start_one_iteration b s >>= λ started. finish_one_iteration started tokens ids e)
        ≡ ok (record {
          requests = all_stepped b.requests tokens ids s e;
          start_time = none;
          is_running = false;
        }))
      × All IsServed (all_stepped b.requests tokens ids s e)
unfolding start_one_iteration finish_one_iteration
iteration_lem b tokens ids s e idle h = (
  ground (arith, finish_requests_lem b.requests tokens ids s e h),
  all_stepped-IsServed b.requests tokens ids s e h,
)
