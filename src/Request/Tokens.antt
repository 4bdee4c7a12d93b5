-- ===== src/Request/Tokens.antt =====
-- distserve/request.py: what a new token does to a request.
use Prim.Native.String.{String}
use recompute_or_migrate.Base.{
  ℕ, suc, ◌≡◌, refl, ◌∙◌, Bool, false, not, ◌&&◌, ◌||◌, List, [], ◌∷◌, ◌++◌, arith, if◌then◌else◌,
  length-append, ℤ, pos, ◌≤ℤ◌, ltb_ℤ, leb_ℤ, value_error, ok, err,
}
use recompute_or_migrate.Request.Sampling.{SamplingParams}
use recompute_or_migrate.Request.{
  Request, init, IsAligned, get_output_len, contains, last_in, add_generated_token,
}

last_in-snoc :
    (token : String) (tokens stop : List String)
    → last_in (tokens ++ token ∷ []) stop ≡ contains token stop
unfolding last_in
last_in-snoc token [] stop = refl
last_in-snoc token (t ∷ []) stop = refl
last_in-snoc token (t ∷ u ∷ ts) stop = last_in-snoc token (u ∷ ts) stop

-- The end of the output: the limit is met, or a stop string is read and not ignored.
abbrev pub ends : Request → String → Bool
ends r token =
    leb_ℤ r.sampling_params.max_tokens (pos (suc (get_output_len r)))
    || (not r.sampling_params.ignore_eos && contains token r.sampling_params.stop)

abbrev pub with_token : Request → String → ℕ → Request
with_token r token token_id = record r {
  generated_tokens = r.generated_tokens ++ token ∷ [];
  generated_token_ids = r.generated_token_ids ++ token_id ∷ [];
  is_finished = r.is_finished || ends r token;
}

-- A request is refused a token exactly when its output is longer than `max_tokens`. Otherwise the
-- token goes to the end of the output, and the request is finished if it was, or if the output
-- ends; nothing else changes.
pub add_generated_token_lem :
    (r : Request) (token : String) (token_id : ℕ)
    → add_generated_token r token token_id ≡ (
        if ltb_ℤ r.sampling_params.max_tokens (pos (get_output_len r))
        then err value_error
        else ok (with_token r token token_id))
unfolding add_generated_token
add_generated_token_lem r token token_id = ground (
  arith,
  last_in-snoc token r.generated_tokens r.sampling_params.stop,
  length-append r.generated_token_ids (token_id ∷ []),
)

-- The output of a request that is being served: within the limit, and below it until the end.
pub record IsServed (r : Request) : Type 0 where
  pub aligned : IsAligned r
  pub within : pos (get_output_len r) ≤ℤ r.sampling_params.max_tokens
  pub unfinished :
      r.is_finished ≡ false → pos (suc (get_output_len r)) ≤ℤ r.sampling_params.max_tokens

pub init-IsServed :
    (arrival : ℤ) (request_id : ℕ) (prompt : String) (ids : List ℕ) (params : SamplingParams)
    (priority : ℤ)
    → pos 1 ≤ℤ params.max_tokens
    → IsServed (init arrival request_id prompt ids params priority)
unfolding init
init-IsServed arrival request_id prompt ids params priority h = record {
  aligned = refl;
  within = ground arith;
  unfinished = λ _. h;
}

with_token-IsServed :
    (r : Request) (token : String) (token_id : ℕ)
    → IsServed r
    → r.is_finished ≡ false
    → IsServed (with_token r token token_id)
with_token-IsServed r token token_id s waits = record {
  aligned = omega (
    arith,
    s.aligned,
    length-append {0} r.generated_tokens (token ∷ []),
    length-append {0} r.generated_token_ids (token_id ∷ []),
  );
  within = ground (arith, s.unfinished waits, length-append r.generated_token_ids (token_id ∷ []));
  unfinished = λ more. ground (arith, length-append r.generated_token_ids (token_id ∷ []));
}

-- While it is unfinished, a request takes every token without an exception: its output grows by
-- one and stays within `max_tokens`, and the request is finished when the limit is met.
pub add_generated_token-IsServed :
    (r : Request) (token : String) (token_id : ℕ)
    → IsServed r
    → r.is_finished ≡ false
    → (add_generated_token r token token_id ≡ ok (with_token r token token_id))
      × IsServed (with_token r token token_id)
      × (get_output_len (with_token r token token_id) ≡ suc (get_output_len r))
add_generated_token-IsServed r token token_id s waits = (
  add_generated_token_lem r token token_id ∙ ground (arith, s.within),
  with_token-IsServed r token token_id s waits,
  omega (arith, length-append {0} r.generated_token_ids (token_id ∷ [])),
)
