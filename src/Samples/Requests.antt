-- ===== src/Samples/Requests.antt =====
-- The theorems on requests and batches at small inputs.
use recompute_or_migrate.Base.{false, ◌>>=◌, All, ◌≡◌, refl, true, none, [], ◌∷◌, arith, pos, ok}
use recompute_or_migrate.Request.Batch.{start_one_iteration, finish_one_iteration}
use recompute_or_migrate.Request.Batch.Iteration.{all_stepped, iteration_lem}
use recompute_or_migrate.Request.Sampling.{SamplingParams, verify_args, verify_mode}
use recompute_or_migrate.Request.Sampling
use recompute_or_migrate.Request.{add_generated_token, contains}
use recompute_or_migrate.Request.Tokens.{IsServed, add_generated_token_lem}
use recompute_or_migrate.Samples.{pair, params, short, long}

init_accepts : Sampling.init params none ≡ ok params
unfolding Sampling.init Sampling.verify verify_args verify_mode
init_accepts = refl

short-IsServed : IsServed short
short-IsServed = record { aligned = refl; within = omega arith; unfinished = λ _. omega arith }

long-IsServed : IsServed long
long-IsServed = record { aligned = refl; within = omega arith; unfinished = λ _. omega arith }

add_generated_token_lem_example :
    add_generated_token short "." 3
    ≡ ok (record short {
      generated_tokens = "." ∷ [];
      generated_token_ids = 3 ∷ [];
      is_finished = true;
    })
unfolding contains
add_generated_token_lem_example = add_generated_token_lem short "." 3

iteration_lem_example :
    ((start_one_iteration pair (pos 10) >>= λ started.
    finish_one_iteration started ("a" ∷ "." ∷ []) (3 ∷ 4 ∷ []) (pos 12))
      ≡ ok (record {
        requests = all_stepped (short ∷ long ∷ []) ("a" ∷ "." ∷ []) (3 ∷ 4 ∷ []) (pos 10) (pos 12);
        start_time = none;
        is_running = false;
      }))
    × All IsServed (all_stepped (short ∷ long ∷ []) ("a" ∷ "." ∷ []) (3 ∷ 4 ∷ []) (pos 10) (pos 12))
iteration_lem_example =
    iteration_lem pair ("a" ∷ "." ∷ []) (3 ∷ 4 ∷ []) (pos 10) (pos 12) refl
      ((short-IsServed, refl), ((long-IsServed, refl), tt))
