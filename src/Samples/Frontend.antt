-- ===== src/Samples/Frontend.antt =====
-- The theorems on the engine around both stages at small inputs.
use Prim.Native.String.{String}
use recompute_or_migrate.Base.{
  ℕ, ◌≡◌, refl, true, false, none, some, List, [], ◌∷◌, if◌then◌else◌, pos, lookup, insert, Result,
  ok, err,
}
use recompute_or_migrate.Request.{Request, init}
use recompute_or_migrate.Request.Migrating.{
  Tokenizer, choose_id, choose_prompt, next_id, create_request,
}
use recompute_or_migrate.Engine.{
  StepOutput, LlmEngine, same_key, len_of, prompt_len_value, open_request, on_new_lifetime_event,
  hand_in, start_generate,
}
use recompute_or_migrate.Engine.Turns.{Turn, delivers, asks, follow, delivered}
use recompute_or_migrate.Engine.Outputs.{InOrder, follow_lem}
use recompute_or_migrate.Engine.Lengths.{start_generate-lens}
use recompute_or_migrate.Samples.{params, short, context}
use recompute_or_migrate.Samples.Decoding.{crowded}

-- The code points are left out: a token is a text of its own.
abbrev one_token : Tokenizer
one_token = record { encode = λ text. 7 ∷ []; decode = λ ids. "hi" }

-- An engine that serves the requests 4 and 6.
abbrev serving : LlmEngine ℕ
serving = record {
  engine_initialized = true;
  request_counter = 5;
  context_scheduler = context;
  decoding_scheduler = crowded;
  request_outputs = (4, []) ∷ (6, []) ∷ [];
  request_lifetime_events = (4, []) ∷ [];
  prompt_len_map = (some 4, 2) ∷ [];
}

abbrev output : String → StepOutput
output text = record { request_id = 4; new_token = text; new_token_id = 7; is_finished = false }

abbrev last_of_other : StepOutput
last_of_other = record { request_id = 6; new_token = "z"; new_token_id = 8; is_finished = true }

abbrev talk : List Turn
talk =
    delivers (output "a")
    ∷ asks
    ∷ delivers last_of_other
    ∷ asks
    ∷ delivers (output "b")
    ∷ delivers (output "c")
    ∷ asks
    ∷ []

serving-Waits : lookup 4 serving.request_outputs ≡ some []
unfolding lookup
serving-Waits = refl

follow_lem_example :
    (yielded : List StepOutput) × (t : LlmEngine ℕ) × (follow 4 talk serving ≡ ok (yielded, t))
    × InOrder 4 (delivered 4 talk) yielded t
unfolding lookup
follow_lem_example =
    follow_lem 4 talk serving serving-Waits
      ((refl, refl), (tt, ((refl, refl), (tt, ((refl, refl), ((refl, refl), (tt, tt)))))))

-- A request with a text, numbered by the engine.
abbrev or_serving : Result (Request × LlmEngine ℕ) → Request × LlmEngine ℕ
or_serving (ok p) = p
or_serving (err e) = (short, serving)

abbrev run_generate : Result (Request × LlmEngine ℕ)
run_generate =
    start_generate one_token (λ text. 1) (some "hi") none none params none none (pos 9) 30 serving

started : run_generate ≡ ok (or_serving run_generate)
unfolding start_generate create_request choose_id choose_prompt next_id on_new_lifetime_event
    open_request hand_in lookup insert init
started = refl

start_generate-lens_example : len_of (some 5) (or_serving run_generate).1.prompt_len_map ≡ (
    if same_key none (some 5)
    then some (prompt_len_value (λ text. 1) (some "hi") none none)
    else len_of (some 5) serving.prompt_len_map)
start_generate-lens_example =
    start_generate-lens one_token (λ text. 1) (some "hi") none none params none none (pos 9) 30
      serving (or_serving run_generate).1 (or_serving run_generate).0 (some 5) started
