-- ===== src/Engine.antt =====
-- distserve/engine.py: the engine around both stages, as its callers see it. It hands requests to the context
-- stage and gives the outputs of each back in their order.
pub mod Turns
pub mod Outputs
pub mod Lengths
pub mod Placement
use Prim.Native.String.{String}
use recompute_or_migrate.Base.{
  ℕ, zero, suc, ◌+◌, ◌-◌, ◌*◌, ◌/◌, ◌%◌, ◌≤◌, ◌<◌, min, max, ◌≡◌, refl, sym, ap, subst, ◌∙◌, ◌≢◌,
  ◌↔◌, ◌⊎◌, inl, inr, Bool, true, false, not, ◌&&◌, ◌||◌, Option, none, some, List, [], ◌∷◌, ◌++◌,
  map, append-nil, append_assoc, arith, ltb, leb, ◌==◌, if◌then◌else◌, ltb→lt, lt→ltb, leb→le,
  le→leb, leb-false→lt, ==_iff, ==_refl, Bool-cases, Option-cases, &&-eq-true, is_some, if_true,
  if_false, if_both, length, take, drop, get_elem?, set, replicate, sum_of, keep, All,
  length-append, length-take, length-drop, take-append-drop, sum_of-append, range_from, range,
  length-range_from, one_if, count, count-append, count-take-drop, count-range, ℤ, pos, negsuc,
  pos_part, neg_part, sub_ℕ, ◌+ℤ◌, ◌-ℤ◌, ◌≤ℤ◌, ltb_ℤ, leb_ℤ, +ℤ_parts, -ℤ_parts, eq_of_parts,
  int_laws, Dict, lookup, insert, erase, has_key, keys, lookup-insert, lookup-erase, Distinct,
  insert-Distinct, erase-Distinct, total, total-erase_absent, total-erase, total-insert,
  total-congr, Error, assertion_error, value_error, key_error, index_error, runtime_error,
  not_implemented, attribute_error, Result, ok, err, ◌>>=◌, ◌>>◌, guard, or_raise, >>=-eq-ok,
  >>=-ok, guarded-eq-ok, ok-injective, err≢ok, some-injective, none≢some, list-cases,
  or_raise-eq-ok, guard-eq-ok, guard-ok,
}
use recompute_or_migrate.Request.{Request}
use recompute_or_migrate.Request.Sampling.{SamplingParams}
use recompute_or_migrate.Request.Migrating.{Tokenizer, create_request}
use recompute_or_migrate.Lifetime.{
  LifetimeEventType, LifetimeEvent, issued, context_begin, context_end, migration_begin,
  migration_end, decoding_begin, decoding_end,
}
use recompute_or_migrate.Lifetime
use recompute_or_migrate.ContextScheduler.{ContextScheduler, add_waiting}
use recompute_or_migrate.ContextScheduler
use recompute_or_migrate.DecodingScheduler.{DecodingScheduler}
use recompute_or_migrate.DecodingScheduler

-- The output of a request in one step.
pub record StepOutput : Type 0 where
  pub request_id : ℕ
  pub new_token : String
  pub new_token_id : ℕ
  pub is_finished : Bool

unfoldable pub new_step_output : Request → String → ℕ → StepOutput
new_step_output r token token_id = record {
  request_id = r.request_id;
  new_token = token;
  new_token_id = token_id;
  is_finished = r.is_finished;
}

-- `_prompt_len_map`, whose keys may be `None`.
abbrev pub PromptLens : Type 0
PromptLens = List (Option ℕ × ℕ)

unfoldable pub same_key : Option ℕ → Option ℕ → Bool
same_key none none = true
same_key (some a) (some b) = a == b
same_key none (some b) = false
same_key (some a) none = false

-- `map.get(key)`
unfoldable pub len_of : Option ℕ → PromptLens → Option ℕ
unfolding same_key
len_of k [] = none
len_of k ((j, n) ∷ lens) = if same_key j k then some n else len_of k lens

-- `map[key] = n`
unfoldable pub set_len : Option ℕ → ℕ → PromptLens → PromptLens
unfolding same_key
set_len k n [] = (k, n) ∷ []
set_len k n ((j, m) ∷ lens) = if same_key j k then (j, n) ∷ lens else (j, m) ∷ set_len k n lens

-- `map.pop(key, None)`
unfoldable pub pop_len : Option ℕ → PromptLens → PromptLens
unfolding same_key
pop_len k [] = []
pop_len k ((j, n) ∷ lens) = if same_key j k then pop_len k lens else (j, n) ∷ pop_len k lens

-- The two stages are what the callers' calls change of them: their schedulers.
pub record LlmEngine (Number : Type 0) : Type 0 where
  pub engine_initialized : Bool
  pub request_counter : ℕ
  pub context_scheduler : ContextScheduler
  pub decoding_scheduler : DecodingScheduler
  pub request_outputs : Dict (List StepOutput)
  pub request_lifetime_events : Dict (List (LifetimeEvent Number))
  pub prompt_len_map : PromptLens

-- `prompt_len_value`, where `tokenized` is the length of a tokenized text.
unfoldable pub prompt_len_value : (String → ℕ) → Option String → Option ℕ → Option (List ℕ) → ℕ
prompt_len_value tokenized prompt (some n) ids = n
prompt_len_value tokenized prompt none (some ids) = length ids
prompt_len_value tokenized (some prompt) none none = tokenized prompt
prompt_len_value tokenized none none none = 0

-- `a.event_type == b.event_type`, by the names of the members.
unfoldable pub same_type : LifetimeEventType → LifetimeEventType → Bool
same_type issued issued = true
same_type context_begin context_begin = true
same_type context_end context_end = true
same_type migration_begin migration_begin = true
same_type migration_end migration_end = true
same_type decoding_begin decoding_begin = true
same_type decoding_end decoding_end = true
same_type _ _ = false

module _ {Number : Type 0} where
  unfoldable pub on_new_step_output : StepOutput → LlmEngine Number → Result (LlmEngine Number)
  on_new_step_output output s = do
    outputs ← or_raise (lookup output.request_id s.request_outputs) key_error
    ok (record s {
      request_outputs = insert output.request_id (outputs ++ output ∷ []) s.request_outputs;
    })

  -- `events[-1].event_type == event.event_type`, where there is a last event.
  unfoldable pub repeats : List (LifetimeEvent Number) → LifetimeEvent Number → Bool
  unfolding same_type
  repeats [] event = false
  repeats (last ∷ []) event = same_type last.event_type event.event_type
  repeats (e ∷ f ∷ events) event = repeats (f ∷ events) event

  unfoldable pub on_new_lifetime_event :
      ℕ → LifetimeEvent Number → Bool → LlmEngine Number → Result (LlmEngine Number)
  unfolding repeats
  on_new_lifetime_event request_id event dont_add_if_dup s = do
    events ← or_raise (lookup request_id s.request_lifetime_events) key_error
    ok (
        if dont_add_if_dup && repeats events event then s else record s {
          request_lifetime_events =
              insert request_id (events ++ event ∷ []) s.request_lifetime_events;
        })

  -- The entries of a new request.
  unfoldable pub open_request : Request → ℕ → LlmEngine Number → LlmEngine Number
  open_request r counter s = record s {
    request_counter = counter;
    request_outputs = insert r.request_id [] s.request_outputs;
    request_lifetime_events = insert r.request_id [] s.request_lifetime_events;
  }

  -- The request goes to the context stage, and its length is noted under the caller's identifier.
  unfoldable pub hand_in : Request → Option ℕ → ℕ → LlmEngine Number → LlmEngine Number
  unfolding set_len
  hand_in r request_id n s = record s {
    context_scheduler = add_waiting s.context_scheduler r;
    prompt_len_map = set_len request_id n s.prompt_len_map;
  }

  -- `generate`, up to the wait for the first output. `now` is the clock of the request, `stamp` the one of
  -- the event.
  unfoldable pub start_generate :
      Tokenizer
      → (String → ℕ)
      → Option String
      → Option ℕ
      → Option (List ℕ)
      → SamplingParams
      → (arrival_time : Option ℤ) → (request_id : Option ℕ) → (now : ℤ) → (stamp : Number)
      → LlmEngine Number
      → Result (Request × LlmEngine Number)
  unfolding open_request on_new_lifetime_event hand_in prompt_len_value
  start_generate t tokenized prompt prompt_len ids params arrival_time request_id now stamp s =
      guard s.engine_initialized assertion_error >> do
        created ← create_request t prompt ids params s.request_counter arrival_time request_id now
        s' ←
            on_new_lifetime_event created.0.request_id (Lifetime.init stamp issued Lifetime.null)
              false (open_request created.0 created.1 s)
        ok (
          created.0,
          hand_in created.0 request_id (prompt_len_value tokenized prompt prompt_len ids) s',
        )

  -- The end of `generate`, after the last output.
  unfoldable pub close_request : ℕ → LlmEngine Number → LlmEngine Number
  unfolding pop_len
  close_request k s = record s {
    request_outputs = erase k s.request_outputs;
    prompt_len_map = pop_len (some k) s.prompt_len_map;
  }

  -- One output of a queue, if there is one: the generator yields it, and ends with a finished one.
  unfoldable pub yield_from :
      ℕ → List StepOutput → LlmEngine Number → List StepOutput × LlmEngine Number
  unfolding close_request
  yield_from k [] s = ([], s)
  yield_from k (output ∷ outputs) s = (
    output ∷ [],
    if output.is_finished
        then close_request k s
        else record s { request_outputs = insert k outputs s.request_outputs },
  )

  -- A round of the loop in `generate`. With no output there it goes on waiting.
  unfoldable pub next_output : ℕ → LlmEngine Number → Result (List StepOutput × LlmEngine Number)
  unfolding yield_from
  next_output k s = do
    outputs ← or_raise (lookup k s.request_outputs) key_error
    ok (yield_from k outputs s)

  -- The `abort_request` of either stage warns and returns before it reaches its scheduler.
  unfoldable pub abort_request : ℕ → LlmEngine Number → LlmEngine Number
  abort_request k s = s
