-- ===== src/Request.antt =====
-- distserve/request.py: a request and the tokens generated for it.
-- A time is a number of clock ticks, and may be negative. Lists that Python mutates are values.
pub mod Sampling
pub mod Tokens
pub mod Migrating
pub mod Batch
use Prim.Native.String.{String}
use text.Mathlib.Text.{◌==◌ as str_eq}
use recompute_or_migrate.Base.{
  ℕ, suc, ◌+◌, ◌-◌, ◌≡◌, Bool, true, false, not, ◌&&◌, ◌||◌, Option, none, some, List, [], ◌∷◌,
  ◌++◌, ltb, leb, ◌==◌, if◌then◌else◌, length, ℤ, pos, ltb_ℤ, leb_ℤ, ◌+ℤ◌, Result, ok, err,
  value_error,
}
use Sampling.{SamplingParams}

pub record Request : Type 0 where
  pub arrival_time : ℤ
  pub request_id : ℕ
  pub prompt : String
  pub prompt_token_ids : List ℕ
  pub sampling_params : SamplingParams
  pub generated_tokens : List String
  pub generated_token_ids : List ℕ
  pub is_finished : Bool
  pub is_running : Bool
  pub process_time : ℤ
  pub last_step_time : ℤ
  pub priority : ℤ

-- `__init__`, with the parameters in the order of the source.
unfoldable pub init : ℤ → ℕ → String → List ℕ → SamplingParams → ℤ → Request
init arrival_time request_id prompt prompt_token_ids sampling_params priority = record {
  arrival_time = arrival_time;
  request_id = request_id;
  prompt = prompt;
  prompt_token_ids = prompt_token_ids;
  sampling_params = sampling_params;
  generated_tokens = [];
  generated_token_ids = [];
  is_finished = false;
  is_running = false;
  process_time = pos 0;
  last_step_time = pos 0;
  priority = priority;
}

-- The assertion of `get_output_len`: the texts and the ids of the output go together.
abbrev pub IsAligned : Request → Type 0
IsAligned r = length r.generated_tokens ≡ length r.generated_token_ids

abbrev pub get_input_len : Request → ℕ
get_input_len r = length r.prompt_token_ids

-- The number returned; `IsAligned` is what the function asserts first.
abbrev pub get_output_len : Request → ℕ
get_output_len r = length r.generated_token_ids

-- `token in stop`
unfoldable pub contains : String → List String → Bool
contains token [] = false
contains token (s ∷ stop) = str_eq token s || contains token stop

-- `generated_tokens[-1] in stop`, where there is a last token.
unfoldable pub last_in : List String → List String → Bool
unfolding contains
last_in [] stop = false
last_in (t ∷ []) stop = contains t stop
last_in (t ∷ u ∷ ts) stop = last_in (u ∷ ts) stop

-- The first test of `_check_finish_condition`.
unfoldable pub check_length : Request → Request
check_length r =
    if leb_ℤ r.sampling_params.max_tokens (pos (get_output_len r))
    then record r { is_finished = true }
    else r

-- The second test: a stop string ends the output, unless it is to be ignored.
unfoldable pub check_stop : Request → Request
unfolding last_in
check_stop r =
    if not r.sampling_params.ignore_eos
      && (not (get_output_len r == 0) && last_in r.generated_tokens r.sampling_params.stop)
    then record r { is_finished = true }
    else r

unfoldable pub check_finish_condition : Request → Request
unfolding check_length check_stop
check_finish_condition r = check_stop (check_length r)

unfoldable pub add_generated_token : Request → String → ℕ → Result Request
unfolding check_finish_condition
add_generated_token r token token_id =
    if ltb_ℤ r.sampling_params.max_tokens (pos (get_output_len r))
    then err value_error
    else ok (
        check_finish_condition (record r {
          generated_tokens = r.generated_tokens ++ token ∷ [];
          generated_token_ids = r.generated_token_ids ++ token_id ∷ [];
        }))

unfoldable pub is_context_stage : Request → Bool
is_context_stage r = length r.generated_tokens == 0

-- `[generated_token_ids[-1]]`
unfoldable pub last_token : List ℕ → List ℕ
last_token [] = []
last_token (t ∷ []) = t ∷ []
last_token (t ∷ u ∷ ts) = last_token (u ∷ ts)

unfoldable pub get_input_tokens_ids : Request → List ℕ
unfolding is_context_stage last_token
get_input_tokens_ids r =
    if is_context_stage r then r.prompt_token_ids else last_token r.generated_token_ids

unfoldable pub get_num_input_tokens : Request → ℕ
unfolding get_input_tokens_ids
get_num_input_tokens r = length (get_input_tokens_ids r)

-- Outside the context stage the sum is positive, so that `- 1` is exact.
unfoldable pub get_first_new_token_index : Request → ℕ
unfolding is_context_stage
get_first_new_token_index r =
    if is_context_stage r then 0 else get_input_len r + get_output_len r - 1

unfoldable pub add_process_time : Request → ℤ → Request
add_process_time r running_time = record r { process_time = r.process_time +ℤ running_time }

abbrev pub get_kvcache_slots : Request → ℕ
get_kvcache_slots r = get_input_len r + get_output_len r
