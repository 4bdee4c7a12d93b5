-- ===== src/Simulator/Estimates.antt =====
-- simdistserve/estimators/time_estimator.py: whether the length of a pass can be estimated. The lengths are
-- among the times of a simulation, which are any; what is modelled is what raises.
use Prim.Native.String.{String}
use text.Mathlib.Text.{◌==◌ as str_eq}
use recompute_or_migrate.Base.{
  ℕ, Bool, false, ◌&&◌, ◌||◌, Option, none, some, List, [], ◌∷◌, ◌==◌, if◌then◌else◌, value_error,
  key_error, Result, err, ◌>>=◌, guard,
}
use recompute_or_migrate.Simulator.Configs.{formalize_model_name}

-- The two sets of profiles, `profiler-a100-80g.{distserve,vllm}.json`.
pub data EngineType : Type 0 where
  distserve vllm : EngineType

-- The sizes of the tensor parallelism that are profiled for a model, the same in both sets.
abbrev pub profiled_tps : String → List ℕ
profiled_tps model_name =
    if str_eq model_name "facebook/opt-13b"
    then 1 ∷ 2 ∷ 4 ∷ []
    else if str_eq model_name "facebook/opt-66b"
    then 2 ∷ 3 ∷ 4 ∷ 8 ∷ []
    else []

abbrev pub mem_tp : ℕ → List ℕ → Bool
mem_tp tp [] = false
mem_tp tp (p ∷ ps) = p == tp || mem_tp tp ps

-- `profile_data[ModelTypes.formalize_model_name(model_type)][str(TP)]`; a worker has no model by default.
unfoldable pub find_params : Option String → ℕ → Result (Unit {0})
unfolding formalize_model_name
find_params none tp = err value_error
find_params (some model_type) tp = do
  model_name ← formalize_model_name model_type
  guard (mem_tp tp (profiled_tps model_name)) key_error

-- The coefficients of a prefill are positive in every profile but that of OPT-66B on two workers under
-- vLLM, which gives very long prompts a negative delay, and simpy refuses it. That profile is left out here,
-- as if it were not there.
unfoldable pub get_prefill_time : EngineType → Option String → ℕ → Result (Unit {0})
unfolding find_params
get_prefill_time distserve model_type tp = find_params model_type tp
get_prefill_time vllm none tp = find_params none tp
get_prefill_time vllm (some model_type) tp =
    if str_eq model_type "OPT-66B" && tp == 2
    then err key_error
    else find_params (some model_type) tp

-- The coefficients of a decoding pass are positive in every profile.
unfoldable pub get_decode_time : EngineType → Option String → ℕ → Result (Unit {0})
unfolding find_params
get_decode_time engine_type model_type tp = find_params model_type tp
