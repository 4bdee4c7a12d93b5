-- ===== src/Simulator/Configs.antt =====
-- simdistserve/benchmarks/search_configs.py, with the models of constants.py and
-- estimators/memory_estimator.py: the parallel configurations that a cluster has room for.
pub mod Members
pub mod Complete
use Prim.Native.String.{String}
use package.text.Mathlib.Text.{◌==◌ as str_eq}
use recompute_or_migrate.Base.{
  ℕ, zero, suc, ◌+◌, ◌-◌, ◌*◌, ◌/◌, ◌%◌, ◌≤◌, ◌<◌, min, max, ◌≡◌, refl, sym, ap, subst, ◌∙◌, ◌≢◌,
  ◌↔◌, ◌⊎◌, inl, inr, Bool, true, false, not, ◌&&◌, ◌||◌, Option, none, some, List, [], ◌∷◌, ◌++◌,
  map, append-nil, append_assoc, arith, ltb, leb, ◌==◌, if◌then◌else◌, ltb→lt, lt→ltb, leb→le,
  le→leb, leb-false→lt, ==_iff, ==_refl, Bool-cases, Option-cases, &&-eq-true, is_some, if_true,
  if_false, if_both, length, take, drop, get_elem?, set, replicate, sum_of, keep, All,
  length-append, length-take, length-drop, take-append-drop, sum_of-append, range_from, range,
  one_if, count, count-append, count-take-drop, count-range, ℤ, pos, negsuc, pos_part, neg_part,
  sub_ℕ, ◌+ℤ◌, ◌-ℤ◌, ◌≤ℤ◌, ltb_ℤ, leb_ℤ, +ℤ_parts, -ℤ_parts, eq_of_parts, int_laws, Dict, lookup,
  insert, erase, has_key, keys, lookup-insert, lookup-erase, Distinct, insert-Distinct,
  erase-Distinct, total, total-erase_absent, total-erase, total-insert, total-congr, Error,
  assertion_error, value_error, key_error, index_error, runtime_error, not_implemented,
  attribute_error, Result, ok, err, ◌>>=◌, ◌>>◌, guard, or_raise, >>=-eq-ok, >>=-ok, guarded-eq-ok,
  ok-injective, err≢ok, some-injective, none≢some, list-cases, or_raise-eq-ok, guard-eq-ok,
  guard-ok,
}

-- `ModelTypes.formalize_model_name`
unfoldable pub formalize_model_name : String → Result String
formalize_model_name x =
    if str_eq x "OPT-13B"
    then ok "facebook/opt-13b"
    else if str_eq x "OPT-66B"
    then ok "facebook/opt-66b"
    else if str_eq x "OPT-175B"
    then ok "facebook/opt-175b"
    else err value_error

unfoldable pub model_str_to_object : String → Result String
model_str_to_object model =
    if str_eq model "opt_13b" || str_eq model "facebook/opt-13b"
    then ok "OPT-13B"
    else if str_eq model "opt_66b" || str_eq model "facebook/opt-66b"
    then ok "OPT-66B"
    else if str_eq model "opt_175b" || str_eq model "facebook/opt-175b"
    then ok "OPT-175B"
    else err value_error

-- `model_hyperparams[model]`: the layers and the heads.
unfoldable pub model_hyperparams : String → Result (ℕ × ℕ)
model_hyperparams model =
    if str_eq model "facebook/opt-13b"
    then ok (40, 40)
    else if str_eq model "facebook/opt-66b"
    then ok (64, 72)
    else if str_eq model "facebook/opt-175b"
    then ok (96, 96)
    else err key_error

-- `[k for k in range(1, 1 + total) if total % k == 0]`
unfoldable pub divisors : ℕ → List ℕ
divisors total = keep (λ k. total % k == 0) (range_from 1 total)

unfoldable pub get_model_possible_pp : String → Result (List ℕ)
unfolding model_hyperparams divisors
get_model_possible_pp model = do params ← model_hyperparams model; ok (divisors params.0)

unfoldable pub get_model_possible_tp : String → Result (List ℕ)
unfolding model_hyperparams divisors
get_model_possible_tp model = do params ← model_hyperparams model; ok (divisors params.1)

pub record Config : Type 0 where
  pub pp_cross : ℕ
  pub tp_prefill : ℕ
  pub pp_prefill : ℕ
  pub tp_decode : ℕ
  pub pp_decode : ℕ

-- `k in ks`
abbrev pub mem_ℕ : ℕ → List ℕ → Bool
mem_ℕ k [] = false
mem_ℕ k (j ∷ ks) = j == k || mem_ℕ k ks

-- `for x in xs: for y in f(x)`
unfoldable pub each {ℓ κ} : {A : Type ℓ} {B : Type κ} → List A → (A → List B) → List B
each [] f = []
each (x ∷ xs) f = f x ++ each xs f

-- `product(cpps, tps, pps, tps, pps)`
unfoldable pub product : List ℕ → List ℕ → List ℕ → List Config
unfolding each
product cpps tps pps = each cpps λ c. each tps λ t. each pps λ p. each tps λ u.
    map (λ q. record { pp_cross = c; tp_prefill = t; pp_prefill = p; tp_decode = u; pp_decode = q })
      pps

unfoldable pub gpu_per_segment : Config → ℕ
gpu_per_segment c = c.tp_prefill * c.pp_prefill + c.tp_decode * c.pp_decode

-- The tests of the loop.
unfoldable pub is_possible : ℕ → ℕ → Bool → List ℕ → Config → Bool
unfolding gpu_per_segment
is_possible num_node num_gpu_per_node is_high_affinity possible_pps c =
    (is_high_affinity || leb (gpu_per_segment c) num_gpu_per_node)
    && leb (c.pp_cross * gpu_per_segment c) (num_node * num_gpu_per_node)
    && mem_ℕ (c.pp_cross * c.pp_prefill) possible_pps
    && mem_ℕ (c.pp_cross * c.pp_decode) possible_pps

-- The choices of one number up to a bound.
unfoldable pub up_to : ℕ → List ℕ → List ℕ
up_to bound ks = keep (λ k. leb k bound) ks

-- The rest of `get_distserve_configs`, over the choices that the model allows.
unfoldable pub configs_of : ℕ → ℕ → Bool → List ℕ → List ℕ → List Config
unfolding product is_possible up_to
configs_of num_node num_gpu_per_node is_high_affinity possible_tps possible_pps =
    let total_num_gpus = num_node * num_gpu_per_node in
    let bound = if is_high_affinity then total_num_gpus else num_gpu_per_node in
    keep (is_possible num_node num_gpu_per_node is_high_affinity possible_pps) (
      product (if is_high_affinity then 1 ∷ [] else up_to num_node possible_pps)
        (up_to bound possible_tps) (up_to bound possible_pps))

unfoldable pub get_distserve_configs : String → ℕ → ℕ → Bool → Result (List Config)
unfolding formalize_model_name get_model_possible_tp get_model_possible_pp configs_of
get_distserve_configs model_type num_node num_gpu_per_node is_high_affinity = do
  model_name ← formalize_model_name model_type
  possible_tps ← get_model_possible_tp model_name
  possible_pps ← get_model_possible_pp model_name
  ok (configs_of num_node num_gpu_per_node is_high_affinity possible_tps possible_pps)

-- The pairs of `get_vllm_config`.
unfoldable pub vllm_of : ℕ → List ℕ → List ℕ → List (ℕ × ℕ)
unfolding each
vllm_of num_gpus tps pps =
    keep (λ (c : ℕ × ℕ). leb (c.0 * c.1) num_gpus) (each tps (λ t. map (λ p. (t, p)) pps))

unfoldable pub get_vllm_config : String → ℕ → Result (List (ℕ × ℕ))
unfolding formalize_model_name get_model_possible_tp get_model_possible_pp vllm_of
get_vllm_config model_type num_gpus = do
  model_name ← formalize_model_name model_type
  possible_tps ← get_model_possible_tp model_name
  possible_pps ← get_model_possible_pp model_name
  ok (vllm_of num_gpus possible_tps possible_pps)
