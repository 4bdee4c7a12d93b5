-- ===== src/Config/Splits.antt =====
-- distserve/config.py: how the layers and heads of a model are split over the workers of a stage.
use native.Mathlib.Nat.{
  div-mul_cancel, dvd_of_mod-eq-zero, mod-eq-zero_of_dvd, dvd-mul_left, mul-div_cancel,
}
use recompute_or_migrate.Base.{
  ℕ, ◌*◌, ◌/◌, ◌%◌, ◌<◌, ◌≡◌, refl, sym, ap, ◌∙◌, ◌↔◌, Bool, true, false, none, some, arith, ◌==◌,
  if◌then◌else◌, ==_iff, Error, Result, ok, err, guarded-eq-ok, err≢ok,
}
use recompute_or_migrate.Config.{ParallelConfig}
use recompute_or_migrate.Config.Model.{ModelConfig, exact_div, get_num_layers}

pub exact_div_total : (a b : ℕ) → 0 < b → a % b ≡ 0 → exact_div a b ≡ ok (a / b)
exact_div_total a b p e = ground (arith, p, e)

-- A test before an error or a result that is known.
unless :
    (b : Bool) (e : Error) {r : Result ℕ} {q : ℕ}
    → (if b then err e else r) ≡ ok q
    → (b ≡ false) × (r ≡ ok q)
unless true e h = absurd (err≢ok h)
unless false e h = (refl, h)

pub exact_div_iff : (a b q : ℕ) → (exact_div a b ≡ ok q) ↔ ((0 < b) × (q * b ≡ a))
exact_div_iff a b q = (
  λ e.
      let (p, more) = unless (b == 0) _ e in
      let (whole, e') = guarded-eq-ok (a % b == 0) _ _ more in
      (
        ground (arith, p),
        ap (λ (n : ℕ). n * b) (sym e')
            ∙ div-mul_cancel b (dvd_of_mod-eq-zero b ((==_iff _ 0).0 whole)),
      ),
  λ (p, e).
      exact_div_total a b p
        (ap (λ (n : ℕ). n % b) (sym e) ∙ mod-eq-zero_of_dvd b (dvd-mul_left b q))
      ∙ ap (λ (n : ℕ). ok (n / b)) (sym e)
      ∙ ap (λ (n : ℕ). ok n) (mul-div_cancel q p),
)

-- A model all of whose heads have keys and values of their own.
pub record IsPlain (m : ModelConfig) (layers heads : ℕ) : Type 0 where
  pub single : m.hf_config.flag "multi_query" ≡ false
  pub falcon : m.hf_config.number "n_head_kv" ≡ none
  pub shared : m.hf_config.number "num_key_value_heads" ≡ none
  pub layer_count : m.hf_config.number "num_hidden_layers" ≡ some layers
  pub head_count : m.hf_config.number "num_attention_heads" ≡ some heads

pub get_num_layers_lem :
    (m : ModelConfig) (p : ParallelConfig) (layers : ℕ)
    → m.hf_config.number "num_hidden_layers" ≡ some layers
    → get_num_layers m p ≡ exact_div layers p.pipeline_parallel_size
unfolding get_num_layers
get_num_layers_lem m p layers e = rw e refl
