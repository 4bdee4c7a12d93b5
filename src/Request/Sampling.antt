-- ===== src/Request/Sampling.antt =====
-- distserve/request.py: `SamplingParams` and its verification.
-- The floats are integers in units of 0.00001 (`_SAMPLING_EPS`): 100000 stands for 1.0.
pub mod Verified
use Prim.Native.String.{String}
use recompute_or_migrate.Base.{
  ℕ, ◌≡◌, Bool, true, false, not, ◌&&◌, ◌||◌, Option, none, some, List, ltb, leb, ◌==◌,
  if◌then◌else◌, ℤ, pos, negsuc, ltb_ℤ, leb_ℤ, Result, ok, err, value_error, guard, ◌>>=◌, ◌>>◌,
}

pub record SamplingParams : Type 0 where
  pub n : ℤ
  pub best_of : ℤ
  pub presence_penalty : ℤ
  pub frequency_penalty : ℤ
  pub temperature : ℤ
  pub top_p : ℤ
  pub top_k : ℤ
  pub use_beam_search : Bool
  pub stop : List String
  pub ignore_eos : Bool
  pub max_tokens : ℤ
  pub logprobs : Option ℤ

abbrev pub eqb_ℤ : ℤ → ℤ → Bool
eqb_ℤ a b = leb_ℤ a b && leb_ℤ b a

abbrev pub is_negative : Option ℤ → Bool
is_negative none = false
is_negative (some l) = ltb_ℤ l (pos 0)

-- Each `if test: raise ValueError` is a guard by the negated test, in the order of the source.
unfoldable pub verify_args : SamplingParams → Result (Unit {0})
verify_args p = do
  guard (not (ltb_ℤ p.n (pos 1))) value_error
  guard (not (ltb_ℤ p.best_of p.n)) value_error
  guard (leb_ℤ (negsuc 199999) p.presence_penalty && leb_ℤ p.presence_penalty (pos 200000))
      value_error
  guard (leb_ℤ (negsuc 199999) p.frequency_penalty && leb_ℤ p.frequency_penalty (pos 200000))
      value_error
  guard (not (ltb_ℤ p.temperature (pos 0))) value_error
  guard (ltb_ℤ (pos 0) p.top_p && leb_ℤ p.top_p (pos 100000)) value_error
  guard (not (ltb_ℤ p.top_k (negsuc 0) || eqb_ℤ p.top_k (pos 0))) value_error
  guard (not (ltb_ℤ p.max_tokens (pos 1))) value_error
  guard (not (is_negative p.logprobs)) value_error

unfoldable pub verify_beam_search : SamplingParams → Result (Unit {0})
verify_beam_search p = do
  guard (not (eqb_ℤ p.best_of (pos 1))) value_error
  guard (not (ltb_ℤ (pos 1) p.temperature)) value_error
  guard (not (ltb_ℤ p.top_p (pos 99999))) value_error
  guard (eqb_ℤ p.top_k (negsuc 0)) value_error

unfoldable pub verify_greedy_sampling : SamplingParams → Result (Unit {0})
verify_greedy_sampling p = do
  guard (not (ltb_ℤ (pos 1) p.best_of)) value_error
  guard (not (ltb_ℤ p.top_p (pos 99999))) value_error
  guard (eqb_ℤ p.top_k (negsuc 0)) value_error

-- The checks that depend on the sampling mode: a temperature near zero means greedy sampling.
unfoldable pub verify_mode : SamplingParams → Result (Unit {0})
unfolding verify_beam_search verify_greedy_sampling
verify_mode p =
    if p.use_beam_search
    then verify_beam_search p
    else if ltb_ℤ p.temperature (pos 1)
    then verify_greedy_sampling p
    else ok tt

-- The end of `__init__`: the checks that the fields pass.
unfoldable pub verify : SamplingParams → Result SamplingParams
verify p = do verify_args p; verify_mode p; ok p

-- `__init__`, with the default of `best_of`; `stop` is given as the list that it becomes.
unfoldable pub init : SamplingParams → Option ℤ → Result SamplingParams
init p none = verify (record p { best_of = p.n })
init p (some b) = verify (record p { best_of = b })
