-- ===== src/Request/Sampling/Verified.antt =====
-- distserve/request.py: which sampling parameters the constructor accepts.
use recompute_or_migrate.Base.{
  >>=-eq-ok, subst, sym, Bool-cases, ◌↔◌, inl, inr, ◌≡◌, true, false, ◌⊎◌, ◌≢◌, Option, none, some,
  ℤ, pos, negsuc, ◌≤ℤ◌, ok, arith, ltb_ℤ,
}
use recompute_or_migrate.Request.Sampling.{
  SamplingParams, is_negative, verify_args, verify_mode, verify, init,
}

-- The ranges that the documentation of the class states, for every mode.
pub record InRange (p : SamplingParams) : Type 0 where
  pub n_pos : pos 1 ≤ℤ p.n
  pub best_of_ge : p.n ≤ℤ p.best_of
  pub presence_low : negsuc 199999 ≤ℤ p.presence_penalty
  pub presence_high : p.presence_penalty ≤ℤ pos 200000
  pub frequency_low : negsuc 199999 ≤ℤ p.frequency_penalty
  pub frequency_high : p.frequency_penalty ≤ℤ pos 200000
  pub temperature_nonneg : pos 0 ≤ℤ p.temperature
  pub top_p_pos : pos 1 ≤ℤ p.top_p
  pub top_p_le_one : p.top_p ≤ℤ pos 100000
  pub top_k_ok : (p.top_k ≡ negsuc 0) ⊎ (pos 1 ≤ℤ p.top_k)
  pub max_tokens_pos : pos 1 ≤ℤ p.max_tokens
  pub logprobs_nonneg : is_negative p.logprobs ≡ false

-- What the mode asks for: beam search wants a beam, greedy sampling a single sequence.
pub record InMode (p : SamplingParams) : Type 0 where
  pub beam : p.use_beam_search ≡ true → (pos 1 ≢ p.best_of) × (p.temperature ≤ℤ pos 1)
  pub greedy : p.use_beam_search ≡ false → p.temperature ≤ℤ pos 0 → p.best_of ≤ℤ pos 1
  pub no_filter :
      (p.use_beam_search ≡ true) ⊎ (p.temperature ≤ℤ pos 0)
      → (pos 99999 ≤ℤ p.top_p) × (p.top_k ≡ negsuc 0)

verify_args-InRange : (p : SamplingParams) → verify_args p ≡ ok tt → InRange p
unfolding verify_args
verify_args-InRange p h = ground arith

InRange-verify_args : (p : SamplingParams) → InRange p → verify_args p ≡ ok tt
unfolding verify_args
InRange-verify_args p h = ground arith

verify_mode-InMode : (p : SamplingParams) → verify_mode p ≡ ok tt → InMode p
unfolding verify_mode
verify_mode-InMode p h = ground arith

InMode-verify_mode : (p : SamplingParams) → InMode p → verify_mode p ≡ ok tt
unfolding verify_mode
InMode-verify_mode p h = elim (Bool-cases p.use_beam_search) [
  | inl beam ↦ ground (arith, h.beam beam, h.no_filter (inl beam))
  | inr plain ↦ elim (Bool-cases (ltb_ℤ p.temperature (pos 1))) [
    | inl cold ↦ ground (arith, h.greedy plain (ground arith), h.no_filter (inr (ground arith)))
    | inr warm ↦ ground arith
  ]
]

-- The fields that the constructor checks: `best_of` defaults to `n`.
abbrev pub with_best_of : SamplingParams → Option ℤ → SamplingParams
with_best_of p none = record p { best_of = p.n }
with_best_of p (some b) = record p { best_of = b }

verify-ok :
    (p q : SamplingParams)
    → verify p ≡ ok q
    → (q ≡ p) × (verify_args p ≡ ok tt) × (verify_mode p ≡ ok tt)
unfolding verify
verify-ok p q h =
    let (_, args, h') = >>=-eq-ok (verify_args p) _ h in
    let (_, mode, e) = >>=-eq-ok (verify_mode p) _ h' in (cc, cc, cc)

ok-verify : (p : SamplingParams) → InRange p → InMode p → verify p ≡ ok p
unfolding verify
ok-verify p r m = rw (InRange-verify_args p r, InMode-verify_mode p m)

verify-ok_iff : (p q : SamplingParams) → (verify p ≡ ok q) ↔ ((q ≡ p) × InRange q × InMode q)
verify-ok_iff p q = (
  λ h.
      let (same, args, mode) = verify-ok p q h in
      (
        same,
        subst InRange (sym same) (verify_args-InRange p args),
        subst InMode (sym same) (verify_mode-InMode p mode),
      ),
  λ (same, r, m). rw (← same) (ok-verify q r m),
)

-- Exactly the parameters in the documented ranges, and right for their mode, are accepted, and
-- they are returned as they were given, with `n` for a `best_of` that is not given.
pub init-ok_iff :
    (p : SamplingParams) (best_of : Option ℤ) (q : SamplingParams)
    → (init p best_of ≡ ok q) ↔ ((q ≡ with_best_of p best_of) × InRange q × InMode q)
unfolding init
init-ok_iff p none q = verify-ok_iff _ q
init-ok_iff p (some b) q = verify-ok_iff _ q
