-- ===== src/Simulator/Bisection.antt =====
-- simdistserve/benchmarks/search_binary.py: the bisection for the highest rate that is served well.
-- A rate is a fraction with a power of two below, which a floating-point number holds exactly.
use native.Mathlib.Nat.{pow-suc}
use recompute_or_migrate.Base.{
  ◌^◌, ℕ, zero, suc, ◌+◌, ◌*◌, ◌≤◌, ◌≡◌, refl, subst, ◌⊎◌, inl, inr, Bool, true, false, Option,
  none, some, arith, leb, leb→le, leb-false→lt,
}

-- The rate `num / 2 ^ halvings`.
pub record Rate : Type 0 where
  pub num : ℕ
  pub halvings : ℕ

-- What the search comes to: `None` where an experiment raises, and a rate.
pub data Outcome : Type 0 where
  out_of_fuel failed : Outcome
  found : Rate → Outcome

-- The loop. `low` and `high` are `low` and `low + max_rate` over `2 ^ halvings`: their difference
-- is halved in each round. `esp` is the fraction `esp_num / esp_den`, and `experiment` tells whether both
-- stages are contained at a rate, or `none` if it raises.
module _ (experiment : Rate → Option Bool) (max_rate esp_num esp_den : ℕ) where
  -- `(low + high) / 2`
  unfoldable pub middle : ℕ → ℕ → Rate
  middle low halvings = record { num = 2 * low + max_rate; halvings = suc halvings }

  -- `not (high - low) > esp`
  unfoldable pub is_close : ℕ → Bool
  is_close halvings = leb (max_rate * esp_den) (esp_num * 2 ^ halvings)

  unfoldable pub bisect : ℕ → ℕ → ℕ → Rate → Outcome
  unfolding middle is_close
  bisect zero low halvings best = out_of_fuel
  bisect (suc fuel) low halvings best = elim (is_close halvings) [
    | true ↦ found best
    | false ↦ elim (experiment (middle low halvings)) [
      | none ↦ failed
      | some true ↦ bisect fuel (2 * low + max_rate) (suc halvings) (middle low halvings)
      | some false ↦ bisect fuel (2 * low) (suc halvings) best
    ]
  ]

  -- `run_binary_search`, with the rate of each GPU.
  unfoldable pub run_binary_search : ℕ → Outcome
  unfolding bisect
  run_binary_search fuel = bisect fuel 0 0 (record { num = 0; halvings = 0 })

  -- A rate is that of a numerator over a power of two.
  abbrev pub Is : Rate → ℕ → ℕ → Type 0
  Is r m k = r.num * 2 ^ k ≡ m * 2 ^ r.halvings

  -- The numerator is that of a rate at which the experiment is contained, or of no rate.
  pub record Passes (low halvings : ℕ) (best : Rate) : Type 0 where
    pub is_low : Is best low halvings
    pub passed : (best.num ≡ 0) ⊎ (experiment best ≡ some true)

  -- The numerator is that of a rate at which the experiment is not contained, or of the highest rate.
  pub record Fails (high halvings : ℕ) : Type 0 where
    pub rate : Rate
    pub is_high : Is rate high halvings
    pub not_passed : (rate.num ≡ max_rate * 2 ^ rate.halvings) ⊎ (experiment rate ≡ some false)

  -- The rate that is found: it passes, and within `esp` above it is one that does not.
  pub record IsFound (best : Rate) : Type 0 where
    pub low : ℕ
    pub halvings : ℕ
    pub passes : Passes low halvings best
    pub fails : Fails (low + max_rate) halvings
    pub close : max_rate * esp_den ≤ esp_num * 2 ^ halvings

  -- What a search may come to: it fails only at a rate at which the experiment raises.
  abbrev pub Ends : Outcome → Type 0
  Ends out_of_fuel = ⊥
  Ends failed = (rate : Rate) × (experiment rate ≡ none)
  Ends (found best) = IsFound best

  Is-double : (r : Rate) (m k : ℕ) → Is r m k → Is r (2 * m) (suc k)
  Is-double r m k h = rw (pow-suc) (grind (arith, h))

  Fails-double : (m k : ℕ) → Fails m k → Fails (2 * m) (suc k)
  Fails-double m k q = record {
    rate = q.rate;
    is_high = Is-double q.rate m k q.is_high;
    not_passed = q.not_passed;
  }

  Passes-double : (m k : ℕ) (best : Rate) → Passes m k best → Passes (2 * m) (suc k) best
  Passes-double m k best p = record { is_low = Is-double best m k p.is_low; passed = p.passed }

  -- A round whose experiment has come to an outcome, over the rounds that follow.
  round-Ends :
      (f low k : ℕ) (best : Rate) (outcome : Option Bool)
      → experiment (middle low k) ≡ outcome
      → Passes low k best
      → Fails (low + max_rate) k
      → ((low' : ℕ) (best' : Rate)
          → Passes low' (suc k) best'
          → Fails (low' + max_rate) (suc k)
          → Ends (bisect f low' (suc k) best'))
      → Ends (elim outcome [
        | none ↦ failed
        | some true ↦ bisect f (2 * low + max_rate) (suc k) (middle low k)
        | some false ↦ bisect f (2 * low) (suc k) best
      ])
  unfolding middle
  round-Ends f low k best none e p q more = (middle low k, e)
  round-Ends f low k best (some true) e p q more =
      let twice : 2 * (low + max_rate) ≡ 2 * low + max_rate + max_rate = omega arith in
      more (2 * low + max_rate) (middle low k) (record { is_low = refl; passed = inr e })
        (subst (λ (m : ℕ). Fails m (suc k)) twice (Fails-double (low + max_rate) k q))
  round-Ends f low k best (some false) e p q more =
      more (2 * low) best (Passes-double low k best p)
        (record { rate = middle low k; is_high = refl; not_passed = inr e })

  -- The test of the loop, over a round that is made where the bounds are not close.
  test-Ends :
      (k : ℕ) (best : Rate) (close : Bool) (round : Outcome)
      → is_close k ≡ close
      → (is_close k ≡ true → IsFound best)
      → (is_close k ≡ false → Ends round)
      → Ends (elim close [ true ↦ found best | false ↦ round ])
  test-Ends k best true round e done more = done e
  test-Ends k best false round e done more = more e

  not_close : (k : ℕ) → is_close k ≡ false → max_rate * esp_den ≤ esp_num * 2 ^ (0 + k) → ⊥
  unfolding is_close
  not_close k far enough =
      let e : 0 + k ≡ k = omega arith in
      let h : max_rate * esp_den ≤ esp_num * 2 ^ k =
        subst (λ (j : ℕ). max_rate * esp_den ≤ esp_num * 2 ^ j) e enough in
      omega (arith, h, leb-false→lt (max_rate * esp_den) (esp_num * 2 ^ k) far)

  is_close-IsFound :
      (low k : ℕ) (best : Rate)
      → Passes low k best
      → Fails (low + max_rate) k
      → is_close k ≡ true
      → IsFound best
  unfolding is_close
  is_close-IsFound low k best p q t = record {
    low = low;
    halvings = k;
    passes = p;
    fails = q;
    close = leb→le (max_rate * esp_den) (esp_num * 2 ^ k) t;
  }

  later :
      (f k : ℕ)
      → max_rate * esp_den ≤ esp_num * 2 ^ (suc f + k)
      → max_rate * esp_den ≤ esp_num * 2 ^ (f + suc k)
  later f k h =
      let e : suc f + k ≡ f + suc k = omega arith in
      subst (λ (j : ℕ). max_rate * esp_den ≤ esp_num * 2 ^ j) e h

  bisect-Ends :
      (f low k : ℕ) (best : Rate)
      → max_rate * esp_den ≤ esp_num * 2 ^ (f + k)
      → Passes low k best
      → Fails (low + max_rate) k
      → Ends (bisect (suc f) low k best)
  unfolding bisect
  bisect-Ends zero low k best enough p q =
      test-Ends k best (is_close k) _ refl (is_close-IsFound low k best p q)
        (λ far. absurd (not_close k far enough))
  bisect-Ends (suc f) low k best enough p q =
      test-Ends k best (is_close k) _ refl (is_close-IsFound low k best p q) (λ far.
        round-Ends (suc f) low k best (experiment (middle low k)) refl p q
          (λ l b p' q'. bisect-Ends f l (suc k) b (later f k enough) p' q'))

  -- With as many rounds as halve the highest rate to no more than `esp`, the search
  -- ends. Either there is a rate at which the experiment raises, and the search fails, or it finds a rate
  -- at which both stages are contained, or 0, and at most `esp` above it there is a rate at which they are
  -- not, or the highest rate.
  pub run_binary_search-Ends :
      (fuel : ℕ) → max_rate * esp_den ≤ esp_num * 2 ^ fuel → Ends (run_binary_search (suc fuel))
  unfolding run_binary_search
  run_binary_search-Ends fuel enough =
      let e : fuel ≡ fuel + 0 = omega arith in
      bisect-Ends fuel 0 0 (record { num = 0; halvings = 0 })
        (subst (λ (j : ℕ). max_rate * esp_den ≤ esp_num * 2 ^ j) e enough)
        (record { is_low = omega arith; passed = inl refl })
        (record {
          rate = record { num = max_rate; halvings = 0 };
          is_high = omega arith;
          not_passed = inl (omega arith);
        })
