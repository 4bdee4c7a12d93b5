-- ===== src/Simulator/Systems/Places.antt =====
-- simdistserve/base: lists of workers by place, and how often a request stands in a list.
use recompute_or_migrate.Base.{
  ℕ, zero, suc, ◌+◌, ◌<◌, ◌≡◌, refl, ap, subst, inl, inr, Bool, not, some, List, [], ◌∷◌, ◌++◌, map,
  arith, ◌==◌, Bool-cases, length, get_elem?, set, sum_of, keep, All, sum_of-append, one_if,
  some-injective, none≢some,
}
use recompute_or_migrate.Simulator.Requests.{Request}

module _ {ℓ} {A : Type ℓ} where
  pub get_of_lt : (xs : List A) (i : ℕ) → i < length xs → (x : A) × (get_elem? xs i ≡ some x)
  get_of_lt [] i h = absurd (omega (arith, h))
  get_of_lt (x ∷ xs) zero h = (x, refl)
  get_of_lt (x ∷ xs) (suc i) h = get_of_lt xs i (omega (arith, h))

  pub length-set : (xs : List A) (i : ℕ) (v : A) → length (set xs i v) ≡ length xs
  length-set [] i v = refl
  length-set (x ∷ xs) zero v = refl
  length-set (x ∷ xs) (suc i) v = ap suc (length-set xs i v)

  pub get-set :
      (xs : List A) (i : ℕ) (x v : A) → get_elem? xs i ≡ some x → get_elem? (set xs i v) i ≡ some v
  get-set [] i x v e = absurd (none≢some e)
  get-set (y ∷ xs) zero x v e = refl
  get-set (y ∷ xs) (suc i) x v e = get-set xs i x v e

  pub All-get {κ} :
      (P : A → Type κ) (xs : List A) (i : ℕ) (x : A) → All P xs → get_elem? xs i ≡ some x → P x
  All-get P [] i x h e = absurd (none≢some e)
  All-get P (y ∷ xs) zero x h e = subst P (some-injective e) h.0
  All-get P (y ∷ xs) (suc i) x h e = All-get P xs i x h.1 e

  pub All-set {κ} :
      (P : A → Type κ) (xs : List A) (i : ℕ) (v : A) → All P xs → P v → All P (set xs i v)
  All-set P [] i v h p = h
  All-set P (x ∷ xs) zero v h p = (p, h.1)
  All-set P (x ∷ xs) (suc i) v h p = (h.0, All-set P xs i v h.1 p)

  -- A write trades the measure of the entry for that of the value.
  pub sum_of-set :
      (f : A → ℕ) (xs : List A) (i : ℕ) (x v : A)
      → get_elem? xs i ≡ some x
      → sum_of f (set xs i v) + f x ≡ sum_of f xs + f v
  sum_of-set f [] i x v e = absurd (none≢some e)
  sum_of-set f (y ∷ xs) zero x v e = omega (arith, ap f (some-injective e))
  sum_of-set f (y ∷ xs) (suc i) x v e = omega (arith, sum_of-set f xs i x v e)

module _ {Number : Type 0} where
  -- How often the request of an identifier stands in a list.
  unfoldable pub copies : ℕ → List (Request Number) → ℕ
  copies a rs = sum_of (λ r. one_if (r.req_id == a)) rs

  pub copies-append :
      (a : ℕ) (xs ys : List (Request Number)) → copies a (xs ++ ys) ≡ copies a xs + copies a ys
  unfolding copies
  copies-append a xs ys = sum_of-append _ xs ys

  -- A function that keeps the identifiers keeps the copies.
  pub copies-map :
      (f : Request Number → Request Number)
      → ((r : Request Number) → (f r).req_id ≡ r.req_id)
      → (a : ℕ) (rs : List (Request Number)) → copies a (map f rs) ≡ copies a rs
  unfolding copies
  copies-map f same a [] = refl
  copies-map f same a (r ∷ rs) = rw (same r, copies-map f same a rs) refl

  -- A test parts a list.
  pub copies-keep :
      (test : Request Number → Bool) (a : ℕ) (rs : List (Request Number))
      → copies a (keep test rs) + copies a (keep (λ r. not (test r)) rs) ≡ copies a rs
  unfolding copies
  copies-keep test a [] = omega arith
  copies-keep test a (r ∷ rs) = elim (Bool-cases (test r)) [
    | inl t ↦ rw t (omega (arith, copies-keep test a rs))
    | inr t ↦ rw t (omega (arith, copies-keep test a rs))
  ]
