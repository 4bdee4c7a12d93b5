-- ===== src/Simulator/Configs/Members.antt =====
-- simdistserve/benchmarks/search_configs.py: entries of lists, and divisors.
use native.Mathlib.Nat.{mod-eq_of_lt}
use recompute_or_migrate.Base.{
  ℕ, zero, suc, ◌+◌, ◌%◌, ◌≤◌, ◌<◌, ◌≡◌, refl, sym, ap, subst, ◌∙◌, ◌⊎◌, inl, inr, Bool, true, List,
  [], ◌∷◌, ◌++◌, map, arith, ltb, ◌==◌, ltb→lt, Bool-cases, if_true, if_false, if_both, keep,
  range_from, total,
}
use recompute_or_migrate.Simulator.Configs.{divisors, mem_ℕ, each}

-- An entry of a list.
abbrev pub Has : {A : Type 0} → A → List A → Type 0
Has a [] = ⊥
Has a (x ∷ xs) = (a ≡ x) ⊎ Has a xs

module _ {A : Type 0} where
  Has-append_left : (a : A) (xs ys : List A) → Has a xs → Has a (xs ++ ys)
  Has-append_left a [] ys h = elim h [ ]
  Has-append_left a (x ∷ xs) ys (inl e) = inl e
  Has-append_left a (x ∷ xs) ys (inr h) = inr (Has-append_left a xs ys h)

  Has-append_right : (a : A) (xs ys : List A) → Has a ys → Has a (xs ++ ys)
  Has-append_right a [] ys h = h
  Has-append_right a (x ∷ xs) ys h = inr (Has-append_right a xs ys h)

  Has-append_cases : (a : A) (xs ys : List A) → Has a (xs ++ ys) → Has a xs ⊎ Has a ys
  Has-append_cases a [] ys h = inr h
  Has-append_cases a (x ∷ xs) ys (inl e) = inl (inl e)
  Has-append_cases a (x ∷ xs) ys (inr h) = elim (Has-append_cases a xs ys h) [
    | inl k ↦ inl (inr k)
    | inr k ↦ inr k
  ]

  pub kept : (p : A → Bool) (a : A) (xs : List A) → Has a (keep p xs) → Has a xs × (p a ≡ true)
  kept p a [] h = elim h [ ]
  kept p a (x ∷ xs) h = elim (Bool-cases (p x)) [
    | inl t ↦ elim (subst (Has a) (if_true (p x) (x ∷ keep p xs) (keep p xs) t) h) [
      | inl e ↦ (inl e, ap p e ∙ t)
      | inr k ↦ let (k', u) = kept p a xs k in (inr k', u)
    ]
    | inr t ↦
        let (k', u) =
          kept p a xs (subst (Has a) (if_false (p x) (x ∷ keep p xs) (keep p xs) t) h) in
        (inr k', u)
  ]

  pub keeps : (p : A → Bool) (a : A) (xs : List A) → Has a xs → p a ≡ true → Has a (keep p xs)
  keeps p a [] h t = h
  keeps p a (x ∷ xs) (inl e) t =
      subst (Has a) (sym (if_true (p x) (x ∷ keep p xs) (keep p xs) (ap p (sym e) ∙ t))) (inl e)
  keeps p a (x ∷ xs) (inr h) t =
      if_both (Has a) (p x) (x ∷ keep p xs) (keep p xs) (inr (keeps p a xs h t)) (keeps p a xs h t)

module _ {A B : Type 0} where
  pub Has-each :
      (f : A → List B) (a : A) (b : B) (xs : List A) → Has a xs → Has b (f a) → Has b (each xs f)
  unfolding each
  Has-each f a b [] h k = elim h [ ]
  Has-each f a b (x ∷ xs) (inl e) k =
      Has-append_left b (f x) (each xs f) (subst (λ (y : A). Has b (f y)) e k)
  Has-each f a b (x ∷ xs) (inr h) k = Has-append_right b (f x) (each xs f) (Has-each f a b xs h k)

  pub each_cases :
      (f : A → List B) (b : B) (xs : List A) → Has b (each xs f) → (a : A) × Has a xs × Has b (f a)
  unfolding each
  each_cases f b [] h = elim h [ ]
  each_cases f b (x ∷ xs) h = elim (Has-append_cases b (f x) (each xs f) h) [
    | inl k ↦ (x, inl refl, k)
    | inr k ↦ let (a, m, n) = each_cases f b xs k in (a, inr m, n)
  ]

  pub Has-map : (f : A → B) (a : A) (xs : List A) → Has a xs → Has (f a) (map f xs)
  Has-map f a [] h = elim h [ ]
  Has-map f a (x ∷ xs) (inl e) = inl (ap f e)
  Has-map f a (x ∷ xs) (inr h) = inr (Has-map f a xs h)

  pub map_cases :
      (f : A → B) (b : B) (xs : List A) → Has b (map f xs) → (a : A) × Has a xs × (b ≡ f a)
  map_cases f b [] h = elim h [ ]
  map_cases f b (x ∷ xs) (inl e) = (x, inl refl, e)
  map_cases f b (x ∷ xs) (inr h) = let (a, m, e) = map_cases f b xs h in (a, inr m, e)

pub mem_ℕ→Has : (k : ℕ) (ks : List ℕ) → mem_ℕ k ks ≡ true → Has k ks
mem_ℕ→Has k [] h = cc
mem_ℕ→Has k (j ∷ ks) h = elim (Bool-cases (j == k)) [
  | inl t ↦ inl (ground (arith, t))
  | inr t ↦ inr (mem_ℕ→Has k ks (ground (arith, t, h)))
]

pub Has→mem_ℕ : (k : ℕ) (ks : List ℕ) → Has k ks → mem_ℕ k ks ≡ true
Has→mem_ℕ k [] h = elim h [ ]
Has→mem_ℕ k (j ∷ ks) (inl e) = ground (arith, e)
Has→mem_ℕ k (j ∷ ks) (inr h) = ground (arith, Has→mem_ℕ k ks h)

-- A positive divisor.
pub record Divides (k total : ℕ) : Type 0 where
  pub positive : 0 < k
  pub no_rest : total % k ≡ 0

range_from_bounds : (k i n : ℕ) → Has k (range_from i n) → (i ≤ k) × (k < i + n)
range_from_bounds k i zero h = elim h [ ]
range_from_bounds k i (suc n) (inl e) = omega (arith, e)
range_from_bounds k i (suc n) (inr h) = omega (arith, range_from_bounds k (suc i) n h)

Has-range_from : (k i n : ℕ) → i ≤ k → k < i + n → Has k (range_from i n)
Has-range_from k i zero p q = absurd (omega (arith, p, q))
Has-range_from k i (suc n) p q = elim (Bool-cases (k == i)) [
  | inl t ↦ inl (ground (arith, t))
  | inr t ↦ inr (Has-range_from k (suc i) n (ground (arith, t, p)) (omega (arith, q)))
]

pub divisor : (k total : ℕ) → Has k (divisors total) → Divides k total
unfolding divisors
divisor k total h =
    let (inside, t) = kept (λ j. total % j == 0) k (range_from 1 total) h in
    record {
      positive = omega (arith, range_from_bounds k 1 total inside);
      no_rest = ground (arith, t);
    }

divisor-le : (k total : ℕ) → 0 < total → total % k ≡ 0 → k ≤ total
divisor-le k total p h = elim (Bool-cases (ltb total k)) [
  | inl t ↦ absurd (omega (arith, p, h, mod-eq_of_lt {n = total} {m = k} (ltb→lt total k t)))
  | inr t ↦ ground (arith, t)
]

pub Has-divisors : (k total : ℕ) → 0 < total → Divides k total → Has k (divisors total)
unfolding divisors
Has-divisors k total some_total d =
    keeps (λ j. total % j == 0) k (range_from 1 total)
      (Has-range_from k 1 total (omega (arith, d.positive))
        (omega (arith, divisor-le k total some_total d.no_rest)))
      (ground (arith, d.no_rest))
