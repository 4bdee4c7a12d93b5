-- ===== src/Rom/Decision/Sorting.antt =====
-- distserve/rom_decision.py: the table sorted by its keys holds the same entries, in ascending order.
use recompute_or_migrate.Base.{
  ℕ, zero, suc, ◌<◌, ◌≡◌, refl, sym, ap, subst, ◌∙◌, inl, inr, none, some, [], ◌∷◌, map, arith, leb,
  ◌==◌, if◌then◌else◌, Bool-cases, if_true, if_false, if_both, All, Dict, lookup, Distinct, ok,
  ok-injective,
}
use recompute_or_migrate.Rom.Decision.{insert_sorted, sorted, bisect_right, at}

module _ {V : Type 0} where
  -- Each key is less than all after it.
  abbrev pub Increasing : Dict V → Type 0
  Increasing [] = Unit
  Increasing ((k, v) ∷ d) = All (λ e. k < e.0) d × Increasing d

  pub lookup-insert_sorted :
      (k x : ℕ) (v : V) (d : Dict V)
      → lookup k d ≡ none
      → lookup x (insert_sorted k v d) ≡ (if k == x then some v else lookup x d)
  unfolding lookup insert_sorted
  lookup-insert_sorted k x v [] h = refl
  lookup-insert_sorted k x v ((j, w) ∷ d) h = ground (arith, lookup-insert_sorted k x v d)

  pub lookup-sorted : (x : ℕ) (d : Dict V) → Distinct d → lookup x (sorted d) ≡ lookup x d
  unfolding lookup sorted
  lookup-sorted x [] h = refl
  lookup-sorted x ((k, v) ∷ d) h =
      lookup-insert_sorted k x v (sorted d) (lookup-sorted k d h.1 ∙ h.0)
      ∙ ap (λ o. if k == x then some v else o) (lookup-sorted x d h.1)

  All-insert_sorted :
      (P : ℕ × V → Type 0) (k : ℕ) (v : V) (d : Dict V)
      → P (k, v)
      → All P d
      → All P (insert_sorted k v d)
  unfolding insert_sorted
  All-insert_sorted P k v [] p a = (p, tt)
  All-insert_sorted P k v ((j, w) ∷ d) p a =
      if_both (All P) (leb k j) _ _ (p, (a.0, a.1)) (a.0, All-insert_sorted P k v d p a.1)

  pub All-sorted : (P : ℕ × V → Type 0) (d : Dict V) → All P d → All P (sorted d)
  unfolding sorted
  All-sorted P [] a = tt
  All-sorted P ((k, v) ∷ d) a = All-insert_sorted P k v (sorted d) a.0 (All-sorted P d a.1)

  above : (k j : ℕ) (d : Dict V) → k < j → All (λ e. j < e.0) d → All (λ e. k < e.0) d
  above k j [] l a = tt
  above k j (e ∷ d) l a = (omega (arith, l, a.0), above k j d l a.1)

  insert_sorted-Increasing :
      (k : ℕ) (v : V) (d : Dict V)
      → lookup k d ≡ none
      → Increasing d
      → Increasing (insert_sorted k v d)
  unfolding insert_sorted lookup
  insert_sorted-Increasing k v [] h i = (tt, tt)
  insert_sorted-Increasing k v ((j, w) ∷ d) h i = elim (Bool-cases (leb k j)) [
    | inl small ↦
        let less : k < j = ground (arith, small, h) in
        subst Increasing (sym (if_true (leb k j) _ _ small))
          ((less, above k j d less i.0), (i.0, i.1))
    | inr large ↦
        let more : j < k = ground (arith, large) in
        let absent : lookup k d ≡ none = ground (arith, h, large) in
        subst Increasing (sym (if_false (leb k j) _ _ large)) (
          All-insert_sorted (λ e. j < e.0) k v d more i.0,
          insert_sorted-Increasing k v d absent i.1,
        )
  ]

  pub sorted-Increasing : (d : Dict V) → Distinct d → Increasing (sorted d)
  unfolding sorted
  sorted-Increasing [] h = tt
  sorted-Increasing ((k, v) ∷ d) h =
      insert_sorted-Increasing k v (sorted d) (lookup-sorted k d h.1 ∙ h.0)
        (sorted-Increasing d h.1)

  bisect_right-zero :
      (k : ℕ) (d : Dict V) → All (λ e. k < e.0) d → bisect_right (map (λ e. e.0) d) k ≡ 0
  unfolding bisect_right
  bisect_right-zero k [] a = refl
  bisect_right-zero k ((j, w) ∷ d) a = ground (arith, a.0)

  -- Where an entry stands, and what `bisect_right` says of its key.
  pub record Position (d : Dict V) (k : ℕ) (v : V) : Type 0 where
    pub position : ℕ
    pub key : at (map (λ e. e.0) d) position ≡ ok k
    pub value : at (map (λ e. e.1) d) position ≡ ok v
    pub bisected : bisect_right (map (λ e. e.0) d) k ≡ suc position

  lookup-above : (j k : ℕ) (v : V) (d : Dict V) → All (λ e. j < e.0) d → lookup k d ≡ some v → j < k
  unfolding lookup
  lookup-above j k v [] a h = cc
  lookup-above j k v ((i, w) ∷ d) a h = ground (arith, a.0, lookup-above j k v d a.1)

  pub lookup-Position :
      (d : Dict V) (k : ℕ) (v : V) → Increasing d → lookup k d ≡ some v → Position d k v
  unfolding lookup bisect_right
  lookup-Position [] k v i h = cc
  lookup-Position ((j, w) ∷ d) k v i h = elim (Bool-cases (j == k)) [
    | inl same ↦
        let e : j ≡ k = ground (arith, same) in
        record {
          position = 0;
          key = ap ok e;
          value = ground (arith, same, h);
          bisected =
              ground (arith, e, bisect_right-zero k d (subst (λ x. All (λ q. x < q.0) d) e i.0));
        }
    | inr other ↦
        let later : lookup k d ≡ some v = ground (arith, other, h) in
        let p = lookup-Position d k v i.1 later in
        record {
          position = suc p.position;
          key = p.key;
          value = p.value;
          bisected = ground (arith, p.bisected, lookup-above j k v d i.0 later);
        }
  ]

  at-above :
      (k : ℕ) (d : Dict V) (b y : ℕ) → All (λ e. k < e.0) d → at (map (λ e. e.0) d) b ≡ ok y → k < y
  at-above k [] b y a q = cc
  at-above k (e ∷ d) zero y a q = subst (λ z. k < z) (ok-injective q) a.0
  at-above k (e ∷ d) (suc b) y a q = at-above k d b y a.1 q

  -- Keys at greater positions are greater.
  pub at-Increasing :
      (d : Dict V) (a b x y : ℕ)
      → Increasing d
      → at (map (λ e. e.0) d) a ≡ ok x
      → at (map (λ e. e.0) d) b ≡ ok y
      → a < b
      → x < y
  at-Increasing [] a b x y i p q l = cc
  at-Increasing ((k, v) ∷ d) zero zero x y i p q l = omega (arith, l)
  at-Increasing ((k, v) ∷ d) (suc a) zero x y i p q l = omega (arith, l)
  at-Increasing ((k, v) ∷ d) zero (suc b) x y i p q l =
      subst (λ u. u < y) (ok-injective p) (at-above k d b y i.0 q)
  at-Increasing ((k, v) ∷ d) (suc a) (suc b) x y i p q l =
      at-Increasing d a b x y i.1 p q (omega (arith, l))
