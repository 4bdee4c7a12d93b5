-- ===== src/Rom/Decision/Breakpoints.antt =====
-- distserve/rom_decision.py: at a length of the table the cost of a recomputation is the measured one.
use recompute_or_migrate.Base.{
  ℕ, zero, suc, ◌+◌, ◌-◌, ◌≤◌, ◌<◌, ◌≡◌, sym, ap, subst, ◌∙◌, ◌⊎◌, inl, inr, true, false, some,
  List, [], ◌∷◌, map, arith, leb, leb→le, Bool-cases, if_true, if_false, length, All, pos, ◌-ℤ◌,
  Dict, lookup, Distinct, ok, >>=-ok, ok-injective,
}
use recompute_or_migrate.Floats.{Floats, of_ℕ, IsPositive, StartsExactly}
use recompute_or_migrate.Rom.Decision.{
  sorted, bisect_right, at, between, interpolate_inside, interpolate_from, interpolate,
  compute_c_recomp,
}
use recompute_or_migrate.Rom.Decision.Sorting.{
  Increasing, Position, lookup-Position, at-Increasing, lookup-sorted, All-sorted,
  sorted-Increasing,
}
use recompute_or_migrate.Rom.Decision.Tables.{at_total, length-map}

at-length : {A : Type 0} (xs : List A) (i : ℕ) (a : A) → at xs i ≡ ok a → i < length xs
at-length [] i a e = cc
at-length (x ∷ xs) zero a e = omega arith
at-length (x ∷ xs) (suc i) a e = omega (arith, at-length xs i a e)

at-All :
    {A : Type 0} (P : A → Type 0) (d : Dict A) (i : ℕ) (a : A)
    → All (λ e. P e.1) d
    → at (map (λ e. e.1) d) i ≡ ok a
    → P a
at-All P [] i a h e = cc
at-All P (x ∷ d) zero a h e = subst P (ok-injective e) h.0
at-All P (x ∷ d) (suc i) a h e = at-All P d i a h.1 e

no_distance : (k : ℕ) → pos k -ℤ pos k ≡ pos 0
unfolding ◌-ℤ◌
no_distance k = ground arith

distance : (k h : ℕ) → k < h → pos h -ℤ pos k ≡ pos (h - k - 1 + 1)
unfolding ◌-ℤ◌
distance k h l = ground (arith, l)

number_cases : (a b : ℕ) → (a ≡ b) ⊎ ((a < b) ⊎ (b < a))
number_cases a b = ground arith

module _ {V : Type 0} where
  -- No key is less than the first, or greater than the last.
  first_value :
      (d : Dict V) (k : ℕ) (v : V) (p : Position d k v) (first : ℕ)
      → at (map (λ e. e.0) d) 0 ≡ ok first
      → Increasing d
      → leb k first ≡ true
      → at (map (λ e. e.1) d) 0 ≡ ok v
  first_value d k v p first e i low = elim (number_cases 0 p.position) [
    | inl here ↦ subst (λ n. at (map (λ e. e.1) d) n ≡ ok v) (sym here) p.value
    | inr (inl later) ↦
        let less = at-Increasing d 0 p.position first k i e p.key later in
        absurd (omega (arith, less, leb→le k first low))
    | inr (inr never) ↦ absurd (omega (arith, never))
  ]

  last_value :
      (d : Dict V) (k : ℕ) (v : V) (p : Position d k v) (last : ℕ)
      → at (map (λ e. e.0) d) (length (map (λ e. e.0) d) - 1) ≡ ok last
      → Increasing d
      → leb last k ≡ true
      → at (map (λ e. e.1) d) (length (map (λ e. e.1) d) - 1) ≡ ok v
  last_value d k v p last e i high =
      let size = length-map {B = ℕ} (λ q. q.0) d in
      let size_too = length-map {B = V} (λ q. q.1) d in
      let inside = at-length (map (λ q. q.0) d) p.position k p.key in
      elim (number_cases p.position (length (map (λ q. q.1) d) - 1)) [
        | inl here ↦ subst (λ n. at (map (λ q. q.1) d) n ≡ ok v) here p.value
        | inr (inl earlier) ↦
            let less =
              at-Increasing d p.position (length (map (λ q. q.0) d) - 1) k last i p.key e
                (omega (arith, earlier, size, size_too)) in
            absurd (omega (arith, less, leb→le last k high))
        | inr (inr never) ↦ absurd (omega (arith, never, inside, size, size_too))
      ]

  not_last :
      (d : Dict V) (k : ℕ) (v : V) (p : Position d k v) (last : ℕ)
      → at (map (λ e. e.0) d) (length (map (λ e. e.0) d) - 1) ≡ ok last
      → leb last k ≡ false
      → suc p.position < length (map (λ e. e.0) d)
  not_last d k v p last e below =
      let inside = at-length (map (λ q. q.0) d) p.position k p.key in
      elim (number_cases p.position (length (map (λ q. q.0) d) - 1)) [
        | inl here ↦
            let same : k ≡ last = ok-injective (sym p.key ∙ ap (at (map (λ q. q.0) d)) here ∙ e) in
            absurd (ground (arith, same, below))
        | inr (inl earlier) ↦ omega (arith, earlier)
        | inr (inr never) ↦ absurd (omega (arith, never, inside))
      ]

module _ (F : Floats) where
  between_start :
      StartsExactly F
      → (k h : ℕ) (t u : F.Carrier) → k < h
      → IsPositive F t
      → IsPositive F u
      → between F k t h u k ≡ t
  between_start exact k h t u l p q =
      ap (λ z. F.add t (F.mul (F.div (F.of_int z) (F.of_int (pos h -ℤ pos k))) (F.sub u t)))
        (no_distance k)
      ∙ ap (λ z. F.add t (F.mul (F.div (of_ℕ F 0) (F.of_int z)) (F.sub u t))) (distance k h l)
      ∙ exact t u (h - k - 1) p q

  inside_at :
      (ks : List ℕ) (vs : List F.Carrier) (x i lo hi : ℕ) (t u : F.Carrier)
      → bisect_right ks x ≡ suc i
      → at ks i ≡ ok lo
      → at ks (suc i) ≡ ok hi
      → at vs i ≡ ok t
      → at vs (suc i) ≡ ok u
      → interpolate_inside F ks vs x ≡ ok (between F lo t hi u x)
  unfolding interpolate_inside
  inside_at ks vs x i lo hi t u b e1 e2 e3 e4 =
      let before : bisect_right ks x - 1 ≡ i = omega (arith, b) in
      >>=-ok _ (ap (at ks) before ∙ e1)
      ∙ >>=-ok _ (ap (at ks) b ∙ e2)
      ∙ >>=-ok _ (ap (at vs) before ∙ e3)
      ∙ >>=-ok _ (ap (at vs) b ∙ e4)

  interpolate_entry :
      StartsExactly F
      → (d : Dict F.Carrier) (k : ℕ) (v : F.Carrier) → Increasing d
      → All (λ e. IsPositive F e.1) d
      → Position d k v
      → interpolate F (map (λ e. e.0) d) (map (λ e. e.1) d) k ≡ ok v
  unfolding interpolate interpolate_from
  interpolate_entry exact d k v i positive p =
      let inside = at-length (map (λ e. e.0) d) p.position k p.key in
      let left = length-map {B = ℕ} (λ e. e.0) d in
      let right = length-map {B = F.Carrier} (λ e. e.1) d in
      let (first, e_first) = at_total (map (λ e. e.0) d) 0 (omega (arith, inside)) in
      let (last, e_last) =
        at_total (map (λ e. e.0) d) (length (map (λ e. e.0) d) - 1) (omega (arith, inside)) in
      elim (Bool-cases (leb k first)) [
        | inl low ↦
            >>=-ok _ e_first
            ∙ >>=-ok _ e_last
            ∙ if_true _ _ _ low
            ∙ first_value d k v p first e_first i low
        | inr above ↦ elim (Bool-cases (leb last k)) [
          | inl high ↦
              >>=-ok _ e_first
              ∙ >>=-ok _ e_last
              ∙ if_false _ _ _ above
              ∙ if_true _ _ _ high
              ∙ last_value d k v p last e_last i high
          | inr below ↦
              >>=-ok _ e_first
              ∙ >>=-ok _ e_last
              ∙ if_false _ _ _ above
              ∙ if_false _ _ _ below
              ∙ (let more = not_last d k v p last e_last below in
                  let (h, e_h) = at_total (map (λ e. e.0) d) (suc p.position) more in
                  let (u, e_u) =
                    at_total (map (λ e. e.1) d) (suc p.position)
                      (omega (arith, more, left, right)) in
                  inside_at _ _ k p.position k h v u p.bisected p.key e_h p.value e_u
                  ∙ ap ok (
                      between_start exact k h v u
                        (at-Increasing d p.position (suc p.position) k h i p.key e_h (omega arith))
                        (at-All (IsPositive F) d p.position v positive p.value)
                        (at-All (IsPositive F) d (suc p.position) u positive e_u)))
        ]
      ]

  -- For the prompt lengths of a table of positive latencies, in whatever order it lists them, the cost of the
  -- recomputation is the latency of the table, where the start of a segment is computed exactly.
  pub compute_c_recomp_entry :
      StartsExactly F
      → (d : Dict F.Carrier) (k : ℕ) (v : F.Carrier) → Distinct d
      → All (λ e. IsPositive F e.1) d
      → 1 ≤ k
      → lookup k d ≡ some v
      → compute_c_recomp F (pos k) d ≡ ok v
  unfolding compute_c_recomp lookup
  compute_c_recomp_entry exact [] k v h positive some_ e = cc
  compute_c_recomp_entry exact (x ∷ d) zero v h positive some_ e = absurd (omega (arith, some_))
  compute_c_recomp_entry exact (x ∷ d) (suc k) v h positive some_ e =
      let i = sorted-Increasing (x ∷ d) h in
      interpolate_entry exact (sorted (x ∷ d)) (suc k) v i (All-sorted _ (x ∷ d) positive)
        (lookup-Position (sorted (x ∷ d)) (suc k) v i (lookup-sorted (suc k) (x ∷ d) h ∙ e))
