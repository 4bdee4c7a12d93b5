-- ===== src/Rom/Decision/Tables.antt =====
-- distserve/rom_decision.py: a table with an entry has a latency for every prompt.
use recompute_or_migrate.Base.{
  ℕ, zero, suc, ◌-◌, ◌≤◌, ◌<◌, ◌≡◌, refl, sym, ap, ◌∙◌, ◌≢◌, inl, inr, false, List, [], ◌∷◌, map,
  arith, leb, Bool-cases, if_true, if_false, length, ℤ, pos, negsuc, Dict, ok, >>=-ok,
}
use recompute_or_migrate.Floats.{Floats, of_ℕ}
use recompute_or_migrate.Rom.Config.{RomConfig}
use recompute_or_migrate.Rom.Decision.{
  Decision, insert_sorted, sorted, bisect_right, at, interpolate_inside, interpolate_from,
  interpolate, compute_c_recomp, make_decision,
}

-- An index within a list.
pub at_total : {A : Type 0} (xs : List A) (i : ℕ) → i < length xs → (a : A) × (at xs i ≡ ok a)
at_total [] i h = absurd (omega (arith, h))
at_total (x ∷ xs) zero h = (x, refl)
at_total (x ∷ xs) (suc i) h = at_total xs i (omega (arith, h))

bisect_right-at_least :
    (ks : List ℕ) (x first : ℕ) → at ks 0 ≡ ok first → leb x first ≡ false → 1 ≤ bisect_right ks x
unfolding bisect_right
bisect_right-at_least [] x first e h = cc
bisect_right-at_least (k ∷ ks) x first e h = ground (arith, h, e)

-- `xs[-1]` of the rest of a list.
last_of_rest :
    (k j : ℕ) (ks : List ℕ)
    → at (j ∷ ks) (length (j ∷ ks) - 1) ≡ at (k ∷ j ∷ ks) (length (k ∷ j ∷ ks) - 1)
last_of_rest k j ks =
    let one_more : suc (length (j ∷ ks) - 1) ≡ length (k ∷ j ∷ ks) - 1 = omega arith in
    ap (at (k ∷ j ∷ ks)) one_more

bisect_right-below :
    (ks : List ℕ) (x last : ℕ)
    → at ks (length ks - 1) ≡ ok last
    → leb last x ≡ false
    → bisect_right ks x < length ks
unfolding bisect_right
bisect_right-below [] x last e h = cc
bisect_right-below (k ∷ []) x last e h = ground (arith, h, e)
bisect_right-below (k ∷ j ∷ ks) x last e h =
    ground (arith, bisect_right-below (j ∷ ks) x last (last_of_rest k j ks ∙ e) h)

insert_sorted-length :
    {V : Type 0} (k : ℕ) (v : V) (d : Dict V) → length (insert_sorted k v d) ≡ suc (length d)
unfolding insert_sorted
insert_sorted-length k v [] = refl
insert_sorted-length k v ((j, w) ∷ d) = ground (arith, insert_sorted-length k v d)

sorted-length : {V : Type 0} (d : Dict V) → length (sorted d) ≡ length d
unfolding sorted
sorted-length [] = refl
sorted-length ((k, v) ∷ d) = omega (arith, insert_sorted-length k v (sorted d), sorted-length d)

pub length-map : {A B : Type 0} (f : A → B) (xs : List A) → length (map f xs) ≡ length xs
length-map f [] = refl
length-map f (x ∷ xs) = ap suc (length-map f xs)

module _ (F : Floats) where
  interpolate_total :
      (ks : List ℕ) (vs : List F.Carrier) (x : ℕ)
      → length ks ≡ length vs
      → 1 ≤ length ks
      → (v : F.Carrier) × (interpolate F ks vs x ≡ ok v)
  unfolding interpolate interpolate_from interpolate_inside
  interpolate_total ks vs x same there =
      let (first, e_first) = at_total ks 0 (omega (arith, there)) in
      let (last, e_last) = at_total ks (length ks - 1) (omega (arith, there)) in
      elim (Bool-cases (leb x first)) [
        | inl low ↦
            let (v, e) = at_total vs 0 (omega (arith, there, same)) in
            (v, >>=-ok _ e_first ∙ >>=-ok _ e_last ∙ if_true _ _ _ low ∙ e)
        | inr above ↦ elim (Bool-cases (leb last x)) [
          | inl high ↦
              let (v, e) = at_total vs (length vs - 1) (omega (arith, there, same)) in
              (
                v,
                >>=-ok _ e_first ∙ >>=-ok _ e_last ∙ if_false _ _ _ above ∙ if_true _ _ _ high ∙ e,
              )
          | inr below ↦
              let least_ = bisect_right-at_least ks x first e_first above in
              let most = bisect_right-below ks x last e_last below in
              let (lo, e1) = at_total ks (bisect_right ks x - 1) (omega (arith, most)) in
              let (hi, e2) = at_total ks (bisect_right ks x) most in
              let (t_lo, e3) = at_total vs (bisect_right ks x - 1) (omega (arith, most, same)) in
              let (t_hi, e4) = at_total vs (bisect_right ks x) (omega (arith, most, same)) in
              (
                _,
                >>=-ok _ e_first
                    ∙ >>=-ok _ e_last
                    ∙ if_false _ _ _ above
                    ∙ if_false _ _ _ below
                    ∙ >>=-ok _ e1
                    ∙ >>=-ok _ e2
                    ∙ >>=-ok _ e3
                    ∙ >>=-ok _ e4,
              )
        ]
      ]

  compute_c_recomp_total :
      (n : ℤ) (d : Dict F.Carrier) → d ≢ [] → (v : F.Carrier) × (compute_c_recomp F n d ≡ ok v)
  unfolding compute_c_recomp
  compute_c_recomp_total n [] h = absurd (h refl)
  compute_c_recomp_total (negsuc n) (p ∷ d) h = (of_ℕ F 0, refl)
  compute_c_recomp_total (pos zero) (p ∷ d) h = (of_ℕ F 0, refl)
  compute_c_recomp_total (pos (suc n)) (p ∷ d) h =
      let size = sorted-length (p ∷ d) in
      let left = length-map {B = ℕ} (λ q. q.0) (sorted (p ∷ d)) in
      let right = length-map {B = F.Carrier} (λ q. q.1) (sorted (p ∷ d)) in
      interpolate_total _ _ (suc n) (left ∙ sym right) (omega (arith, left, size))

  -- With an entry in the table a decision is made for every prompt and every bandwidth: no length lies
  -- outside the segments of the table.
  pub make_decision_total :
      (n : ℤ) (bandwidth : F.Carrier) (c : RomConfig F)
      → c.prefill_time_table ≢ []
      → (d : Decision) × (m r : F.Carrier) × (make_decision F n bandwidth c ≡ ok (d, m, r))
  unfolding make_decision
  make_decision_total n bandwidth c h =
      let (r, e) = compute_c_recomp_total n c.prefill_time_table h in (_, _, r, >>=-ok _ e)
