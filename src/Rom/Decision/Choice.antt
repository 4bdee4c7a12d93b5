-- ===== src/Rom/Decision/Choice.antt =====
-- distserve/rom_decision.py: what `make_decision` chooses, and how the bandwidth moves the choice.
use Prim.Native.String.{String}
use text.Mathlib.Text.{◌==◌ as str_eq}
use recompute_or_migrate.Base.{
  ℕ, zero, suc, ◌≡◌, refl, sym, ap, subst, ◌∙◌, ◌≢◌, inl, inr, Bool, true, false, arith,
  if◌then◌else◌, Bool-cases, ℤ, pos, negsuc, ok, >>=-eq-ok, ok-injective,
}
use recompute_or_migrate.Floats.{Floats, of_ℕ, IsOrdered, IsNumber}
use recompute_or_migrate.Rom.Config.{RomConfig}
use recompute_or_migrate.Rom.Decision.{
  Decision, migrate, recompute, compute_kv_size_bytes_from_config, compute_c_mig, compute_c_recomp,
  decide, make_decision,
}

module _ (F : Floats) where
  -- The estimated cost of the path that is taken, and of the other.
  abbrev pub cost : Decision → F.Carrier → F.Carrier → F.Carrier
  cost migrate c_mig c_recomp = c_mig
  cost recompute c_mig c_recomp = c_recomp

  abbrev pub other_cost : Decision → F.Carrier → F.Carrier → F.Carrier
  other_cost migrate c_mig c_recomp = c_recomp
  other_cost recompute c_mig c_recomp = c_mig

  -- A decision, taken apart.
  record Made (prompt_len : ℤ) (bandwidth : F.Carrier) (c : RomConfig F) (d : Decision)
      (m r : F.Carrier) : Type 0 where
    recomputation : compute_c_recomp F prompt_len c.prefill_time_table ≡ ok r
    migration : m ≡ compute_c_mig F (compute_kv_size_bytes_from_config F prompt_len c) bandwidth
    decided : d ≡ decide F c.policy m r

  make_decision-Made :
      (prompt_len : ℤ) (bandwidth : F.Carrier) (c : RomConfig F) (d : Decision) (m r : F.Carrier)
      → make_decision F prompt_len bandwidth c ≡ ok (d, m, r)
      → Made prompt_len bandwidth c d m r
  unfolding make_decision
  make_decision-Made prompt_len bandwidth c d m r e =
      let (r0, recomputed, e1) =
        >>=-eq-ok (compute_c_recomp F prompt_len c.prefill_time_table) _ e in
      subst (λ t. Made prompt_len bandwidth c t.0 t.1 t.2) (ok-injective e1)
        (record { recomputation = recomputed; migration = refl; decided = refl })

  decide_rom :
      (policy : String) (m r : F.Carrier)
      → str_eq policy "always_migrate" ≡ false
      → str_eq policy "always_recompute" ≡ false
      → decide F policy m r ≡ (if F.leq m r then migrate else recompute)
  unfolding decide
  decide_rom policy m r a b = rw (a, b)

  pick :
      {t : Bool} (u : Bool)
      → t ≡ u
      → (if t then migrate else recompute) ≡ (if u then migrate else recompute)
  pick u e = rw e

  true≢false : true ≢ false
  true≢false h = cc

  -- Unless the policy forces the path, the path that is taken is estimated to cost no more than the other,
  -- where both estimates are numbers.
  pub make_decision_cheaper :
      IsOrdered F
      → (prompt_len : ℤ) (bandwidth : F.Carrier) (c : RomConfig F) (d : Decision) (m r : F.Carrier)
      → str_eq c.policy "always_migrate" ≡ false
      → str_eq c.policy "always_recompute" ≡ false
      → IsNumber F m
      → IsNumber F r
      → make_decision F prompt_len bandwidth c ≡ ok (d, m, r)
      → F.leq (cost d m r) (other_cost d m r) ≡ true
  make_decision_cheaper o prompt_len bandwidth c d m r a b num_m num_r e =
      let chosen =
        (make_decision-Made prompt_len bandwidth c d m r e).decided ∙ decide_rom c.policy m r a b in
      elim (Bool-cases (F.leq m r)) [
        | inl yes_ ↦
            subst (λ x. F.leq (cost x m r) (other_cost x m r) ≡ true) (sym (chosen ∙ pick _ yes_))
              yes_
        | inr no_ ↦
            subst (λ x. F.leq (cost x m r) (other_cost x m r) ≡ true) (sym (chosen ∙ pick _ no_))
              (o.leq_total m r num_m num_r no_)
      ]

  still_up :
      IsOrdered F
      → (x y : F.Carrier) → F.leq x (of_ℕ F 0) ≡ false
      → F.leq x y ≡ true
      → F.leq y (of_ℕ F 0) ≡ false
  still_up o x y up le = elim (Bool-cases (F.leq y (of_ℕ F 0))) [
    | inl down ↦ absurd (true≢false (sym (o.leq_trans x y (of_ℕ F 0) le down) ∙ up))
    | inr fine ↦ fine
  ]

  c_mig_up :
      (n : ℕ) (x : F.Carrier)
      → F.leq x (of_ℕ F 0) ≡ false
      → compute_c_mig F (pos (suc n)) x ≡ F.div (of_ℕ F (suc n)) (F.mul x (of_ℕ F 1000000))
  unfolding compute_c_mig
  c_mig_up n x up = ground arith

  c_mig_negative : (n : ℕ) (x : F.Carrier) → compute_c_mig F (negsuc n) x ≡ F.infinity
  unfolding compute_c_mig
  c_mig_negative n x = ground arith

  c_mig_anti :
      IsOrdered F
      → (kv : ℤ) (x y : F.Carrier) → F.leq x (of_ℕ F 0) ≡ false
      → F.leq x y ≡ true
      → F.leq (compute_c_mig F kv y) (compute_c_mig F kv x) ≡ true
  unfolding compute_c_mig
  c_mig_anti o (negsuc n) x y up le = rw (c_mig_negative n x, c_mig_negative n y) o.infinite
  c_mig_anti o (pos zero) x y up le = rw (up, still_up o x y up le) (o.number (pos 0))
  c_mig_anti o (pos (suc n)) x y up le =
      rw (c_mig_up n x up, c_mig_up n y (still_up o x y up le))
        (o.div_anti (suc n) _ _ (o.mul_positive x 999999 up) (o.mul_mono x y 999999 le))

  decide_mono :
      IsOrdered F
      → (policy : String) (m m' r : F.Carrier) → F.leq m' m ≡ true
      → decide F policy m r ≡ migrate
      → decide F policy m' r ≡ migrate
  unfolding decide
  decide_mono o policy m m' r le e = elim (Bool-cases (F.leq m r)) [
    | inl yes_ ↦ ground (arith, o.leq_trans m' m r le yes_)
    | inr no_ ↦ ground arith
  ]

  -- A faster link never turns a migration into a recomputation: what is migrated over a link that is up is
  -- migrated at every greater bandwidth too.
  pub make_decision_bandwidth :
      IsOrdered F
      → (prompt_len : ℤ) (slow fast : F.Carrier) (c : RomConfig F) (d : Decision)
        (m r m' r' : F.Carrier)
      → F.leq slow (of_ℕ F 0) ≡ false
      → F.leq slow fast ≡ true
      → make_decision F prompt_len slow c ≡ ok (migrate, m, r)
      → make_decision F prompt_len fast c ≡ ok (d, m', r')
      → d ≡ migrate
  make_decision_bandwidth o prompt_len slow fast c d m r m' r' up le e e' =
      let x = make_decision-Made prompt_len slow c migrate m r e in
      let y = make_decision-Made prompt_len fast c d m' r' e' in
      let same : r ≡ r' = ok-injective (sym x.recomputation ∙ y.recomputation) in
      let cheaper : F.leq m' m ≡ true =
        rw (x.migration, y.migration)
          (c_mig_anti o (compute_kv_size_bytes_from_config F prompt_len c) slow fast up le) in
      y.decided
      ∙ ap (decide F c.policy m') (sym same)
      ∙ decide_mono o c.policy m m' r cheaper (sym x.decided)

  -- A link that is down is never chosen, unless the policy is to migrate always or the recomputation would
  -- never end: the cost of the migration is infinite.
  pub make_decision_down :
      (prompt_len : ℤ) (bandwidth : F.Carrier) (c : RomConfig F) (d : Decision) (m r : F.Carrier)
      → F.leq bandwidth (of_ℕ F 0) ≡ true
      → str_eq c.policy "always_migrate" ≡ false
      → F.leq F.infinity r ≡ false
      → make_decision F prompt_len bandwidth c ≡ ok (d, m, r)
      → (d ≡ recompute) × (m ≡ F.infinity)
  unfolding compute_c_mig decide
  make_decision_down prompt_len bandwidth c d m r down a finite e =
      let x = make_decision-Made prompt_len bandwidth c d m r e in
      let infinite : m ≡ F.infinity = x.migration ∙ rw down in
      (x.decided ∙ ground (arith, ap (λ v. F.leq v r) infinite ∙ finite, a), infinite)
