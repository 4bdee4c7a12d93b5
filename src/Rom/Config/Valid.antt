-- ===== src/Rom/Config/Valid.antt =====
-- distserve/rom_config.py: which configurations pass `validate`, and what `from_env` yields.
use recompute_or_migrate.Base.{
  ◌≡◌, refl, sym, ap, subst, ◌≢◌, ◌↔◌, ◌⊎◌, inl, inr, Bool, true, false, not, [], ◌∷◌, arith, ℤ,
  pos, negsuc, ◌≤ℤ◌, leb_ℤ, Dict, value_error, ok, guard, >>=-eq-ok, ok-injective, guard-eq-ok,
}
use recompute_or_migrate.Config.{mem_policy}
use recompute_or_migrate.Floats.{Floats, of_ℕ}
use recompute_or_migrate.Rom.Config.{
  RomConfig, Environment, valid_policies, default_table, is_valid_dtype, is_empty_table, validate,
  override_float, override_int, overridden, from_env,
}

-- A configuration that the program can work with.
pub record IsValid (F : Floats) (c : RomConfig F) : Type 0 where
  pub policy : mem_policy c.policy valid_policies ≡ true
  pub bandwidth : F.leq c.sim_bandwidth_mbps (of_ℕ F 0) ≡ false
  pub interval : F.leq c.monitor_interval_s (of_ℕ F 0) ≡ false
  pub layers : pos 1 ≤ℤ c.num_layers
  pub heads : pos 1 ≤ℤ c.num_kv_heads
  pub dim : pos 1 ≤ℤ c.head_dim
  pub bytes : (c.dtype_bytes ≡ pos 1) ⊎ ((c.dtype_bytes ≡ pos 2) ⊎ (c.dtype_bytes ≡ pos 4))
  pub table : c.prefill_time_table ≢ []

module _ (F : Floats) where
  positive : (z : ℤ) → not (leb_ℤ z (pos 0)) ≡ true → pos 1 ≤ℤ z
  positive (pos n) h = ground arith
  positive (negsuc n) h = ground arith

  positive_test : (z : ℤ) → pos 1 ≤ℤ z → not (leb_ℤ z (pos 0)) ≡ true
  positive_test (pos n) h = ground arith
  positive_test (negsuc n) h = ground arith

  dtype : (z : ℤ) → is_valid_dtype F z ≡ true → (z ≡ pos 1) ⊎ ((z ≡ pos 2) ⊎ (z ≡ pos 4))
  dtype (pos n) h = ground arith
  dtype (negsuc n) h = cc

  dtype_test : (z : ℤ) → (z ≡ pos 1) ⊎ ((z ≡ pos 2) ⊎ (z ≡ pos 4)) → is_valid_dtype F z ≡ true
  dtype_test z (inl e) = rw e
  dtype_test z (inr (inl e)) = rw e
  dtype_test z (inr (inr e)) = rw e

  false_of : (t : Bool) → not t ≡ true → t ≡ false
  false_of false h = refl
  false_of true h = cc

  last_guard : (t : Bool) → guard t value_error ≡ ok tt → t ≡ true
  last_guard true h = refl
  last_guard false h = cc

  table_there : (d : Dict F.Carrier) → not (is_empty_table F d) ≡ true → d ≢ []
  table_there [] h e = cc
  table_there (x ∷ d) h e = cc

  table_test : (d : Dict F.Carrier) → d ≢ [] → not (is_empty_table F d) ≡ true
  table_test [] h = absurd (h refl)
  table_test (x ∷ d) h = refl

  validate-IsValid : (c : RomConfig F) → validate F c ≡ ok tt → IsValid F c
  unfolding validate
  validate-IsValid c e =
      let (policy, e1) = guard-eq-ok _ value_error _ e in
      let (bandwidth, e2) = guard-eq-ok _ value_error _ e1 in
      let (interval, e3) = guard-eq-ok _ value_error _ e2 in
      let (layers, e4) = guard-eq-ok _ value_error _ e3 in
      let (heads, e5) = guard-eq-ok _ value_error _ e4 in
      let (dim, e6) = guard-eq-ok _ value_error _ e5 in
      let (bytes, e7) = guard-eq-ok _ value_error _ e6 in
      record {
        policy = policy;
        bandwidth = false_of _ bandwidth;
        interval = false_of _ interval;
        layers = positive c.num_layers layers;
        heads = positive c.num_kv_heads heads;
        dim = positive c.head_dim dim;
        bytes = dtype c.dtype_bytes bytes;
        table = table_there c.prefill_time_table (last_guard _ e7);
      }

  -- `validate` passes exactly the configurations with a known policy, a bandwidth and an interval that are
  -- not zero or less, a positive architecture, elements of one, two or four bytes, and a table.
  pub validate-ok_iff : (c : RomConfig F) → (validate F c ≡ ok tt) ↔ IsValid F c
  unfolding validate
  validate-ok_iff c = (
    validate-IsValid c,
    λ v. rw (
      v.policy,
      v.bandwidth,
      v.interval,
      positive_test _ v.layers,
      positive_test _ v.heads,
      positive_test _ v.dim,
      dtype_test _ v.bytes,
      table_test _ v.table,
    ),
  )

  overridden-table :
      (env : Environment F) (c : RomConfig F)
      → overridden F env ≡ ok c
      → c.prefill_time_table ≡ default_table F
  unfolding overridden
  overridden-table env c e =
      let (_, _, e1) =
        >>=-eq-ok (override_float F env "ROM_SIM_BANDWIDTH_MBPS" (of_ℕ F 10000)) _ e in
      let (_, _, e2) = >>=-eq-ok (override_float F env "ROM_MONITOR_INTERVAL_S" (of_ℕ F 1)) _ e1 in
      let (_, _, e3) = >>=-eq-ok (override_int F env "ROM_NUM_LAYERS" (pos 32)) _ e2 in
      let (_, _, e4) = >>=-eq-ok (override_int F env "ROM_NUM_KV_HEADS" (pos 32)) _ e3 in
      let (_, _, e5) = >>=-eq-ok (override_int F env "ROM_HEAD_DIM" (pos 128)) _ e4 in
      let (_, _, e6) = >>=-eq-ok (override_int F env "ROM_DTYPE_BYTES" (pos 2)) _ e5 in
      ap (λ d. d.prefill_time_table) (sym (ok-injective e6))

  -- Whatever the variables of the environment say, a configuration that `from_env` yields passes `validate`.
  -- Its table of latencies is the default one, since no variable sets it.
  pub from_env-IsValid :
      (env : Environment F) (c : RomConfig F)
      → from_env F env ≡ ok c
      → IsValid F c × (c.prefill_time_table ≡ default_table F)
  unfolding from_env
  from_env-IsValid env c e =
      let (d, read, e1) = >>=-eq-ok (overridden F env) _ e in
      let (done, checked, e2) = >>=-eq-ok (validate F d) _ e1 in
      subst (λ x. IsValid F x × (x.prefill_time_table ≡ default_table F)) (ok-injective e2)
        (validate-IsValid d checked, overridden-table env d read)
