-- ===== src/Rom/Config.antt =====
-- distserve/rom_config.py: the configuration of the RoM scheduler.
pub mod Valid
use Prim.Native.String.{String}
use text.Mathlib.Text.{◌==◌ as str_eq}
use recompute_or_migrate.Base.{
  ℕ, zero, suc, ◌+◌, ◌-◌, ◌*◌, ◌/◌, ◌%◌, ◌≤◌, ◌<◌, min, max, ◌≡◌, refl, sym, ap, subst, ◌∙◌, ◌≢◌,
  ◌↔◌, ◌⊎◌, inl, inr, Bool, true, false, not, ◌&&◌, ◌||◌, Option, none, some, List, [], ◌∷◌, ◌++◌,
  map, append-nil, append_assoc, arith, ltb, leb, ◌==◌, if◌then◌else◌, ltb→lt, lt→ltb, leb→le,
  le→leb, leb-false→lt, ==_iff, ==_refl, Bool-cases, Option-cases, &&-eq-true, is_some, length,
  take, drop, get_elem?, set, replicate, sum_of, keep, All, length-append, length-take, length-drop,
  take-append-drop, sum_of-append, range_from, range, one_if, count, count-append, count-take-drop,
  count-range, ℤ, pos, negsuc, pos_part, neg_part, sub_ℕ, ◌+ℤ◌, ◌-ℤ◌, ◌≤ℤ◌, ltb_ℤ, leb_ℤ, +ℤ_parts,
  -ℤ_parts, eq_of_parts, int_laws, Dict, lookup, insert, erase, has_key, keys, lookup-insert,
  lookup-erase, Distinct, insert-Distinct, erase-Distinct, total, total-erase_absent, total-erase,
  total-insert, total-congr, Error, assertion_error, value_error, key_error, index_error,
  runtime_error, not_implemented, attribute_error, Result, ok, err, ◌>>=◌, ◌>>◌, guard, or_raise,
  >>=-eq-ok, guarded-eq-ok, ok-injective, err≢ok, some-injective, none≢some, list-cases,
  or_raise-eq-ok, guard-eq-ok,
}
use recompute_or_migrate.Config.{mem_policy}
use recompute_or_migrate.Floats.{Floats, of_ℕ, ratio}

-- What the configuration reads from the machine: the variables of the environment, the reading of numbers
-- (`none` where `float(v)` or `int(v)` raises), and `v.strip().lower()`.
pub record Environment (F : Floats) : Type 0 where
  pub get : String → Option String
  pub parse_float : String → Option F.Carrier
  pub parse_int : String → Option ℤ
  pub strip_lower : String → String

pub record RomConfig (F : Floats) : Type 0 where
  pub policy : String
  pub sim_bandwidth_mbps : F.Carrier
  pub monitor_interval_s : F.Carrier
  pub monitor_enabled : Bool
  pub log_file : String
  pub num_layers : ℤ
  pub num_kv_heads : ℤ
  pub head_dim : ℤ
  pub dtype_bytes : ℤ
  pub prefill_time_table : Dict F.Carrier

abbrev pub valid_policies : List String
valid_policies = "rom" ∷ "always_migrate" ∷ "always_recompute" ∷ []

module _ (F : Floats) where
  abbrev pub default_table : Dict F.Carrier
  default_table =
      (64, ratio F 5 1000)
      ∷ (128, ratio F 10 1000)
      ∷ (256, ratio F 18 1000)
      ∷ (512, ratio F 32 1000)
      ∷ (1024, ratio F 60 1000)
      ∷ (2048, ratio F 115 1000)
      ∷ (4096, ratio F 225 1000)
      ∷ (8192, ratio F 440 1000)
      ∷ []

  abbrev pub default_config : RomConfig F
  default_config = record {
    policy = "rom";
    sim_bandwidth_mbps = of_ℕ F 10000;
    monitor_interval_s = of_ℕ F 1;
    monitor_enabled = true;
    log_file = "/tmp/rom_decisions.jsonl";
    num_layers = pos 32;
    num_kv_heads = pos 32;
    head_dim = pos 128;
    dtype_bytes = pos 2;
    prefill_time_table = default_table;
  }

  abbrev pub is_valid_dtype : ℤ → Bool
  is_valid_dtype (pos n) = n == 1 || (n == 2 || n == 4)
  is_valid_dtype (negsuc n) = false

  abbrev pub is_empty_table : Dict F.Carrier → Bool
  is_empty_table [] = true
  is_empty_table (e ∷ d) = false

  -- The checks, in the order of the source; every one raises a ValueError.
  unfoldable pub validate : RomConfig F → Result (Unit {0})
  validate c = do
    guard (mem_policy c.policy valid_policies) value_error
    guard (not (F.leq c.sim_bandwidth_mbps (of_ℕ F 0))) value_error
    guard (not (F.leq c.monitor_interval_s (of_ℕ F 0))) value_error
    guard (not (leb_ℤ c.num_layers (pos 0))) value_error
    guard (not (leb_ℤ c.num_kv_heads (pos 0))) value_error
    guard (not (leb_ℤ c.head_dim (pos 0))) value_error
    guard (is_valid_dtype c.dtype_bytes) value_error
    guard (not (is_empty_table c.prefill_time_table)) value_error

  unfoldable pub update_from_model_config : RomConfig F → ℤ → ℤ → ℤ → RomConfig F
  update_from_model_config c num_layers num_kv_heads head_dim = record c {
    num_layers = num_layers;
    num_kv_heads = num_kv_heads;
    head_dim = head_dim;
  }

  -- `if v := _get(name)`: a variable that is set to the empty text counts as not set.
  unfoldable pub set_value : Environment F → String → Option String
  set_value env name = elim (env.get name) [
    | none ↦ none
    | some v ↦ if str_eq v "" then none else some v
  ]

  abbrev pub override_text : Environment F → String → String → String
  override_text env name value = elim (set_value env name) [ none ↦ value | some v ↦ v ]

  abbrev pub override_float : Environment F → String → F.Carrier → Result F.Carrier
  override_float env name value = elim (set_value env name) [
    | none ↦ ok value
    | some v ↦ or_raise (env.parse_float v) value_error
  ]

  abbrev pub override_int : Environment F → String → ℤ → Result ℤ
  override_int env name value = elim (set_value env name) [
    | none ↦ ok value
    | some v ↦ or_raise (env.parse_int v) value_error
  ]

  abbrev pub override_switch : Environment F → String → Bool → Bool
  override_switch env name value = elim (set_value env name) [
    | none ↦ value
    | some v ↦ not (mem_policy (env.strip_lower v) ("0" ∷ "false" ∷ "no" ∷ []))
  ]

  -- The default configuration with the variables applied, not yet validated.
  unfoldable pub overridden : Environment F → Result (RomConfig F)
  overridden env = do
    bandwidth ← override_float env "ROM_SIM_BANDWIDTH_MBPS" (of_ℕ F 10000)
    interval ← override_float env "ROM_MONITOR_INTERVAL_S" (of_ℕ F 1)
    layers ← override_int env "ROM_NUM_LAYERS" (pos 32)
    heads ← override_int env "ROM_NUM_KV_HEADS" (pos 32)
    dim ← override_int env "ROM_HEAD_DIM" (pos 128)
    bytes ← override_int env "ROM_DTYPE_BYTES" (pos 2)
    ok (record {
      policy = override_text env "ROM_POLICY" "rom";
      sim_bandwidth_mbps = bandwidth;
      monitor_interval_s = interval;
      monitor_enabled = override_switch env "ROM_MONITOR_ENABLED" true;
      log_file = override_text env "ROM_LOG_FILE" "/tmp/rom_decisions.jsonl";
      num_layers = layers;
      num_kv_heads = heads;
      head_dim = dim;
      dtype_bytes = bytes;
      prefill_time_table = default_table;
    })

  unfoldable pub from_env : Environment F → Result (RomConfig F)
  from_env env = do c ← overridden env; validate c; ok c
