-- ===== src/Rom/Decision.antt =====
-- distserve/rom_decision.py: the costs of a migration and of a recomputation, and the choice.
pub mod Choice
pub mod Tables
pub mod Sorting
pub mod Breakpoints
pub mod Breakeven
use Prim.Native.String.{String}
use text.Mathlib.Text.{◌==◌ as str_eq}
use recompute_or_migrate.Base.{
  ℕ, zero, suc, ◌+◌, ◌-◌, ◌*◌, ◌/◌, ◌%◌, ◌≤◌, ◌<◌, min, max, ◌≡◌, refl, sym, ap, subst, ◌∙◌, ◌≢◌,
  ◌↔◌, ◌⊎◌, inl, inr, Bool, true, false, not, ◌&&◌, ◌||◌, Option, none, some, List, [], ◌∷◌, ◌++◌,
  map, append-nil, append_assoc, arith, ltb, leb, ◌==◌, if◌then◌else◌, ltb→lt, lt→ltb, leb→le,
  le→leb, leb-false→lt, ==_iff, ==_refl, Bool-cases, Option-cases, &&-eq-true, is_some, length,
  take, drop, get_elem?, set, replicate, sum_of, keep, All, length-append, length-take, length-drop,
  take-append-drop, sum_of-append, range_from, range, one_if, count, count-append, count-take-drop,
  count-range, ℤ, pos, negsuc, pos_part, neg_part, sub_ℕ, ◌+ℤ◌, ◌-ℤ◌, ◌≤ℤ◌, ltb_ℤ, leb_ℤ, +ℤ_parts,
  -ℤ_parts, eq_of_parts, int_laws, Dict, lookup, insert, erase, has_key, keys, lookup-insert,
  lookup-erase, Distinct, insert-Distinct, erase-Distinct, total, total-erase_absent, total-erase,
  total-insert, total-congr, Error, assertion_error, value_error, key_error, index_error,
  runtime_error, not_implemented, attribute_error, Result, ok, err, ◌>>=◌, ◌>>◌, guard, or_raise,
  >>=-eq-ok, guarded-eq-ok, ok-injective, err≢ok, some-injective, none≢some, list-cases,
  or_raise-eq-ok, guard-eq-ok,
}
use recompute_or_migrate.Floats.{Floats, of_ℕ}
use recompute_or_migrate.Rom.Config.{RomConfig}

pub data Decision : Type 0 where
  migrate recompute : Decision

-- The product of Python's integers.
infixl 70 ◌*ℤ◌
abbrev pub ◌*ℤ◌ : ℤ → ℤ → ℤ
a *ℤ b =
    sub_ℕ (pos_part a * pos_part b + neg_part a * neg_part b)
      (pos_part a * neg_part b + neg_part a * pos_part b)

unfoldable pub compute_kv_size_bytes :
    (prompt_len num_layers num_kv_heads head_dim dtype_bytes : ℤ) → ℤ
compute_kv_size_bytes prompt_len num_layers num_kv_heads head_dim dtype_bytes =
    if leb_ℤ prompt_len (pos 0)
    then pos 0
    else pos 2 *ℤ num_layers *ℤ num_kv_heads *ℤ head_dim *ℤ prompt_len *ℤ dtype_bytes

-- The table is a dict, so that its entries sorted by their keys are `keys` and `values` together.
module _ {V : Type 0} where
  unfoldable pub insert_sorted : ℕ → V → Dict V → Dict V
  insert_sorted k v [] = (k, v) ∷ []
  insert_sorted k v ((j, w) ∷ d) =
      if leb k j then (k, v) ∷ (j, w) ∷ d else (j, w) ∷ insert_sorted k v d

  unfoldable pub sorted : Dict V → Dict V
  sorted [] = []
  sorted ((k, v) ∷ d) = insert_sorted k v (sorted d)

-- `bisect.bisect_right` of a sorted list: how many of its first keys are no greater.
unfoldable pub bisect_right : List ℕ → ℕ → ℕ
bisect_right [] x = 0
bisect_right (k ∷ ks) x = if leb k x then suc (bisect_right ks x) else 0

-- `xs[i]`
abbrev pub at {ℓ} : {A : Type ℓ} → List A → ℕ → Result A
at xs i = or_raise (get_elem? xs i) index_error

module _ (F : Floats) where
  unfoldable pub compute_kv_size_bytes_from_config : ℤ → RomConfig F → ℤ
  compute_kv_size_bytes_from_config prompt_len c =
      compute_kv_size_bytes prompt_len c.num_layers c.num_kv_heads c.head_dim c.dtype_bytes

  unfoldable pub compute_c_mig : ℤ → F.Carrier → F.Carrier
  compute_c_mig kv_size_bytes bandwidth_mbps =
      if F.leq bandwidth_mbps (of_ℕ F 0) || ltb_ℤ kv_size_bytes (pos 0)
      then F.infinity
      else if leb_ℤ kv_size_bytes (pos 0)
      then of_ℕ F 0
      else F.div (F.of_int kv_size_bytes) (F.mul bandwidth_mbps (of_ℕ F 1000000))

  -- The value on the line from one entry to the next.
  abbrev pub between : ℕ → F.Carrier → ℕ → F.Carrier → ℕ → F.Carrier
  between lo t_lo hi t_hi x =
      F.add t_lo
        (F.mul (F.div (F.of_int (pos x -ℤ pos lo)) (F.of_int (pos hi -ℤ pos lo))) (F.sub t_hi t_lo))

  -- The segment that holds the query.
  unfoldable pub interpolate_inside : List ℕ → List F.Carrier → ℕ → Result F.Carrier
  interpolate_inside ks values x = do
    let idx = bisect_right ks x
    lo ← at ks (idx - 1)
    hi ← at ks idx
    t_lo ← at values (idx - 1)
    t_hi ← at values idx
    ok (between lo t_lo hi t_hi x)

  -- Flat beyond the first and the last key.
  unfoldable pub interpolate_from : ℕ → ℕ → List ℕ → List F.Carrier → ℕ → Result F.Carrier
  interpolate_from first last ks values x =
      if leb x first
      then at values 0
      else if leb last x
      then at values (length values - 1)
      else interpolate_inside ks values x

  unfoldable pub interpolate : List ℕ → List F.Carrier → ℕ → Result F.Carrier
  interpolate ks values x = do
    first ← at ks 0
    last ← at ks (length ks - 1)
    interpolate_from first last ks values x

  unfoldable pub compute_c_recomp : ℤ → Dict F.Carrier → Result F.Carrier
  compute_c_recomp prompt_len [] = err value_error
  compute_c_recomp (negsuc n) (e ∷ d) = ok (of_ℕ F 0)
  compute_c_recomp (pos zero) (e ∷ d) = ok (of_ℕ F 0)
  compute_c_recomp (pos (suc n)) (e ∷ d) =
      interpolate (map (λ p. p.0) (sorted (e ∷ d))) (map (λ p. p.1) (sorted (e ∷ d))) (suc n)

  -- The policy, then the costs; a tie is migrated.
  unfoldable pub decide : String → F.Carrier → F.Carrier → Decision
  decide policy c_mig c_recomp =
      if str_eq policy "always_migrate"
      then migrate
      else if str_eq policy "always_recompute"
      then recompute
      else if F.leq c_mig c_recomp
      then migrate
      else recompute

  unfoldable pub make_decision :
      ℤ → F.Carrier → RomConfig F → Result (Decision × F.Carrier × F.Carrier)
  make_decision prompt_len bandwidth_mbps c = do
    let c_mig = compute_c_mig (compute_kv_size_bytes_from_config prompt_len c) bandwidth_mbps
    c_recomp ← compute_c_recomp prompt_len c.prefill_time_table
    ok (decide c.policy c_mig c_recomp, c_mig, c_recomp)

  -- `sys.maxsize`
  abbrev pub max_size : ℕ
  max_size = 9223372036854775807

  unfoldable pub first_breakeven : F.Carrier → RomConfig F → List ℕ → Result ℕ
  first_breakeven bandwidth_mbps c [] = ok max_size
  first_breakeven bandwidth_mbps c (k ∷ ks) = do
    (decision, c_mig, c_recomp) ← make_decision (pos k) bandwidth_mbps c
    let rest = first_breakeven bandwidth_mbps c ks
    if F.leq c_recomp c_mig then ok k else rest

  unfoldable pub breakeven_prompt_len : F.Carrier → RomConfig F → Result ℕ
  breakeven_prompt_len bandwidth_mbps c =
      first_breakeven bandwidth_mbps c (map (λ p. p.0) (sorted c.prefill_time_table))
