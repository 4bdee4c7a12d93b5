-- ===== src/Rom/LocalScheduler.antt =====
-- distserve/rom_local_scheduler.py: the actor that collects bandwidths and the depths of the queues.
-- An actor runs one call at a time, so that a call is a function on the state. `now` is the monotonic clock.
pub mod Workers
pub mod Bandwidth
pub mod Calls
use recompute_or_migrate.Base.{
  ℕ, zero, suc, ◌+◌, ◌-◌, ◌*◌, ◌/◌, ◌%◌, ◌≤◌, ◌<◌, min, max, ◌≡◌, refl, sym, ap, subst, ◌∙◌, ◌≢◌,
  ◌↔◌, ◌⊎◌, inl, inr, Bool, true, false, not, ◌&&◌, ◌||◌, Option, none, some, List, [], ◌∷◌, ◌++◌,
  map, append-nil, append_assoc, arith, ltb, leb, ◌==◌, if◌then◌else◌, ltb→lt, lt→ltb, leb→le,
  le→leb, leb-false→lt, ==_iff, ==_refl, Bool-cases, Option-cases, &&-eq-true, is_some, length,
  take, drop, get_elem?, set, replicate, sum_of, keep, All, length-append, length-take, length-drop,
  take-append-drop, sum_of-append, range_from, range, one_if, count, count-append, count-take-drop,
  count-range, ℤ, pos, negsuc, pos_part, neg_part, sub_ℕ, ◌+ℤ◌, ◌-ℤ◌, ◌≤ℤ◌, ltb_ℤ, leb_ℤ, +ℤ_parts,
  -ℤ_parts, eq_of_parts, int_laws, Dict, lookup, insert, erase, has_key, keys, lookup-insert,
  lookup-erase, Distinct, insert-Distinct, erase-Distinct, total, total-erase_absent, total-erase,
  total-insert, total-congr, Error, assertion_error, value_error, key_error, index_error,
  runtime_error, not_implemented, attribute_error, Result, ok, err, ◌>>=◌, ◌>>◌, guard, or_raise,
  >>=-eq-ok, guarded-eq-ok, ok-injective, err≢ok, some-injective, none≢some, list-cases,
  or_raise-eq-ok, guard-eq-ok,
}
use recompute_or_migrate.Floats.{Floats, of_ℕ, ratio}
use recompute_or_migrate.Rom.Config.{RomConfig}

pub record LocalScheduler (F : Floats) : Type 0 where
  pub config : RomConfig F
  pub bandwidth_mbps : F.Carrier
  pub bw_alpha : F.Carrier
  pub last_bw_update : F.Carrier
  pub queue_lengths : Dict ℕ
  pub bw_history : List F.Carrier
  pub bw_history_max : ℕ

pub record Snapshot (F : Floats) : Type 0 where
  pub bandwidth_mbps : F.Carrier
  pub bw_fresh : Bool
  pub queue_lengths : Dict ℕ
  pub bw_history : List F.Carrier
  pub last_bw_update_age_s : Option F.Carrier

abbrev pub mem : ℕ → List ℕ → Bool
mem a [] = false
mem a (b ∷ bs) = a == b || mem a bs

-- `exclude or []`
abbrev pub excluded_of : Option (List ℕ) → List ℕ
excluded_of none = []
excluded_of (some ws) = ws

-- The dict of the workers that are not excluded.
unfoldable pub candidates : List ℕ → Dict ℕ → Dict ℕ
candidates exclude [] = []
candidates exclude ((w, q) ∷ d) =
    if mem w exclude then candidates exclude d else (w, q) ∷ candidates exclude d

-- `min(d, key=…)`: of the keys with the least value, the first.
unfoldable pub least : ℕ → ℕ → Dict ℕ → ℕ
least w q [] = w
least w q ((v, p) ∷ d) = if ltb p q then least v p d else least w q d

abbrev pub pick : Dict ℕ → Option ℕ
pick [] = none
pick ((w, q) ∷ d) = some (least w q d)

module _ (F : Floats) where
  unfoldable pub new_scheduler : RomConfig F → LocalScheduler F
  new_scheduler c = record {
    config = c;
    bandwidth_mbps = c.sim_bandwidth_mbps;
    bw_alpha = ratio F 2 10;
    last_bw_update = F.minus_infinity;
    queue_lengths = [];
    bw_history = [];
    bw_history_max = 100;
  }

  -- The history grows at its end; over its maximum it loses its first entry.
  unfoldable pub push_history : ℕ → List F.Carrier → F.Carrier → List F.Carrier
  push_history limit history x =
      if ltb limit (length (history ++ x ∷ []))
      then drop 1 (history ++ x ∷ [])
      else history ++ x ∷ []

  unfoldable pub update_bandwidth :
      LocalScheduler F → (bandwidth_mbps now : F.Carrier) → LocalScheduler F
  update_bandwidth s bandwidth_mbps now = if F.leq bandwidth_mbps (of_ℕ F 0) then s else record s {
    bandwidth_mbps =
        F.add (F.mul s.bw_alpha bandwidth_mbps)
          (F.mul (F.sub (of_ℕ F 1) s.bw_alpha) s.bandwidth_mbps);
    last_bw_update = now;
    bw_history = push_history s.bw_history_max s.bw_history bandwidth_mbps;
  }

  abbrev pub age : LocalScheduler F → F.Carrier → F.Carrier
  age s now = F.sub now s.last_bw_update

  unfoldable pub get_bandwidth : LocalScheduler F → F.Carrier → F.Carrier
  get_bandwidth s now =
      if F.less (of_ℕ F 60) (age s now) then s.config.sim_bandwidth_mbps else s.bandwidth_mbps

  unfoldable pub set_bandwidth_alpha : LocalScheduler F → F.Carrier → Result (LocalScheduler F)
  set_bandwidth_alpha s alpha = do
    guard (F.less (of_ℕ F 0) alpha && F.leq alpha (of_ℕ F 1)) value_error
    ok (record s { bw_alpha = alpha })

  -- `setdefault`
  unfoldable pub register_worker : LocalScheduler F → ℕ → LocalScheduler F
  register_worker s w =
      if has_key w s.queue_lengths
      then s
      else record s { queue_lengths = insert w 0 s.queue_lengths }

  unfoldable pub deregister_worker : LocalScheduler F → ℕ → LocalScheduler F
  deregister_worker s w = record s { queue_lengths = erase w s.queue_lengths }

  unfoldable pub update_queue_length : LocalScheduler F → ℕ → ℤ → LocalScheduler F
  update_queue_length s w size = record s {
    queue_lengths = insert w (pos_part size) s.queue_lengths;
  }

  unfoldable pub get_queue_length : LocalScheduler F → ℕ → ℕ
  get_queue_length s w = elim (lookup w s.queue_lengths) [ none ↦ 0 | some q ↦ q ]

  unfoldable pub get_best_decode_worker : LocalScheduler F → Option (List ℕ) → Option ℕ
  get_best_decode_worker s exclude = pick (candidates (excluded_of exclude) s.queue_lengths)

  -- The clock is read twice, here and in `get_bandwidth`.
  unfoldable pub get_state : LocalScheduler F → (now later : F.Carrier) → Snapshot F
  unfolding get_bandwidth
  get_state s now later = record {
    bandwidth_mbps = get_bandwidth s later;
    bw_fresh = F.leq (age s now) (of_ℕ F 60);
    queue_lengths = s.queue_lengths;
    bw_history = s.bw_history;
    last_bw_update_age_s = if F.leq F.infinity (age s now) then none else some (age s now);
  }

  unfoldable pub reset : LocalScheduler F → LocalScheduler F
  reset s = record s {
    bandwidth_mbps = s.config.sim_bandwidth_mbps;
    last_bw_update = F.minus_infinity;
    queue_lengths = [];
    bw_history = [];
  }
