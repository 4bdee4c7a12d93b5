-- ===== src/Simulator/Requests.antt =====
-- simdistserve/base/request.py: a request of the simulation, its counter and its log.
-- `Number` is the type of the times; `now` is `env.now`. A request has its environment set, as
-- `put_requests_with_interarrivals` sees to.
pub mod Identity
pub mod Lifecycle
use recompute_or_migrate.Base.{
  ℕ, zero, suc, ◌+◌, ◌-◌, ◌*◌, ◌/◌, ◌%◌, ◌≤◌, ◌<◌, min, max, ◌≡◌, refl, sym, ap, subst, ◌∙◌, ◌≢◌,
  ◌↔◌, ◌⊎◌, inl, inr, Bool, true, false, not, ◌&&◌, ◌||◌, Option, none, some, List, [], ◌∷◌, ◌++◌,
  map, append-nil, append_assoc, arith, ltb, leb, ◌==◌, if◌then◌else◌, ltb→lt, lt→ltb, leb→le,
  le→leb, leb-false→lt, ==_iff, ==_refl, Bool-cases, Option-cases, &&-eq-true, is_some, if_true,
  if_false, if_both, length, take, drop, get_elem?, set, replicate, sum_of, keep, All,
  length-append, length-take, length-drop, take-append-drop, sum_of-append, range_from, range,
  one_if, count, count-append, count-take-drop, count-range, ℤ, pos, negsuc, pos_part, neg_part,
  sub_ℕ, ◌+ℤ◌, ◌-ℤ◌, ◌≤ℤ◌, ltb_ℤ, leb_ℤ, +ℤ_parts, -ℤ_parts, eq_of_parts, int_laws, Dict, lookup,
  insert, erase, has_key, keys, lookup-insert, lookup-erase, Distinct, insert-Distinct,
  erase-Distinct, total, total-erase_absent, total-erase, total-insert, total-congr, Error,
  assertion_error, value_error, key_error, index_error, runtime_error, not_implemented,
  attribute_error, Result, ok, err, ◌>>=◌, ◌>>◌, guard, or_raise, >>=-eq-ok, >>=-ok, guarded-eq-ok,
  ok-injective, err≢ok, some-injective, none≢some, list-cases, or_raise-eq-ok, guard-eq-ok,
}

-- The constants `E_*`.
pub data Event : Type 0 where
  e_init e_wait_prefill e_do_prefill e_wait_decode : Event
  e_do_decode e_finish_prefill e_finish_decode e_exit_system : Event

-- An entry of the log. `wid` is `None` where the caller knows no worker.
pub record LogEntry (Number : Type 0) : Type 0 where
  pub time : Number
  pub event : Event
  pub wid : Option ℤ

pub record Request (Number : Type 0) : Type 0 where
  pub req_id : ℕ
  pub counter : ℤ
  pub log : List (LogEntry Number)
  pub terminated : Bool
  pub prefill_lens : ℕ
  pub output_lens : ℕ
  pub remain_prefill_lens : ℕ
  pub current_prefill_lens : ℕ
  pub chunk_id : Option ℕ

unfoldable pub new_request : {Number : Type 0} → ℕ → ℤ → ℕ → ℕ → Request Number
new_request req_id req_init_counter prefill_length output_lens = record {
  req_id = req_id;
  counter = req_init_counter;
  log = [];
  terminated = false;
  prefill_lens = prefill_length;
  output_lens = output_lens;
  remain_prefill_lens = prefill_length;
  current_prefill_lens = 0;
  chunk_id = none;
}

-- The default argument `wid=-1`.
abbrev pub no_worker : Option ℤ
no_worker = some (negsuc 0)

module _ {Number : Type 0} where
  -- `max(0, counter)` is the positive part.
  unfoldable pub current_context_len : Request Number → ℕ
  current_context_len r = r.prefill_lens + pos_part r.counter

  -- A request that has left the system logs nothing.
  unfoldable pub log_event : Number → Event → Option ℤ → Request Number → Request Number
  log_event now event wid r =
      if r.terminated
      then r
      else record r { log = r.log ++ record { time = now; event = event; wid = wid } ∷ [] }

  unfoldable pub init : Number → Request Number → Request Number
  unfolding log_event
  init now r = log_event now e_init no_worker r

  unfoldable pub wait_prefill : Number → Option ℤ → Request Number → Request Number
  unfolding log_event
  wait_prefill now wid r = log_event now e_wait_prefill wid r

  unfoldable pub do_prefill : Number → Option ℤ → Request Number → Request Number
  unfolding log_event
  do_prefill now wid r = log_event now e_do_prefill wid r

  unfoldable pub wait_decode : Number → Option ℤ → Request Number → Request Number
  unfolding log_event
  wait_decode now wid r = log_event now e_wait_decode wid r

  unfoldable pub do_decode : Number → Option ℤ → Request Number → Request Number
  unfolding log_event
  do_decode now wid r = log_event now e_do_decode wid r

  unfoldable pub reset_chunked_prefill_metadata : Request Number → Request Number
  reset_chunked_prefill_metadata r = record r { chunk_id = none; current_prefill_lens = 0 }

  unfoldable pub should_finish : Request Number → Bool
  should_finish r = leb_ℤ (pos r.output_lens) r.counter

  -- `_log_event(E_EXIT_SYSTEM)` and `_terminated = True`.
  unfoldable pub exit_system : Number → Request Number → Request Number
  unfolding log_event
  exit_system now r = record (log_event now e_exit_system no_worker r) { terminated = true }

  -- The end of both functions below.
  unfoldable pub exit_if_finished : Number → Request Number → Request Number
  unfolding should_finish exit_system
  exit_if_finished now r = if should_finish r then exit_system now r else r

  -- All the prefill is done: the counter is reset.
  unfoldable pub start_decoding : Request Number → Request Number
  start_decoding r = record r { counter = pos 0 }

  unfoldable pub finish_prefill : Number → Bool → Option ℤ → Request Number → Request Number
  unfolding wait_prefill reset_chunked_prefill_metadata start_decoding wait_decode exit_if_finished
  finish_prefill now is_finished_one_round next_wid r =
      if not is_finished_one_round
      then wait_prefill now next_wid r
      else if ltb 0 r.remain_prefill_lens
      then wait_prefill now next_wid (reset_chunked_prefill_metadata r)
      else exit_if_finished now
          (wait_decode now next_wid (start_decoding (reset_chunked_prefill_metadata r)))

  -- `if is_finished_one_round: self.counter += 1`
  unfoldable pub count_round : Bool → Request Number → Request Number
  count_round is_finished_one_round r =
      if is_finished_one_round then record r { counter = r.counter +ℤ pos 1 } else r

  unfoldable pub finish_decode : Number → Bool → Option ℤ → Request Number → Request Number
  unfolding count_round wait_decode exit_if_finished
  finish_decode now is_finished_one_round next_wid r =
      exit_if_finished now (wait_decode now next_wid (count_round is_finished_one_round r))
