-- ===== src/Simulator/Systems.antt =====
-- simdistserve/base/{scheduler,worker}.py: the workers of a cluster with the scheduler, and what they
-- do to each other. A worker is known by its place in the list. A pass of a worker is two turns of its
-- process, up to the wait for the end of the pass and after it; turns of other workers may come between.
pub mod Places
pub mod Loads
pub mod Soundness
pub mod Sending
pub mod Turns
pub mod Runs
pub mod Spinning
use recompute_or_migrate.Base.{
  ℕ, zero, suc, ◌+◌, ◌-◌, ◌*◌, ◌/◌, ◌%◌, ◌≤◌, ◌<◌, min, max, ◌≡◌, refl, sym, ap, subst, ◌∙◌, ◌≢◌,
  ◌↔◌, ◌⊎◌, inl, inr, Bool, true, false, not, ◌&&◌, ◌||◌, Option, none, some, List, [], ◌∷◌, ◌++◌,
  map, append-nil, append_assoc, arith, ltb, leb, ◌==◌, if◌then◌else◌, ltb→lt, lt→ltb, leb→le,
  le→leb, leb-false→lt, ==_iff, ==_refl, Bool-cases, Option-cases, &&-eq-true, is_some, if_true,
  if_false, if_both, length, take, drop, get_elem?, set, replicate, sum_of, keep, All,
  length-append, length-take, length-drop, take-append-drop, sum_of-append, range_from, range,
  one_if, count, count-append, count-take-drop, count-range, ℤ, pos, negsuc, pos_part, neg_part,
  sub_ℕ, ◌+ℤ◌, ◌-ℤ◌, ◌≤ℤ◌, ltb_ℤ, leb_ℤ, +ℤ_parts, -ℤ_parts, eq_of_parts, int_laws, Dict, lookup,
  insert, erase, has_key, keys, lookup-insert, lookup-erase, Distinct, insert-Distinct,
  erase-Distinct, total, total-erase_absent, total-erase, total-insert, total-congr, Error,
  assertion_error, value_error, key_error, index_error, runtime_error, not_implemented,
  attribute_error, Result, ok, err, ◌>>=◌, ◌>>◌, guard, or_raise, >>=-eq-ok, >>=-ok, guarded-eq-ok,
  ok-injective, err≢ok, some-injective, none≢some, list-cases, or_raise-eq-ok, guard-eq-ok,
}
use recompute_or_migrate.Simulator.Requests.{
  Request, init, wait_decode, finish_prefill, finish_decode, should_finish,
}
use recompute_or_migrate.Simulator.Workers.{
  Worker, WorkerEntry, Activity, at_top, waiting, awake, in_prefill, in_decode, log_wait, wakeup,
  is_empty, choose, log_pass,
}

-- `gone` has the requests that stand in no queue and no batch: those that left.
pub record System (Number : Type 0) : Type 0 where
  pub workers : List (Worker Number)
  pub prefill_heads : List ℕ
  pub decode_heads : List ℕ
  pub gone : List (Request Number)

-- The two queues of a worker.
pub data Side : Type 0 where
  prefill decode : Side

-- The first place of the least load, where `place` and `load` are the best of those seen.
unfoldable pub best : ℕ → ℕ → List (ℕ × ℕ) → ℕ
best place load [] = place
best place load ((p, l) ∷ rest) =
    best (if ltb l load then p else place) (if ltb l load then l else load) rest

-- `min` of the places by their loads.
unfoldable pub min_place : List (ℕ × ℕ) → Result ℕ
unfolding best
min_place [] = err value_error
min_place ((p, l) ∷ rest) = ok (best p l rest)

module _ {Number : Type 0} where
  unfoldable pub queue_of : Side → Worker Number → List (Request Number)
  queue_of prefill w = w.prefill_queue
  queue_of decode w = w.decode_queue

  -- `queue.extend(items)`
  unfoldable pub extend : Side → List (Request Number) → Worker Number → Worker Number
  extend prefill items w = record w { prefill_queue = w.prefill_queue ++ items }
  extend decode items w = record w { decode_queue = w.decode_queue ++ items }

  -- The worker at a place. No place in a cluster is empty.
  unfoldable pub worker_at : ℕ → System Number → Result (Worker Number)
  worker_at i s = or_raise (get_elem? s.workers i) index_error

  unfoldable pub put : ℕ → Worker Number → System Number → System Number
  put i w s = record s { workers = set s.workers i w }

  unfoldable pub modify :
      ℕ → (Worker Number → Worker Number) → System Number → Result (System Number)
  unfolding worker_at put
  modify i f s = do w ← worker_at i s; ok (put i (f w) s)

  -- Requests to a queue, and the wakeup of its worker.
  unfoldable pub send : Side → ℕ → List (Request Number) → System Number → Result (System Number)
  unfolding modify extend wakeup
  send side i items s = modify i (λ w. wakeup (extend side items w)) s

  -- The heads with their loads, as `_find_best_worker_and_queue` weighs them.
  unfoldable pub loads : Side → List ℕ → System Number → Result (List (ℕ × ℕ))
  unfolding worker_at queue_of
  loads side [] s = ok []
  loads side (h ∷ heads) s = do
    w ← worker_at h s
    rest ← loads side heads s
    ok ((h, w.prefill_ips + length (queue_of side w)) ∷ rest)

  unfoldable pub find_best_worker : Side → List ℕ → System Number → Result ℕ
  unfolding loads min_place
  find_best_worker side heads s = do ls ← loads side heads s; min_place ls

  unfoldable pub schedule_prefill : Request Number → System Number → Result (System Number)
  unfolding find_best_worker send
  schedule_prefill r s =
      guard (ltb_ℤ r.counter (pos 0)) assertion_error
      >> do i ← find_best_worker prefill s.prefill_heads s; send prefill i (r ∷ []) s

  -- A request to no queue.
  unfoldable pub leave : List (Request Number) → System Number → System Number
  leave rs s = record s { gone = s.gone ++ rs }

  -- The rest of `schedule_decode`, for a request that is not forced to quit.
  unfoldable pub queue_decode : Number → Request Number → System Number → Result (System Number)
  unfolding find_best_worker worker_at wait_decode send
  queue_decode now r s = do
    i ← find_best_worker decode s.decode_heads s
    w ← worker_at i s
    send decode i (wait_decode now (some (pos w.wid)) r ∷ []) s

  unfoldable pub schedule_decode : Number → Request Number → System Number → Result (System Number)
  unfolding should_finish finish_decode queue_decode leave
  schedule_decode now r s =
      guard (leb_ℤ (pos 0) r.counter) assertion_error
      >> (if should_finish r
          then ok (leave (finish_decode now false none r ∷ []) s)
          else queue_decode now r s)

  unfoldable pub schedule_new_req : Number → Request Number → System Number → Result (System Number)
  unfolding schedule_prefill schedule_decode
  schedule_new_req now r s =
      if ltb_ℤ r.counter (pos 0) then schedule_prefill r s else schedule_decode now r s

  -- `put_request_at_time`, once its time has come.
  unfoldable pub arrive : Number → Request Number → System Number → Result (System Number)
  unfolding init schedule_new_req
  arrive now r s = schedule_new_req now (init now r) s

  -- `self.next_worker.prefill_queue.extend(items)` or the like, and the wakeup.
  unfoldable pub forward :
      Side → Worker Number → List (Request Number) → System Number → Result (System Number)
  unfolding send
  forward side w items s = do j ← or_raise w.next_worker attribute_error; send side j items s

  -- `self.next_worker.wid if self.next_worker else None`
  unfoldable pub next_wid : Worker Number → System Number → Result (Option ℤ)
  unfolding worker_at
  next_wid w s = elim w.next_worker [
    | none ↦ ok none
    | some j ↦ do n ← worker_at j s; ok (some (pos n.wid))
  ]

  -- `forward_decode(item, to_scheduler=True)`
  unfoldable pub to_scheduler :
      Number → Worker Number → Request Number → System Number → Result (System Number)
  unfolding schedule_decode
  to_scheduler now w r s = guard w.has_global_scheduler attribute_error >> schedule_decode now r s

  -- A request that has finished its prefill at the last worker of a pipeline.
  unfoldable pub route :
      Number → Worker Number → Request Number → System Number → Result (System Number)
  unfolding should_finish leave forward to_scheduler
  route now w r s =
      if should_finish r
      then ok (leave (r ∷ []) s)
      else if not w.should_request_stay
      then to_scheduler now w r s
      else forward decode w (r ∷ []) s

  -- The test of `_exit_prefill`, after `finish_prefill`.
  unfoldable pub pass_on :
      Number → Worker Number → Request Number → System Number → Result (System Number)
  unfolding forward route
  pass_on now w r s =
      if not w.is_last_in_pipeline || ltb 0 r.remain_prefill_lens
      then forward prefill w (r ∷ []) s
      else route now w r s

  unfoldable pub exit_prefill :
      Number → Worker Number → List (Request Number) → System Number → Result (System Number)
  unfolding next_wid finish_prefill pass_on
  exit_prefill now w [] s = ok s
  exit_prefill now w (r ∷ rs) s = do
    wid ← next_wid w s
    s' ← pass_on now w (finish_prefill now w.is_last_in_pipeline wid r) s
    exit_prefill now w rs s'

  -- `forward_decode` of a batch: nothing is done for an empty one.
  unfoldable pub forward_batch :
      Worker Number → List (Request Number) → System Number → Result (System Number)
  unfolding forward
  forward_batch w [] s = ok s
  forward_batch w (r ∷ rs) s = forward decode w (r ∷ rs) s

  unfoldable pub exit_decode :
      Number → Worker Number → List (Request Number) → System Number → Result (System Number)
  unfolding next_wid finish_decode should_finish forward_batch leave
  exit_decode now w [] s = ok s
  exit_decode now w (r ∷ rs) s = do
    wid ← next_wid w s
    let ended : List (Request Number) = map (finish_decode now w.is_last_in_pipeline wid) (r ∷ rs)
    forward_batch w (keep (λ q. not (should_finish q)) ended) (leave (keep should_finish ended) s)

  -- `_log_event("wait")`, at the end of the loop in `run`.
  unfoldable pub log_waiting : Number → Worker Number → Worker Number
  unfolding log_pass
  log_waiting now w =
      log_pass
        (record {
          time = now;
          event = log_wait;
          num_tokens = 0;
          prefill_bs = 0;
          decode_bs = 0;
          prefill_len_list = [];
          decode_len_list = [];
        })
        w

  -- The end of a pass over two batches, with the worker `w` at the place `i`.
  unfoldable pub finish_pass :
      Number
      → ℕ
      → Worker Number
      → ℕ
      → List (Request Number)
      → List (Request Number)
      → System Number
      → Result (System Number)
  unfolding put exit_prefill exit_decode modify log_waiting
  finish_pass now i w ips ps ds s = do
    s1 ← exit_prefill now w ps (put i (record w { prefill_ips = ips; activity = at_top }) s)
    s2 ← exit_decode now w ds s1
    modify i (log_waiting now) s2

  -- A turn of the process of the worker `w` at the place `i`, by what it is at.
  unfoldable pub turn_at :
      (ℕ → Number → ℕ)
      → Number
      → ℕ
      → ℕ
      → Worker Number
      → Activity Number
      → System Number
      → Result (System Number)
  unfolding is_empty put choose finish_pass
  turn_at int_mul now fresh i w at_top s =
      if is_empty w.prefill_queue && is_empty w.decode_queue
      then ok (put i (record w { activity = waiting }) s)
      else do w' ← choose int_mul now fresh w; ok (put i w' s)
  turn_at int_mul now fresh i w waiting s = ok s
  turn_at int_mul now fresh i w awake s = do w' ← choose int_mul now fresh w; ok (put i w' s)
  turn_at int_mul now fresh i w (in_prefill ps ds) s = finish_pass now i w 0 ps ds s
  turn_at int_mul now fresh i w (in_decode ds) s = finish_pass now i w w.prefill_ips [] ds s

  unfoldable pub turn : (ℕ → Number → ℕ) → Number → ℕ → ℕ → System Number → Result (System Number)
  unfolding worker_at turn_at
  turn int_mul now fresh i s = do w ← worker_at i s; turn_at int_mul now fresh i w w.activity s
