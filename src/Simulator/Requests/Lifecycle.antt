-- ===== src/Simulator/Requests/Lifecycle.antt =====
-- simdistserve/base/request.py: the passes of a request through the workers, to its exit.
use recompute_or_migrate.Base.{
  ℕ, ◌+◌, ◌≤◌, ◌≡◌, refl, sym, ap, subst, ◌∙◌, Bool, true, false, ◌||◌, Option, none, List, [], ◌∷◌,
  arith, ltb, leb, if◌then◌else◌, if_false, sum_of, sum_of-append, one_if, ℤ, pos, ◌+ℤ◌,
}
use recompute_or_migrate.Simulator.Requests.{
  Event, e_exit_system, e_wait_decode, no_worker, LogEntry, Request, log_event, wait_decode,
  should_finish, exit_system, exit_if_finished, reset_chunked_prefill_metadata, start_decoding,
  count_round, finish_prefill, finish_decode,
}

-- The end of a decode pass at one worker: its time, the next worker, and whether it is the last of
-- the pipeline.
pub record Pass (Number : Type 0) : Type 0 where
  pub time : Number
  pub next_wid : Option ℤ
  pub is_last : Bool

abbrev pub exit_of : Event → ℕ
exit_of e_exit_system = 1
exit_of _ = 0

left_once :
    (n c d : ℕ)
    → c ≤ d
    → ((leb n c || leb n d) ≡ leb n d)
      × (one_if (leb n c) + (if leb n c then 0 else one_if (leb n d)) ≡ one_if (leb n d))
left_once n c d h = ground arith

module _ {Number : Type 0} where
  unfoldable pub passes : List (Pass Number) → Request Number → Request Number
  unfolding finish_decode
  passes [] r = r
  passes (p ∷ ps) r = passes ps (finish_decode p.time p.is_last p.next_wid r)

  -- The rounds that the passes complete.
  abbrev pub rounds : List (Pass Number) → ℕ
  rounds ps = sum_of (λ p. one_if p.is_last) ps

  -- How often the log says that the request left.
  abbrev pub exits : List (LogEntry Number) → ℕ
  exits log = sum_of (λ e. exit_of e.event) log

  -- Where a request stands: its length of output, its counter, whether it has left, and how often its
  -- log says so.
  pub record Stands (n c : ℕ) (gone : Bool) (e : ℕ) (r : Request Number) : Type 0 where
    pub output : r.output_lens ≡ n
    pub counted : r.counter ≡ pos c
    pub left : r.terminated ≡ gone
    pub logged : exits r.log ≡ e

  recast :
      {n c c' : ℕ} {gone gone' : Bool} {e e' : ℕ} (r : Request Number)
      → c ≡ c'
      → gone ≡ gone'
      → e ≡ e'
      → Stands n c gone e r
      → Stands n c' gone' e' r
  recast r p q s h = record {
    output = h.output;
    counted = h.counted ∙ ap pos p;
    left = h.left ∙ q;
    logged = h.logged ∙ s;
  }

  log_event_lem :
      (now : Number) (event : Event) (wid : Option ℤ) (r : Request Number)
      → exits (log_event now event wid r).log
        ≡ exits r.log + (if r.terminated then 0 else exit_of event)
  unfolding log_event
  log_event_lem now event wid r = ground (
    arith,
    sum_of-append {0} (λ (e : LogEntry Number). exit_of e.event) r.log
        (record { time = now; event = event; wid = wid } ∷ []),
  )

  module _ {n c : ℕ} {gone : Bool} {e : ℕ} (now : Number) (r : Request Number)
      (h : Stands n c gone e r) where
    count_round-Stands : (b : Bool) → Stands n (c + one_if b) gone e (count_round b r)
    unfolding count_round ◌+ℤ◌
    count_round-Stands true = record {
      output = h.output;
      counted = ground (arith, h.counted);
      left = h.left;
      logged = h.logged;
    }
    count_round-Stands false = record {
      output = h.output;
      counted = ground (arith, h.counted);
      left = h.left;
      logged = h.logged;
    }

    wait_decode-Stands : (wid : Option ℤ) → Stands n c gone e (wait_decode now wid r)
    unfolding wait_decode log_event
    wait_decode-Stands wid = record {
      output = ground (arith, h.output);
      counted = ground (arith, h.counted);
      left = ground (arith, h.left);
      logged = ground (arith, h.logged, log_event_lem now e_wait_decode wid r);
    }

    exit_if_finished-Stands :
        Stands n c
          (gone || leb n c)
          (e + (if gone then 0 else one_if (leb n c)))
          (exit_if_finished now r)
    unfolding exit_if_finished should_finish exit_system log_event
    exit_if_finished-Stands = record {
      output = ground (arith, h.output);
      counted = ground (arith, h.counted);
      left = ground (arith, h.left, h.output, h.counted);
      logged = ground (
        arith,
        h.left,
        h.output,
        h.counted,
        h.logged,
        log_event_lem now e_exit_system no_worker r,
      );
    }

  -- A request of `n` tokens of output after `c` rounds of decoding: it has left if and only if
  -- there are `n` rounds, and its log says so once.
  abbrev pub IsDecoding : ℕ → ℕ → Request Number → Type 0
  IsDecoding n c r = Stands n c (leb n c) (one_if (leb n c)) r

  finish_decode-IsDecoding :
      (n c : ℕ) (now : Number) (is_last : Bool) (wid : Option ℤ) (r : Request Number)
      → IsDecoding n c r
      → IsDecoding n (c + one_if is_last) (finish_decode now is_last wid r)
  unfolding finish_decode
  finish_decode-IsDecoding n c now is_last wid r d =
      let (l, o) = left_once n c (c + one_if is_last) (omega arith) in
      recast _ refl l o (
        exit_if_finished-Stands now _
          (wait_decode-Stands now _ (count_round-Stands now r d is_last) wid))

  passes-IsDecoding :
      (ps : List (Pass Number)) (n c : ℕ) (r : Request Number)
      → IsDecoding n c r
      → IsDecoding n (c + rounds ps) (passes ps r)
  unfolding passes
  passes-IsDecoding [] n c r d =
      let e : c ≡ c + 0 = omega arith in subst (λ (k : ℕ). IsDecoding n k r) e d
  passes-IsDecoding (p ∷ ps) n c r d =
      let e : c + one_if p.is_last + rounds ps ≡ c + rounds (p ∷ ps) = omega arith in
      subst (λ (k : ℕ). IsDecoding n k (passes (p ∷ ps) r)) e
        (passes-IsDecoding ps n (c + one_if p.is_last) _
          (finish_decode-IsDecoding n c p.time p.is_last p.next_wid r d))

  -- The last pass of the prefill starts the decoding.
  finish_prefill-IsDecoding :
      (now : Number) (wid : Option ℤ) (r : Request Number)
      → r.terminated ≡ false
      → r.remain_prefill_lens ≡ 0
      → exits r.log ≡ 0
      → IsDecoding r.output_lens 0 (finish_prefill now true wid r)
  unfolding finish_prefill reset_chunked_prefill_metadata start_decoding
  finish_prefill-IsDecoding now wid r t z x =
      let start : Stands r.output_lens 0 false 0
          (record r { counter = pos 0; chunk_id = none; current_prefill_lens = 0 }) =
        record { output = refl; counted = refl; left = t; logged = x } in
      let test : ltb 0 r.remain_prefill_lens ≡ false = ground (arith, z) in
      subst (IsDecoding r.output_lens 0) (sym (if_false _ _ _ test)) (
        recast _ refl refl (omega arith)
          (exit_if_finished-Stands now _ (wait_decode-Stands now _ start wid)))

  -- A request that has logged no exit, and whose prompt is processed, stays in the system until the
  -- last worker has ended as many rounds of decoding as it has tokens of output, over any passes at
  -- any times, and leaves with that round. From then on further passes change neither the exit nor
  -- its one entry in the log.
  pub finish_prefill-passes-IsDecoding :
      (now : Number) (wid : Option ℤ) (r : Request Number) (ps : List (Pass Number))
      → r.terminated ≡ false
      → r.remain_prefill_lens ≡ 0
      → exits r.log ≡ 0
      → IsDecoding r.output_lens (rounds ps) (passes ps (finish_prefill now true wid r))
  finish_prefill-passes-IsDecoding now wid r ps t z x =
      let e : 0 + rounds ps ≡ rounds ps = omega arith in
      subst (λ (k : ℕ). IsDecoding r.output_lens k (passes ps (finish_prefill now true wid r))) e
        (passes-IsDecoding ps r.output_lens 0 _ (finish_prefill-IsDecoding now wid r t z x))
