-- ===== src/Simulator/Requests/Identity.antt =====
-- simdistserve/base/request.py: what the operations of a request leave alone.
use recompute_or_migrate.Base.{
  ◌≡◌, refl, sym, ap, ◌∙◌, Bool, true, false, Option, arith, ltb, if_both, ℤ, pos,
}
use recompute_or_migrate.Simulator.Requests.{
  Event, no_worker, e_exit_system, e_wait_prefill, e_wait_decode, Request, log_event, init,
  wait_decode, finish_prefill, finish_decode, should_finish, exit_system, exit_if_finished,
  wait_prefill, do_prefill, do_decode, count_round, start_decoding, reset_chunked_prefill_metadata,
}

module _ {Number : Type 0} (now : Number) where
  id-log_event :
      (event : Event) (wid : Option ℤ) (r : Request Number)
      → (log_event now event wid r).req_id ≡ r.req_id
  unfolding log_event
  id-log_event event wid r = ground arith

  counter-log_event :
      (event : Event) (wid : Option ℤ) (r : Request Number)
      → (log_event now event wid r).counter ≡ r.counter
  unfolding log_event
  counter-log_event event wid r = ground arith

  pub id-init : (r : Request Number) → (init now r).req_id ≡ r.req_id
  unfolding init
  id-init r = id-log_event _ _ r

  pub counter-init : (r : Request Number) → (init now r).counter ≡ r.counter
  unfolding init
  counter-init r = counter-log_event _ _ r

  pub id-wait_decode :
      (wid : Option ℤ) (r : Request Number) → (wait_decode now wid r).req_id ≡ r.req_id
  unfolding wait_decode
  id-wait_decode wid r = id-log_event _ wid r

  pub id-do_prefill :
      (wid : Option ℤ) (r : Request Number) → (do_prefill now wid r).req_id ≡ r.req_id
  unfolding do_prefill
  id-do_prefill wid r = id-log_event _ wid r

  pub id-do_decode : (wid : Option ℤ) (r : Request Number) → (do_decode now wid r).req_id ≡ r.req_id
  unfolding do_decode
  id-do_decode wid r = id-log_event _ wid r

  id-exit_if_finished : (r : Request Number) → (exit_if_finished now r).req_id ≡ r.req_id
  unfolding exit_if_finished exit_system
  id-exit_if_finished r =
      if_both (λ (q : Request Number). q.req_id ≡ r.req_id) (should_finish r) (exit_system now r) r
        (id-log_event _ _ r) refl

  counter-exit_if_finished : (r : Request Number) → (exit_if_finished now r).counter ≡ r.counter
  unfolding exit_if_finished exit_system
  counter-exit_if_finished r =
      if_both (λ (q : Request Number). q.counter ≡ r.counter) (should_finish r) (exit_system now r)
        r (counter-log_event _ _ r) refl

  id-count_round : (b : Bool) (r : Request Number) → (count_round b r).req_id ≡ r.req_id
  unfolding count_round
  id-count_round true r = refl
  id-count_round false r = refl

  pub id-finish_decode :
      (b : Bool) (wid : Option ℤ) (r : Request Number)
      → (finish_decode now b wid r).req_id ≡ r.req_id
  unfolding finish_decode
  id-finish_decode b wid r =
      id-exit_if_finished (wait_decode now wid (count_round b r))
      ∙ id-wait_decode wid (count_round b r)
      ∙ id-count_round b r

  pub id-finish_prefill :
      (b : Bool) (wid : Option ℤ) (r : Request Number)
      → (finish_prefill now b wid r).req_id ≡ r.req_id
  unfolding finish_prefill reset_chunked_prefill_metadata start_decoding wait_prefill
  id-finish_prefill false wid r = id-log_event _ wid r
  id-finish_prefill true wid r =
      if_both (λ (q : Request Number). q.req_id ≡ r.req_id) (ltb 0 r.remain_prefill_lens)
        (wait_prefill now wid (reset_chunked_prefill_metadata r))
        (exit_if_finished now
          (wait_decode now wid (start_decoding (reset_chunked_prefill_metadata r))))
        (id-log_event e_wait_prefill wid (reset_chunked_prefill_metadata r))
        (id-exit_if_finished
            (wait_decode now wid (start_decoding (reset_chunked_prefill_metadata r)))
          ∙ id-wait_decode wid (start_decoding (reset_chunked_prefill_metadata r)))

  remain-log_event :
      (event : Event) (wid : Option ℤ) (r : Request Number)
      → (log_event now event wid r).remain_prefill_lens ≡ r.remain_prefill_lens
  unfolding log_event
  remain-log_event event wid r = ground arith

  remain-exit_if_finished :
      (r : Request Number) → (exit_if_finished now r).remain_prefill_lens ≡ r.remain_prefill_lens
  unfolding exit_if_finished exit_system
  remain-exit_if_finished r =
      if_both (λ (q : Request Number). q.remain_prefill_lens ≡ r.remain_prefill_lens)
        (should_finish r) (exit_system now r) r (remain-log_event e_exit_system no_worker r) refl

  -- The pass itself takes no tokens of the prompt: they were taken at its start.
  remain-finish_prefill :
      (wid : Option ℤ) (r : Request Number)
      → (finish_prefill now true wid r).remain_prefill_lens ≡ r.remain_prefill_lens
  unfolding finish_prefill reset_chunked_prefill_metadata start_decoding wait_prefill wait_decode
  remain-finish_prefill wid r =
      if_both (λ (q : Request Number). q.remain_prefill_lens ≡ r.remain_prefill_lens)
        (ltb 0 r.remain_prefill_lens) (wait_prefill now wid (reset_chunked_prefill_metadata r))
        (exit_if_finished now
          (wait_decode now wid (start_decoding (reset_chunked_prefill_metadata r))))
        (remain-log_event e_wait_prefill wid (reset_chunked_prefill_metadata r))
        (remain-exit_if_finished
            (wait_decode now wid (start_decoding (reset_chunked_prefill_metadata r)))
          ∙ remain-log_event e_wait_decode wid (start_decoding (reset_chunked_prefill_metadata r)))

  -- After the last part of the prompt the counter is at 0.
  pub counter-finish_prefill :
      (wid : Option ℤ) (r : Request Number)
      → ltb 0 (finish_prefill now true wid r).remain_prefill_lens ≡ false
      → (finish_prefill now true wid r).counter ≡ pos 0
  unfolding finish_prefill start_decoding wait_decode
  counter-finish_prefill wid r h =
      let t : ltb 0 r.remain_prefill_lens ≡ false =
        sym (ap (ltb 0) (remain-finish_prefill wid r)) ∙ h in
      rw t (
        counter-exit_if_finished
          (wait_decode now wid (start_decoding (reset_chunked_prefill_metadata r)))
        ∙ counter-log_event e_wait_decode wid (start_decoding (reset_chunked_prefill_metadata r)))
