-- ===== src/DecodingScheduler/Queues.antt =====
-- distserve/decoding_stage_scheduler.py: in which order the queues are served, and when the loops end.
use recompute_or_migrate.Base.{
  true, false, ℕ, zero, suc, ◌+◌, ◌≤◌, ◌<◌, ◌≡◌, refl, sym, ap, subst, ◌∙◌, ◌≢◌, ◌⊎◌, inl, inr,
  none, List, [], ◌∷◌, ◌++◌, map, append_assoc, arith, Option-cases, length, Result, ok, >>=-eq-ok,
  ok-injective,
}
use recompute_or_migrate.Request.{Request}
use recompute_or_migrate.Request.Batch.{BatchedRequests}
use recompute_or_migrate.Request.Migrating.{MigratingRequest}
use recompute_or_migrate.BlockManager.{BlockManager}
use recompute_or_migrate.DecodingScheduler.{
  DecodingScheduler, cur, get_batch, make_room, add_step, add_loop, advance, get_next_batch,
  should_accept,
}
use recompute_or_migrate.DecodingScheduler.Rounds.{
  SwapsOut, AddsSwapped, AddsWaiting, add_step-adds, add_step-none,
}
use recompute_or_migrate.DecodingScheduler.Loops.{make_room-keeps, add_loop-keeps}

queued : DecodingScheduler → ℕ
queued s = length s.swapped_queue + length s.waiting_queue

-- A turn takes one request off a queue, so that as many turns as there are requests are enough.
adds-queued :
    (s s' : DecodingScheduler)
    → AddsSwapped s s' ⊎ AddsWaiting s s'
    → length s'.swapped_queue + length s'.waiting_queue
      < length s.swapped_queue + length s.waiting_queue
adds-queued s s' (inl a) =
    subst
      (λ t.
        length t.swapped_queue + length t.waiting_queue
        < length s.swapped_queue + length s.waiting_queue)
      (sym a.result) (omega (arith, ap (length {A = Request}) a.queue))
adds-queued s s' (inr a) =
    subst
      (λ t.
        length t.swapped_queue + length t.waiting_queue
        < length s.swapped_queue + length s.waiting_queue)
      (sym a.result) (omega (arith, ap (length {A = Request}) a.queue))

cons≢nil : {A : Type 0} {x : A} {xs : List A} → x ∷ xs ≢ []
cons≢nil h = cc

nil_of_length : {A : Type 0} (xs : List A) → length xs ≤ 0 → xs ≡ []
nil_of_length [] h = refl
nil_of_length (x ∷ xs) h = ground arith

add_loop-ends :
    (n : ℕ) (s s' : DecodingScheduler)
    → length s.swapped_queue + length s.waiting_queue ≤ n
    → add_loop n s ≡ ok s'
    → add_step s' ≡ ok none
unfolding add_loop
add_loop-ends zero s s' h e = subst (λ t. add_step t ≡ ok none) (ok-injective e) (empty_queues s h)
  where
    empty_queues :
        (t : DecodingScheduler)
        → length t.swapped_queue + length t.waiting_queue ≤ 0
        → add_step t ≡ ok none
    empty_queues t g =
        add_step-none t (nil_of_length _ (omega (arith, g))) (nil_of_length _ (omega (arith, g)))
add_loop-ends (suc n) s s' h e =
    let (found, stepped, e1) = >>=-eq-ok (add_step s) _ e in
    elim (Option-cases found) [
      | inl gone ↦
          subst (λ t. add_step t ≡ ok none) (ok-injective (rw gone at e1)) (stepped ∙ ap ok gone)
      | inr (t, there) ↦
          add_loop-ends n t s'
            (omega (arith, h, adds-queued s t (add_step-adds s t (stepped ∙ ap ok there))))
            (rw there at e1)
    ]

-- Where the loop stands: the waiting queue has only lost its front, and nothing while a request is swapped
-- out.
record Served (before : List Request) (s : DecodingScheduler) : Type 0 where
  taken : List Request
  in_order : before ≡ taken ++ s.waiting_queue
  priority : (s.swapped_queue ≡ []) ⊎ (taken ≡ [])

SwapsOut-waiting :
    (q : List Request) (s s' : DecodingScheduler)
    → SwapsOut s s'
    → q ≡ s.waiting_queue
    → q ≡ s'.waiting_queue
SwapsOut-waiting q s s' w h = h ∙ ap (λ t. t.waiting_queue) (sym w.result)

AddsSwapped-Served :
    (q : List Request) (s s' : DecodingScheduler) → AddsSwapped s s' → Served q s → Served q s'
AddsSwapped-Served q s s' a h = subst (Served q) (sym a.result) (record {
  taken = h.taken;
  in_order = h.in_order;
  priority = elim h.priority [
    | inl none_swapped ↦ absurd (cons≢nil (sym a.queue ∙ none_swapped))
    | inr none_taken ↦ inr none_taken
  ];
})

AddsWaiting-Served :
    (q : List Request) (s s' : DecodingScheduler) → AddsWaiting s s' → Served q s → Served q s'
AddsWaiting-Served q s s' a h = subst (Served q) (sym a.result) (record {
  taken = h.taken ++ a.added ∷ [];
  in_order =
      h.in_order
      ∙ ap (λ r. h.taken ++ r) a.queue
      ∙ sym (append_assoc h.taken (a.added ∷ []) a.left);
  priority = inl a.none_swapped;
})

-- The returned batch is the current one of the new state.
record Chosen (s : DecodingScheduler) (b : BatchedRequests) (s' : DecodingScheduler) : Type 0 where
  between : DecodingScheduler
  old : BatchedRequests
  roomy : make_room (length old.requests) (advance s) ≡ ok between
  filled : add_loop (length between.swapped_queue + length between.waiting_queue) between ≡ ok s'
  current : get_batch s' (cur s') ≡ ok b

get_next_batch-Chosen :
    (s : DecodingScheduler) (b : BatchedRequests) (s' : DecodingScheduler)
    → get_next_batch s ≡ ok (b, s')
    → Chosen s b s'
unfolding get_next_batch
get_next_batch-Chosen s b s' e =
    let (b0, got, e1) = >>=-eq-ok (get_batch (advance s) (cur (advance s))) _ e in
    let (s1, roomy, e2) = >>=-eq-ok (make_room (length b0.requests) (advance s)) _ e1 in
    let (s2, filled, e3) =
      >>=-eq-ok (add_loop (length s1.swapped_queue + length s1.waiting_queue) s1) _ e2 in
    let (b1, got1, e4) = >>=-eq-ok (get_batch s2 (cur s2)) _ e3 in
    subst (λ p. Chosen s p.0 p.1) (ok-injective e4)
      (record { between = s1; old = b0; roomy = roomy; filled = filled; current = got1 })

-- The waiting queue is served from its front, and only while no request is swapped out: it is the served
-- requests and then the new waiting queue, and where a request was served the swapped queue is empty.
-- The batch is full when it is returned: a further turn of the loop would add nothing.
pub get_next_batch-queues :
    (s : DecodingScheduler) (b : BatchedRequests) (s' : DecodingScheduler)
    → get_next_batch s ≡ ok (b, s')
    → ((taken : List Request) × (s.waiting_queue ≡ taken ++ s'.waiting_queue)
        × ((s'.swapped_queue ≡ []) ⊎ (taken ≡ [])))
      × (add_step s' ≡ ok none)
unfolding advance
get_next_batch-queues s b s' e =
    let c = get_next_batch-Chosen s b s' e in
    let (still, over) =
      make_room-keeps (λ t. s.waiting_queue ≡ t.waiting_queue) (SwapsOut-waiting s.waiting_queue) _
        (advance s) c.between c.roomy refl in
    let served =
      add_loop-keeps (Served s.waiting_queue) (AddsSwapped-Served s.waiting_queue)
        (AddsWaiting-Served s.waiting_queue) _ c.between s' c.filled
        (record { taken = []; in_order = still; priority = inr refl }) in
    (
      (served.taken, served.in_order, served.priority),
      add_loop-ends _ c.between s' (omega arith) c.filled,
    )

-- The acceptance of some requests, from a state to a state: each is to be accepted where those before it
-- leave the state, its blocks are migrated, and it goes to the end of the waiting queue.
abbrev pub Accepts :
    (BlockManager → MigratingRequest → Result BlockManager)
    → DecodingScheduler
    → List MigratingRequest
    → DecodingScheduler
    → Type 0
Accepts migrate s [] t = s ≡ t
Accepts migrate s (m ∷ ms) t =
    (should_accept s m ≡ true)
    × ((manager : BlockManager) × (migrate s.block_manager m ≡ ok manager)
        × Accepts migrate
            (record s { waiting_queue = s.waiting_queue ++ m.req ∷ []; block_manager = manager }) ms
            t)

-- The first of the requests, if there is one, is not to be accepted.
abbrev pub Refuses : DecodingScheduler → List MigratingRequest → Type 0
Refuses s [] = Unit
Refuses s (m ∷ ms) = should_accept s m ≡ false

-- Accepted are the first requests of the unaccepted queue, in order: they go to the end of the waiting
-- queue, and the rest waits on. The loop ends at a request that is not to be accepted, or at none.
record Accepted (migrate : BlockManager → MigratingRequest → Result BlockManager)
    (s : DecodingScheduler) (ms : List MigratingRequest) (s' : DecodingScheduler) : Type 0 where
  taken : List MigratingRequest
  unaccepted : ms ≡ taken ++ s'.unaccepted_queue
  accepts : Accepts migrate s taken (record s' { unaccepted_queue = s.unaccepted_queue })
  refuses : Refuses s' s'.unaccepted_queue
  waiting : s'.waiting_queue ≡ s.waiting_queue ++ map (λ m. m.req) taken
  untouched : (s'.swapped_queue ≡ s.swapped_queue) × (s'.batch_queues ≡ s.batch_queues)
