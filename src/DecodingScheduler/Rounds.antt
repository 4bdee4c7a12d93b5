-- ===== src/DecodingScheduler/Rounds.antt =====
-- distserve/decoding_stage_scheduler.py: the two loops of `get_next_batch`, step by step.
use recompute_or_migrate.Base.{
  ◌≡◌, sym, ap, ◌∙◌, ◌⊎◌, inl, inr, true, none, some, List, [], ◌∷◌, ◌++◌, arith, Bool-cases,
  Option-cases, get_elem?, set, index_error, ok, or_raise, >>=-eq-ok, ok-injective, some-injective,
  none≢some, list-cases, or_raise-eq-ok,
}
use recompute_or_migrate.Request.{Request}
use recompute_or_migrate.Request.Batch.{BatchedRequests, add_request}
use recompute_or_migrate.BlockManager.{BlockManager, swap_in_requests, swap_out_requests}
use recompute_or_migrate.DecodingScheduler.{
  DecodingScheduler, cur, get_batch, fits_in, check_add_to_cur_batch, pop_last, swap_out_last,
  add_swapped, add_waiting, add_step,
}

-- The last request of the current batch goes to the end of the swapped queue.
pub record SwapsOut (s s' : DecodingScheduler) : Type 0 where
  pub batch : BatchedRequests
  pub current : get_elem? s.batch_queues (cur s) ≡ some batch
  pub front : List Request
  pub last : Request
  pub split : batch.requests ≡ front ++ last ∷ []
  pub manager : BlockManager
  pub swapped : swap_out_requests s.block_manager (last ∷ []) ≡ ok manager
  pub result : s' ≡ record s {
    swapped_queue = s.swapped_queue ++ last ∷ [];
    batch_queues = set s.batch_queues (cur s) (record batch { requests = front });
    block_manager = manager;
  }

-- A request goes to the end of the current batch, in which it fits: the first of the swapped queue,
-- or, where that is empty, the first of the waiting queue.
pub record AddsSwapped (s s' : DecodingScheduler) : Type 0 where
  pub added : Request
  pub left : List Request
  pub queue : s.swapped_queue ≡ added ∷ left
  pub batch : BatchedRequests
  pub current : get_elem? s.batch_queues (cur s) ≡ some batch
  pub fits : fits_in s batch added ≡ true
  pub manager : BlockManager
  pub swapped : swap_in_requests s.block_manager (added ∷ []) ≡ ok manager
  pub result : s' ≡ record s {
    swapped_queue = left;
    batch_queues =
        set s.batch_queues (cur s) (record batch { requests = batch.requests ++ added ∷ [] });
    block_manager = manager;
  }

pub record AddsWaiting (s s' : DecodingScheduler) : Type 0 where
  pub added : Request
  pub left : List Request
  pub none_swapped : s.swapped_queue ≡ []
  pub queue : s.waiting_queue ≡ added ∷ left
  pub batch : BatchedRequests
  pub current : get_elem? s.batch_queues (cur s) ≡ some batch
  pub fits : fits_in s batch added ≡ true
  pub result : s' ≡ record s {
    waiting_queue = left;
    batch_queues =
        set s.batch_queues (cur s) (record batch { requests = batch.requests ++ added ∷ [] });
  }

pop_last-split :
    (rs front : List Request) (last : Request)
    → pop_last rs ≡ some (front, last)
    → rs ≡ front ++ last ∷ []
unfolding pop_last
pop_last-split [] front last e = cc
pop_last-split (r ∷ []) front last e = ground arith
pop_last-split (r ∷ q ∷ rs) front last e = elim (Option-cases (pop_last (q ∷ rs))) [
  | inl gone ↦ ground arith
  | inr ((f, l), e') ↦ ground (arith, pop_last-split (q ∷ rs) f l e')
]

get_batch-current :
    (s : DecodingScheduler) (b : BatchedRequests)
    → get_batch s (cur s) ≡ ok b
    → get_elem? s.batch_queues (cur s) ≡ some b
unfolding get_batch
get_batch-current s b e = or_raise-eq-ok _ index_error e

pub swap_out_last-SwapsOut : (s s' : DecodingScheduler) → swap_out_last s ≡ ok s' → SwapsOut s s'
unfolding swap_out_last
swap_out_last-SwapsOut s s' e =
    let (b, got, e1) = >>=-eq-ok (get_batch s (cur s)) _ e in
    let ((front, last), popped, e2) = >>=-eq-ok (or_raise (pop_last b.requests) index_error) _ e1 in
    let (manager, swapped, e3) = >>=-eq-ok (swap_out_requests s.block_manager (last ∷ [])) _ e2 in
    record {
      batch = b;
      current = get_batch-current s b got;
      front = front;
      last = last;
      split = pop_last-split b.requests front last (or_raise-eq-ok _ index_error popped);
      manager = manager;
      swapped = swapped;
      result = sym (ok-injective e3);
    }

add_request-with :
    (b b' : BatchedRequests) (r : Request)
    → add_request b r ≡ ok b'
    → b' ≡ record b { requests = b.requests ++ r ∷ [] }
unfolding add_request
add_request-with b b' r e = ground arith

check-fits :
    (s : DecodingScheduler) (r : Request)
    → check_add_to_cur_batch s r ≡ ok true
    → (b : BatchedRequests) × (get_elem? s.batch_queues (cur s) ≡ some b) × (fits_in s b r ≡ true)
unfolding check_add_to_cur_batch
check-fits s r e =
    let (b, got, e1) = >>=-eq-ok (get_batch s (cur s)) _ e in
    (b, get_batch-current s b got, ok-injective e1)

-- A batch that is read twice, and grows by the request.
grown :
    (s : DecodingScheduler) (b b0 b' : BatchedRequests) (r : Request)
    → get_batch s (cur s) ≡ ok b
    → get_elem? s.batch_queues (cur s) ≡ some b0
    → add_request b r ≡ ok b'
    → b' ≡ record b0 { requests = b0.requests ++ r ∷ [] }
grown s b b0 b' r got current added =
    let same : b ≡ b0 = ground (arith, get_batch-current s b got) in
    let grow : BatchedRequests → BatchedRequests =
      λ c. record c { requests = c.requests ++ r ∷ [] } in
    add_request-with b b' r added ∙ ap grow same

add_waiting-AddsWaiting :
    (s s' : DecodingScheduler) (r : Request) (rs : List Request)
    → s.swapped_queue ≡ []
    → s.waiting_queue ≡ r ∷ rs
    → add_waiting s r rs ≡ ok (some s')
    → AddsWaiting s s'
unfolding add_waiting
add_waiting-AddsWaiting s s' r rs none_swapped queue e =
    let (fits, checked, e1) = >>=-eq-ok (check_add_to_cur_batch s r) _ e in
    elim (Bool-cases fits) [
      | inl yes_ ↦
          let (b0, current0, fits0) = check-fits s r (checked ∙ ap ok yes_) in
          let (b, got, e2) = >>=-eq-ok (get_batch s (cur s)) _ (rw yes_ at e1) in
          let (b', added, e3) = >>=-eq-ok (add_request b r) _ e2 in
          record {
            added = r;
            left = rs;
            none_swapped = none_swapped;
            queue = queue;
            batch = b0;
            current = current0;
            fits = fits0;
            result =
                some-injective (sym (ok-injective e3))
                ∙ ap {B = DecodingScheduler}
                    (λ c. record s {
                      waiting_queue = rs;
                      batch_queues = set s.batch_queues (cur s) c;
                    })
                    (grown s b b0 b' r got current0 added);
          }
      | inr no_ ↦ absurd (none≢some (ok-injective (rw no_ at e1)))
    ]

add_swapped-AddsSwapped :
    (s s' : DecodingScheduler) (r : Request) (rs : List Request)
    → s.swapped_queue ≡ r ∷ rs
    → add_swapped s r rs ≡ ok (some s')
    → AddsSwapped s s'
unfolding add_swapped
add_swapped-AddsSwapped s s' r rs queue e =
    let (fits, checked, e1) = >>=-eq-ok (check_add_to_cur_batch s r) _ e in
    elim (Bool-cases fits) [
      | inl yes_ ↦
          let (b0, current0, fits0) = check-fits s r (checked ∙ ap ok yes_) in
          let (manager, swapped, e2) =
            >>=-eq-ok (swap_in_requests s.block_manager (r ∷ [])) _ (rw yes_ at e1) in
          let (b, got, e3) = >>=-eq-ok (get_batch s (cur s)) _ e2 in
          let (b', added, e4) = >>=-eq-ok (add_request b r) _ e3 in
          record {
            added = r;
            left = rs;
            queue = queue;
            batch = b0;
            current = current0;
            fits = fits0;
            manager = manager;
            swapped = swapped;
            result =
                some-injective (sym (ok-injective e4))
                ∙ ap {B = DecodingScheduler}
                    (λ c. record s {
                      swapped_queue = rs;
                      batch_queues = set s.batch_queues (cur s) c;
                      block_manager = manager;
                    })
                    (grown s b b0 b' r got current0 added);
          }
      | inr no_ ↦ absurd (none≢some (ok-injective (rw no_ at e1)))
    ]

add_step-waiting :
    (s : DecodingScheduler) (r : Request) (rs : List Request)
    → s.swapped_queue ≡ []
    → s.waiting_queue ≡ r ∷ rs
    → add_step s ≡ add_waiting s r rs
unfolding add_step
add_step-waiting s r rs none_swapped queue = ground arith

pub add_step-none :
    (s : DecodingScheduler) → s.swapped_queue ≡ [] → s.waiting_queue ≡ [] → add_step s ≡ ok none
unfolding add_step
add_step-none s none_swapped queue = ground arith

add_step-swapped :
    (s : DecodingScheduler) (r : Request) (rs : List Request)
    → s.swapped_queue ≡ r ∷ rs
    → add_step s ≡ add_swapped s r rs
unfolding add_step
add_step-swapped s r rs queue = ground arith

-- A turn of the second loop that is not the `break`.
pub add_step-adds :
    (s s' : DecodingScheduler) → add_step s ≡ ok (some s') → AddsSwapped s s' ⊎ AddsWaiting s s'
add_step-adds s s' e = elim (list-cases s.swapped_queue) [
  | inr (r, rs, q) ↦ inl (add_swapped-AddsSwapped s s' r rs q (sym (add_step-swapped s r rs q) ∙ e))
  | inl none_swapped ↦ elim (list-cases s.waiting_queue) [
    | inr (r, rs, q) ↦ inr (
        add_waiting-AddsWaiting s s' r rs none_swapped q
          (sym (add_step-waiting s r rs none_swapped q) ∙ e))
    | inl q ↦ absurd (none≢some (ok-injective (sym (add_step-none s none_swapped q) ∙ e)))
  ]
]
