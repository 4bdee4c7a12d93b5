-- ===== src/Request/Batch.antt =====
-- distserve/request.py: `BatchedRequests`.
pub mod Iteration
pub mod Finished
use Prim.Native.String.{String}
use recompute_or_migrate.Base.{
  ℕ, zero, suc, ◌+◌, ◌-◌, ◌*◌, ◌/◌, ◌%◌, ◌≤◌, ◌<◌, min, max, ◌≡◌, refl, sym, ap, subst, ◌∙◌, ◌≢◌,
  ◌↔◌, ◌⊎◌, inl, inr, Bool, true, false, not, ◌&&◌, ◌||◌, Option, none, some, List, [], ◌∷◌, ◌++◌,
  map, append-nil, append_assoc, arith, ltb, leb, ◌==◌, if◌then◌else◌, ltb→lt, lt→ltb, leb→le,
  le→leb, leb-false→lt, ==_iff, ==_refl, Bool-cases, Option-cases, &&-eq-true, is_some, length,
  take, drop, get_elem?, set, replicate, sum_of, keep, All, length-append, length-take, length-drop,
  take-append-drop, sum_of-append, range_from, range, one_if, count, count-append, count-take-drop,
  count-range, ℤ, pos, negsuc, pos_part, neg_part, sub_ℕ, ◌+ℤ◌, ◌-ℤ◌, ◌≤ℤ◌, ltb_ℤ, leb_ℤ, +ℤ_parts,
  -ℤ_parts, eq_of_parts, int_laws, Dict, lookup, insert, erase, has_key, keys, lookup-insert,
  lookup-erase, Distinct, insert-Distinct, erase-Distinct, total, total-erase_absent, total-erase,
  total-insert, total-congr, Error, assertion_error, value_error, key_error, index_error,
  runtime_error, not_implemented, attribute_error, Result, ok, err, ◌>>=◌, ◌>>◌, guard, or_raise,
  >>=-eq-ok,
}
use recompute_or_migrate.Request.{
  Request, add_generated_token, add_process_time, get_input_tokens_ids, get_num_input_tokens,
  get_first_new_token_index, is_context_stage, get_kvcache_slots,
}

-- `is_running` is set by `start_one_iteration` alone; a new batch is not running.
pub record BatchedRequests : Type 0 where
  pub requests : List Request
  pub start_time : Option ℤ
  pub is_running : Bool

abbrev pub empty : BatchedRequests
empty = record { requests = []; start_time = none; is_running = false }

abbrev pub get_request_ids : BatchedRequests → List ℕ
get_request_ids b = map (λ r. r.request_id) b.requests

-- `request_id in ids`
unfoldable pub mem_id : ℕ → List ℕ → Bool
mem_id i [] = false
mem_id i (j ∷ ids) = i == j || mem_id i ids

unfoldable pub add_request : BatchedRequests → Request → Result BatchedRequests
unfolding mem_id
add_request b r = do
  guard (not (mem_id r.request_id (get_request_ids b))) assertion_error
  ok (record b { requests = b.requests ++ r ∷ [] })

-- The loop of `pop_finished_requests`, over its two lists.
unfoldable pub split_finished :
    List Request → List Request → List Request → List Request × List Request
split_finished finished unfinished [] = (finished, unfinished)
split_finished finished unfinished (r ∷ rs) =
    split_finished (if r.is_finished then finished ++ r ∷ [] else finished)
      (if r.is_finished then unfinished else unfinished ++ r ∷ []) rs

unfoldable pub pop_finished_requests : BatchedRequests → List Request × BatchedRequests
unfolding split_finished
pop_finished_requests b =
    let (finished, unfinished) = split_finished [] [] b.requests in
    (finished, record b { requests = unfinished })

unfoldable pub start_one_iteration : BatchedRequests → ℤ → Result BatchedRequests
start_one_iteration b start_time = do
  guard (not (is_some b.start_time)) assertion_error
  ok (record b { start_time = some start_time; is_running = true })

-- One turn of the loop: the times of the request, then its new token.
unfoldable pub finish_request : Request → String → ℕ → ℤ → ℤ → Result Request
unfolding add_process_time
finish_request r token token_id start_time end_time =
    add_generated_token
      (add_process_time (record r { last_step_time = end_time }) (end_time -ℤ start_time)) token
      token_id

-- The loop over `zip`: the requests past the shortest list stay as they are.
unfoldable pub finish_requests : List Request → List String → List ℕ → ℤ → ℤ → Result (List Request)
finish_requests (r ∷ rs) (token ∷ tokens) (token_id ∷ ids) start_time end_time = do
  r' ← finish_request r token token_id start_time end_time
  rest ← finish_requests rs tokens ids start_time end_time
  ok (r' ∷ rest)
finish_requests rs _ _ start_time end_time = ok rs

unfoldable pub finish_one_iteration :
    BatchedRequests → List String → List ℕ → ℤ → Result BatchedRequests
finish_one_iteration b generated_tokens generated_tokens_ids end_time = do
  start_time ← or_raise b.start_time assertion_error
  requests ← finish_requests b.requests generated_tokens generated_tokens_ids start_time end_time
  ok (record { requests = requests; start_time = none; is_running = false })

abbrev pub batch_kvcache_slots : BatchedRequests → ℕ
batch_kvcache_slots b = sum_of get_kvcache_slots b.requests

abbrev pub batch_num_input_tokens : BatchedRequests → ℕ
batch_num_input_tokens b = sum_of get_num_input_tokens b.requests

abbrev pub get_input_tokens_batched : BatchedRequests → List (List ℕ)
get_input_tokens_batched b = map get_input_tokens_ids b.requests

abbrev pub get_first_token_indexes : BatchedRequests → List ℕ
get_first_token_indexes b = map get_first_new_token_index b.requests

abbrev pub get_is_context_stage : BatchedRequests → List Bool
get_is_context_stage b = map is_context_stage b.requests
