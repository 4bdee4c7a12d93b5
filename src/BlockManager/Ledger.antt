-- ===== src/BlockManager/Ledger.antt =====
-- distserve/block_manager.py: what the block manager promises, with the blocks forgotten. A ledger has how
-- many blocks are to be had at each location, and how many a request holds and where. It knows neither
-- which blocks these are, nor the order of the free lists, nor which blocks are lent to a swap.
pub mod Views
pub mod Allocation
pub mod Swaps
pub mod Refinement
use recompute_or_migrate.Base.{
  ℕ, zero, suc, ◌+◌, ◌-◌, ◌*◌, ◌/◌, ◌%◌, ◌≤◌, ◌<◌, min, max, ◌≡◌, refl, sym, ap, subst, ◌∙◌, ◌≢◌,
  ◌↔◌, ◌⊎◌, inl, inr, Bool, true, false, not, ◌&&◌, ◌||◌, Option, none, some, List, [], ◌∷◌, ◌++◌,
  map, append-nil, append_assoc, arith, ltb, leb, ◌==◌, if◌then◌else◌, ltb→lt, lt→ltb, leb→le,
  le→leb, leb-false→lt, ==_iff, ==_refl, Bool-cases, Option-cases, &&-eq-true, is_some, if_true,
  if_false, if_both, length, take, drop, get_elem?, set, replicate, sum_of, keep, All,
  length-append, length-take, length-drop, take-append-drop, sum_of-append, range_from, range,
  length-range_from, one_if, count, count-append, count-take-drop, count-range, ℤ, pos, negsuc,
  pos_part, neg_part, sub_ℕ, ◌+ℤ◌, ◌-ℤ◌, ◌≤ℤ◌, ltb_ℤ, leb_ℤ, +ℤ_parts, -ℤ_parts, eq_of_parts,
  int_laws, Dict, lookup, insert, erase, has_key, keys, lookup-insert, lookup-erase, Distinct,
  insert-Distinct, erase-Distinct, total, total-erase_absent, total-erase, total-insert,
  total-congr, Error, assertion_error, value_error, key_error, index_error, runtime_error,
  not_implemented, attribute_error, Result, ok, err, ◌>>=◌, ◌>>◌, guard, or_raise, >>=-eq-ok,
  >>=-ok, guarded-eq-ok, ok-injective, err≢ok, some-injective, none≢some, list-cases,
  or_raise-eq-ok, guard-eq-ok, guard-ok,
}
use recompute_or_migrate.Request.{Request, get_input_len, get_output_len}
use recompute_or_migrate.BlockManager.{
  BlockManager, BlockLocation, gpu, cpu, same_location, is_at, blocks_for, current_location, other,
  init, get_num_blocks_needed, allocate_new, allocate_more, allocate_blocks, allocate_requests,
  give_back, free_blocks, free_blocks_batched, lend, swap_request, swap_loop, swap_requests,
  get_free_blocks,
}
use recompute_or_migrate.BlockManager.Pools.{
  available, Took, get_free_blocks_lem, get_free_blocks_total,
}
use recompute_or_migrate.BlockManager.History.{
  Call, allocates, allocates_batched, frees, frees_batched, swaps, perform, perform_all,
}

pub record Ledger : Type 0 where
  pub block_size : ℕ
  pub room : BlockLocation → ℕ
  pub size : ℕ → Option ℕ
  pub place : ℕ → Option BlockLocation

-- A function, changed at one key.
abbrev pub change : {A : Type 0} → (ℕ → Option A) → ℕ → Option A → ℕ → Option A
change f k v j = if k == j then v else f j

abbrev pub spend : (BlockLocation → ℕ) → BlockLocation → ℕ → BlockLocation → ℕ
spend room l n p = if same_location l p then room p - n else room p

abbrev pub gain : (BlockLocation → ℕ) → BlockLocation → ℕ → BlockLocation → ℕ
gain room l n p = if same_location l p then room p + n else room p

pub ledger_init : ℕ → ℕ → ℕ → Ledger
ledger_init gpus cpus block_size = record {
  block_size = block_size;
  room = λ l. elim l [ gpu ↦ gpus | cpu ↦ cpus ];
  size = λ k. none;
  place = λ k. none;
}

-- The branches of an allocation, for a request that needs `needed` blocks.
pub ledger_grow : Ledger → ℕ → ℕ → Option ℕ → Result Ledger
ledger_grow s k needed none =
    if leb needed (s.room gpu)
    then ok (record s {
      room = spend s.room gpu needed;
      size = change s.size k (some needed);
      place = change s.place k (some gpu);
    })
    else err assertion_error
ledger_grow s k needed (some held) =
    if ltb held needed
    then (if leb (needed - held) (s.room gpu)
        then ok (record s {
          room = spend s.room gpu (needed - held);
          size = change s.size k (some needed);
        })
        else err assertion_error)
    else ok s

pub ledger_allocate : Ledger → Request → Result Ledger
unfolding ledger_grow
ledger_allocate s r =
    if not (is_some (s.size r.request_id)) || is_at gpu (s.place r.request_id)
    then ledger_grow s r.request_id (blocks_for s.block_size (get_input_len r + get_output_len r))
        (s.size r.request_id)
    else err assertion_error

pub ledger_free : Ledger → ℕ → Result Ledger
ledger_free s k = do
  held ← or_raise (s.size k) assertion_error
  l ← or_raise (s.place k) key_error
  ok (record s {
    room = gain s.room l held;
    size = change s.size k none;
    place = change s.place k none;
  })

pub ledger_swap : BlockLocation → Ledger → ℕ → Result Ledger
ledger_swap current s k = do
  held ← or_raise (s.size k) assertion_error
  l ← or_raise (s.place k) key_error
  guard (same_location l current) assertion_error
  guard (leb held (s.room (other current))) assertion_error
  ok (record s {
    room = gain (spend s.room (other current) held) current held;
    place = change s.place k (some (other current));
  })

-- One call after the other, until one raises.
pub in_turn : {A : Type 0} → (Ledger → A → Result Ledger) → Ledger → List A → Result Ledger
in_turn f s [] = ok s
in_turn f s (a ∷ more) = do s' ← f s a; in_turn f s' more

pub ledger_perform : Ledger → Call → Result Ledger
unfolding ledger_allocate ledger_free ledger_swap in_turn
ledger_perform s (allocates r) = ledger_allocate s r
ledger_perform s (allocates_batched rs) = in_turn ledger_allocate s rs
ledger_perform s (frees k) = ledger_free s k
ledger_perform s (frees_batched rs) = in_turn ledger_free s (map (λ r. r.request_id) rs)
ledger_perform s (swaps rs is_swap_in) =
    in_turn (ledger_swap (current_location is_swap_in)) s (map (λ r. r.request_id) rs)
