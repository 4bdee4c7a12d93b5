-- ===== src/BlockManager.antt =====
-- distserve/block_manager.py: the block-level key-value cache of one engine.
-- The callback to the workers is a log of the calls made. A raised assertion ends the engine's
-- event loop, so that the state which it leaves behind is not modelled.
pub mod Pools
pub mod Holdings
pub mod Conservation
pub mod Freeing
pub mod Swapping
pub mod Sizes
pub mod Growth
pub mod History
pub mod Ledger
use recompute_or_migrate.Base.{
  ℕ, zero, suc, ◌+◌, ◌-◌, ◌*◌, ◌/◌, ◌%◌, ◌≤◌, ◌<◌, min, max, ◌≡◌, refl, sym, ap, subst, ◌∙◌, ◌≢◌,
  ◌↔◌, ◌⊎◌, inl, inr, Bool, true, false, not, ◌&&◌, ◌||◌, Option, none, some, List, [], ◌∷◌, ◌++◌,
  map, append-nil, append_assoc, arith, ltb, leb, ◌==◌, if◌then◌else◌, ltb→lt, lt→ltb, leb→le,
  le→leb, leb-false→lt, ==_iff, ==_refl, Bool-cases, Option-cases, &&-eq-true, is_some, length,
  take, drop, get_elem?, set, replicate, sum_of, keep, All, length-append, length-take, length-drop,
  take-append-drop, sum_of-append, range_from, range, one_if, count, count-append, count-take-drop,
  count-range, ℤ, pos, negsuc, pos_part, neg_part, sub_ℕ, ◌+ℤ◌, ◌-ℤ◌, ◌≤ℤ◌, ltb_ℤ, leb_ℤ, +ℤ_parts,
  -ℤ_parts, eq_of_parts, int_laws, Dict, lookup, insert, erase, has_key, keys, lookup-insert,
  lookup-erase, Distinct, insert-Distinct, erase-Distinct, total, total-erase_absent, total-erase,
  total-insert, total-congr, Error, assertion_error, value_error, key_error, index_error,
  runtime_error, not_implemented, attribute_error, Result, ok, err, ◌>>=◌, ◌>>◌, guard, or_raise,
  >>=-eq-ok,
}
use recompute_or_migrate.Request.{Request, get_input_len, get_output_len}
use recompute_or_migrate.Request.Batch.{BatchedRequests}

pub data BlockLocation : Type 0 where
  gpu cpu : BlockLocation

pub data RemoteCall : Type 0 where
  wait_for_all_swap_out wait_for_all_swap_in : RemoteCall
  swap_blocks : (request_ids source target : List ℕ) (is_swap_in : Bool) → RemoteCall

-- `block_size` is that of the cache configuration; the calls stand newest first.
pub record BlockManager : Type 0 where
  pub max_num_gpu_blocks : ℕ
  pub max_num_cpu_blocks : ℕ
  pub block_size : ℕ
  pub free_gpu_blocks_list : List ℕ
  pub free_cpu_blocks_list : List ℕ
  pub swapping_gpu_blocks_list : List ℕ
  pub swapping_cpu_blocks_list : List ℕ
  pub block_table : Dict (List ℕ)
  pub request_location : Dict BlockLocation
  pub calls : List RemoteCall

unfoldable pub init : ℕ → ℕ → ℕ → BlockManager
init max_num_gpu_blocks max_num_cpu_blocks block_size = record {
  max_num_gpu_blocks = max_num_gpu_blocks;
  max_num_cpu_blocks = max_num_cpu_blocks;
  block_size = block_size;
  free_gpu_blocks_list = range max_num_gpu_blocks;
  free_cpu_blocks_list = range max_num_cpu_blocks;
  swapping_gpu_blocks_list = [];
  swapping_cpu_blocks_list = [];
  block_table = [];
  request_location = [];
  calls = [];
}

abbrev pub get_num_avail_gpu_blocks : BlockManager → ℕ
get_num_avail_gpu_blocks m = length m.free_gpu_blocks_list + length m.swapping_gpu_blocks_list

abbrev pub get_num_avail_cpu_blocks : BlockManager → ℕ
get_num_avail_cpu_blocks m = length m.free_cpu_blocks_list + length m.swapping_cpu_blocks_list

-- Waits for the swaps out of the GPU if the free list is too short, and takes their blocks back.
unfoldable pub flush_gpu : BlockManager → ℕ → BlockManager
flush_gpu m num_blocks =
    if ltb (length m.free_gpu_blocks_list) num_blocks
    then record m {
      free_gpu_blocks_list = m.free_gpu_blocks_list ++ m.swapping_gpu_blocks_list;
      swapping_gpu_blocks_list = [];
      calls = wait_for_all_swap_out ∷ m.calls;
    }
    else m

unfoldable pub flush_cpu : BlockManager → ℕ → BlockManager
flush_cpu m num_blocks =
    if ltb (length m.free_cpu_blocks_list) num_blocks
    then record m {
      free_cpu_blocks_list = m.free_cpu_blocks_list ++ m.swapping_cpu_blocks_list;
      swapping_cpu_blocks_list = [];
      calls = wait_for_all_swap_in ∷ m.calls;
    }
    else m

-- The two slices of the free list.
abbrev pub take_gpu : BlockManager → ℕ → List ℕ × BlockManager
take_gpu m num_blocks = (
  take num_blocks m.free_gpu_blocks_list,
  record m { free_gpu_blocks_list = drop num_blocks m.free_gpu_blocks_list },
)

abbrev pub take_cpu : BlockManager → ℕ → List ℕ × BlockManager
take_cpu m num_blocks = (
  take num_blocks m.free_cpu_blocks_list,
  record m { free_cpu_blocks_list = drop num_blocks m.free_cpu_blocks_list },
)

unfoldable pub get_free_blocks : BlockManager → ℕ → BlockLocation → Result (List ℕ × BlockManager)
unfolding flush_gpu flush_cpu
get_free_blocks m num_blocks gpu = do
  guard (leb num_blocks (get_num_avail_gpu_blocks m)) assertion_error
  ok (take_gpu (flush_gpu m num_blocks) num_blocks)
get_free_blocks m num_blocks cpu = do
  guard (leb num_blocks (get_num_avail_cpu_blocks m)) assertion_error
  ok (take_cpu (flush_cpu m num_blocks) num_blocks)

abbrev pub or_empty : Option (List ℕ) → List ℕ
or_empty none = []
or_empty (some bs) = bs

unfoldable pub get_allocated_num_blocks : BlockManager → ℕ → ℕ
get_allocated_num_blocks m request_id = length (or_empty (lookup request_id m.block_table))

unfoldable pub get_location : BlockManager → ℕ → Option BlockLocation
get_location m request_id = lookup request_id m.request_location

-- The block size is positive, so that the division is defined.
abbrev pub blocks_for : ℕ → ℕ → ℕ
blocks_for block_size tokens = (tokens + block_size - 1) / block_size

unfoldable pub get_num_blocks_needed : BlockManager → Request → ℕ
get_num_blocks_needed m r = blocks_for m.block_size (get_input_len r + get_output_len r)

-- `location == BlockLocation.GPU`, and the same of the CPU.
abbrev pub same_location : BlockLocation → BlockLocation → Bool
same_location gpu gpu = true
same_location cpu cpu = true
same_location gpu cpu = false
same_location cpu gpu = false

abbrev pub is_at : BlockLocation → Option BlockLocation → Bool
is_at l none = false
is_at l (some k) = same_location l k

unfoldable pub get_num_append_blocks_needed : BlockManager → Request → Result ℤ
unfolding get_num_blocks_needed
get_num_append_blocks_needed m r = do
  location ← or_raise (lookup r.request_id m.request_location) key_error
  guard (same_location gpu location) assertion_error
  blocks ← or_raise (lookup r.request_id m.block_table) key_error
  ok (sub_ℕ (get_num_blocks_needed m r) (length blocks))

-- The branch of a request that holds no blocks yet.
unfoldable pub allocate_new : BlockManager → ℕ → ℕ → Result BlockManager
allocate_new m request_id needed = do
  (blocks, m') ← get_free_blocks m needed gpu
  ok (record m' {
    block_table = insert request_id blocks m'.block_table;
    request_location = insert request_id gpu m'.request_location;
  })

-- The branch of a request that holds `blocks` on the GPU.
unfoldable pub allocate_more : BlockManager → ℕ → ℕ → List ℕ → Result BlockManager
allocate_more m request_id needed blocks =
    if ltb (length blocks) needed
    then (do
      (more, m') ← get_free_blocks m (needed - length blocks) gpu
      ok (record m' { block_table = insert request_id (blocks ++ more) m'.block_table }))
    else ok m

unfoldable pub allocate_blocks : BlockManager → Request → Result BlockManager
allocate_blocks m r = do
  guard
      (not (has_key r.request_id m.block_table)
        || is_at gpu (lookup r.request_id m.request_location))
      assertion_error
  elim (lookup r.request_id m.block_table) [
    | none ↦ allocate_new m r.request_id (get_num_blocks_needed m r)
    | some blocks ↦ allocate_more m r.request_id (get_num_blocks_needed m r) blocks
  ]

unfoldable pub allocate_requests : BlockManager → List Request → Result BlockManager
allocate_requests m [] = ok m
allocate_requests m (r ∷ rs) = do m' ← allocate_blocks m r; allocate_requests m' rs

unfoldable pub allocate_blocks_batched : BlockManager → BatchedRequests → Result BlockManager
unfolding allocate_requests
allocate_blocks_batched m b = allocate_requests m b.requests

-- The pop of both dicts, with the blocks back at the end of their free list.
abbrev pub give_back : BlockManager → ℕ → BlockLocation → List ℕ → BlockManager
give_back m request_id gpu blocks = record m {
  free_gpu_blocks_list = m.free_gpu_blocks_list ++ blocks;
  block_table = erase request_id m.block_table;
  request_location = erase request_id m.request_location;
}
give_back m request_id cpu blocks = record m {
  free_cpu_blocks_list = m.free_cpu_blocks_list ++ blocks;
  block_table = erase request_id m.block_table;
  request_location = erase request_id m.request_location;
}

unfoldable pub free_blocks : BlockManager → ℕ → Result BlockManager
free_blocks m request_id = do
  blocks ← or_raise (lookup request_id m.block_table) assertion_error
  location ← or_raise (lookup request_id m.request_location) key_error
  ok (give_back m request_id location blocks)

unfoldable pub free_blocks_batched : BlockManager → List Request → Result BlockManager
free_blocks_batched m [] = ok m
free_blocks_batched m (r ∷ rs) = do m' ← free_blocks m r.request_id; free_blocks_batched m' rs

unfoldable pub get_block_table : BlockManager → ℕ → Result (List ℕ)
get_block_table m request_id = or_raise (lookup request_id m.block_table) assertion_error

unfoldable pub get_partial_block_table : BlockManager → List ℕ → Result (List (List ℕ))
unfolding get_block_table
get_partial_block_table m [] = ok []
get_partial_block_table m (i ∷ ids) = do
  blocks ← get_block_table m i
  rest ← get_partial_block_table m ids
  ok (blocks ∷ rest)

-- The blocks that a swap reads from are lent until the swap is known to be over.
abbrev pub lend : BlockManager → BlockLocation → List ℕ → BlockManager
lend m gpu blocks = record m { swapping_gpu_blocks_list = m.swapping_gpu_blocks_list ++ blocks }
lend m cpu blocks = record m { swapping_cpu_blocks_list = m.swapping_cpu_blocks_list ++ blocks }

abbrev pub other : BlockLocation → BlockLocation
other gpu = cpu
other cpu = gpu

-- One turn of the loop of `swap_requests`: the source blocks, the target blocks, the new state.
unfoldable pub swap_request :
    BlockManager → BlockLocation → ℕ → Result (List ℕ × List ℕ × BlockManager)
swap_request m current request_id = do
  old ← or_raise (lookup request_id m.block_table) assertion_error
  location ← or_raise (lookup request_id m.request_location) key_error
  guard (same_location location current) assertion_error
  (new, m') ← get_free_blocks m (length old) (other current)
  ok (
    old,
    new,
    lend
        (record m' {
          block_table = insert request_id new m'.block_table;
          request_location = insert request_id (other current) m'.request_location;
        })
        current old,
  )

unfoldable pub swap_loop :
    BlockManager
    → BlockLocation
    → List ℕ
    → List ℕ
    → List ℕ
    → Result (List ℕ × List ℕ × BlockManager)
swap_loop m current source target [] = ok (source, target, m)
swap_loop m current source target (i ∷ ids) = do
  (old, new, m') ← swap_request m current i
  swap_loop m' current (source ++ old) (target ++ new) ids

abbrev pub current_location : Bool → BlockLocation
current_location true = cpu
current_location false = gpu

unfoldable pub swap_requests : BlockManager → List Request → Bool → Result BlockManager
swap_requests m requests is_swap_in = do
  let ids = map (λ r. r.request_id) requests
  (source, target, m') ← swap_loop m (current_location is_swap_in) [] [] ids
  ok (record m' { calls = swap_blocks ids source target is_swap_in ∷ m'.calls })

abbrev pub swap_in_requests : BlockManager → List Request → Result BlockManager
swap_in_requests m requests = swap_requests m requests true

abbrev pub swap_out_requests : BlockManager → List Request → Result BlockManager
swap_out_requests m requests = swap_requests m requests false

unfoldable pub all_on_gpu : BlockManager → List Request → Result Bool
all_on_gpu m [] = ok true
all_on_gpu m (r ∷ rs) = do
  location ← or_raise (lookup r.request_id m.request_location) key_error
  let rest = all_on_gpu m rs
  if same_location cpu location then ok false else rest

unfoldable pub is_all_requests_on_gpu : BlockManager → BatchedRequests → Result Bool
unfolding all_on_gpu
is_all_requests_on_gpu m b = all_on_gpu m b.requests
