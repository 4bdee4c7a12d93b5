-- ===== src/Memory.antt =====
-- distserve/worker.py: the shape and the size of a worker's key-value cache, and how many blocks fit. The
-- memory of the GPU and the quotient of a float are parameters.
pub mod Fitting
use recompute_or_migrate.Base.{
  ℕ, zero, suc, ◌+◌, ◌-◌, ◌*◌, ◌/◌, ◌%◌, ◌≤◌, ◌<◌, min, max, ◌≡◌, refl, sym, ap, subst, ◌∙◌, ◌≢◌,
  ◌↔◌, ◌⊎◌, inl, inr, Bool, true, false, not, ◌&&◌, ◌||◌, Option, none, some, List, [], ◌∷◌, ◌++◌,
  map, append-nil, append_assoc, arith, ltb, leb, ◌==◌, if◌then◌else◌, ltb→lt, lt→ltb, leb→le,
  le→leb, leb-false→lt, ==_iff, ==_refl, Bool-cases, Option-cases, &&-eq-true, is_some, if_true,
  if_false, if_both, length, take, drop, get_elem?, set, replicate, sum_of, keep, All,
  length-append, length-take, length-drop, take-append-drop, sum_of-append, range_from, range,
  length-range_from, one_if, count, count-append, count-take-drop, count-range, ℤ, pos, negsuc,
  pos_part, neg_part, sub_ℕ, ◌+ℤ◌, ◌-ℤ◌, ◌≤ℤ◌, ltb_ℤ, leb_ℤ, +ℤ_parts, -ℤ_parts, eq_of_parts,
  int_laws, Dict, lookup, insert, erase, has_key, keys, lookup-insert, lookup-erase, Distinct,
  insert-Distinct, erase-Distinct, total, total-erase_absent, total-erase, total-insert,
  total-congr, Error, assertion_error, value_error, key_error, index_error, runtime_error,
  not_implemented, attribute_error, zero_division_error, Result, ok, err, ◌>>=◌, ◌>>◌, guard,
  or_raise, >>=-eq-ok, >>=-ok, guarded-eq-ok, ok-injective, err≢ok, some-injective, none≢some,
  list-cases, or_raise-eq-ok, guard-eq-ok, guard-ok,
}
use recompute_or_migrate.Floats.{Floats, of_ℕ, ratio}
use recompute_or_migrate.Config.{ParallelConfig}
use recompute_or_migrate.Config.Model.{
  ModelConfig, get_num_layers, get_num_heads, get_head_size, get_dtype_size,
  get_model_size_in_bytes,
}

-- `[num_gpu_blocks, num_layers, num_local_heads, block_size, head_dim]`, and with the blocks of the CPU
-- the shape of the swap.
unfoldable pub kv_cache_shape : ModelConfig → ParallelConfig → ℕ → ℕ → Result (List ℕ)
kv_cache_shape m p block_size num_blocks = do
  num_layers ← get_num_layers m p
  num_heads ← get_num_heads m p
  head_dim ← get_head_size m
  ok (num_blocks ∷ num_layers ∷ num_heads ∷ block_size ∷ head_dim ∷ [])

unfoldable pub get_block_size_in_bytes : ModelConfig → ParallelConfig → ℕ → Result ℕ
get_block_size_in_bytes m p block_size = do
  num_layers ← get_num_layers m p
  num_heads ← get_num_heads m p
  head_dim ← get_head_size m
  let key_cache_size = num_layers * num_heads * block_size * head_dim
  let total_size = key_cache_size * 2
  dtype_size ← get_dtype_size m
  ok (total_size * dtype_size)

module _ (F : Floats) where
  -- `floor_quotient x n` is `int(x // n)`. The log of the size of a token divides by `block_size`.
  unfoldable pub profile_num_available_blocks :
      (floor_quotient : F.Carrier → ℕ → ℤ) (total_gpu_memory : ℕ)
      → ModelConfig
      → ParallelConfig
      → (block_size : ℕ) → (gpu_memory_utilization : F.Carrier) → (cpu_swap_space : ℕ)
      → Result (ℕ × ℕ)
  unfolding get_block_size_in_bytes
  profile_num_available_blocks floor_quotient total_gpu_memory m p block_size gpu_memory_utilization
        cpu_swap_space =
      do
        model_size ← get_model_size_in_bytes F m p
        let peak_runtime_memory = F.add (F.mul (of_ℕ F total_gpu_memory) (ratio F 1 100)) model_size
        block_size_in_bytes ← get_block_size_in_bytes m p block_size
        guard (not (block_size == 0)) zero_division_error
        guard (not (block_size_in_bytes == 0)) zero_division_error
        let num_gpu_blocks =
            floor_quotient
              (F.sub (F.mul (of_ℕ F total_gpu_memory) gpu_memory_utilization) peak_runtime_memory)
              block_size_in_bytes
        ok (pos_part num_gpu_blocks, cpu_swap_space / block_size_in_bytes)
