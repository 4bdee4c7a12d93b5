-- ===== src/Memory/Fitting.antt =====
-- distserve/worker.py: the swap space of a worker holds the blocks that are counted for it.
use native.Mathlib.Nat.{div-mul-le_self, lt-div-mul-add}
use recompute_or_migrate.Base.{
  ℕ, ◌+◌, ◌*◌, ◌/◌, ◌≤◌, ◌<◌, ◌≡◌, ap, subst, ◌∙◌, not, List, [], ◌∷◌, arith, ◌==◌, ℤ, ok,
  >>=-eq-ok, >>=-ok, ok-injective, guard-eq-ok,
}
use recompute_or_migrate.Floats.{Floats}
use recompute_or_migrate.Config.{ParallelConfig}
use recompute_or_migrate.Config.Model.{
  ModelConfig, get_num_layers, get_num_heads, get_head_size, get_dtype_size,
  get_model_size_in_bytes,
}
use recompute_or_migrate.Memory.{
  kv_cache_shape, get_block_size_in_bytes, profile_num_available_blocks,
}

-- The number of the elements of a tensor.
abbrev pub elements : List ℕ → ℕ
elements [] = 1
elements (n ∷ shape) = n * elements shape

-- The bytes of two tensors, for keys and values.
abbrev pub bytes_of : ℕ → List ℕ → ℕ
bytes_of dtype_size shape = 2 * elements shape * dtype_size

sizes :
    (n layers heads block_size dim dtype_size : ℕ)
    → bytes_of dtype_size (n ∷ layers ∷ heads ∷ block_size ∷ dim ∷ [])
      ≡ n * (layers * heads * block_size * dim * 2 * dtype_size)
sizes n layers heads block_size dim dtype_size = grind arith

-- The caches of any number of blocks take that number times the bytes of a block.
pub kv_cache_shape_lem :
    (m : ModelConfig) (p : ParallelConfig) (block_size bytes : ℕ)
    → get_block_size_in_bytes m p block_size ≡ ok bytes
    → (dtype_size : ℕ) × (get_dtype_size m ≡ ok dtype_size)
      × ((n : ℕ)
          → (shape : List ℕ) × (kv_cache_shape m p block_size n ≡ ok shape)
            × (bytes_of dtype_size shape ≡ n * bytes))
unfolding get_block_size_in_bytes kv_cache_shape
kv_cache_shape_lem m p block_size bytes e =
    let (layers, a, e1) = >>=-eq-ok (get_num_layers m p) _ e in
    let (heads, b, e2) = >>=-eq-ok (get_num_heads m p) _ e1 in
    let (dim, c, e3) = >>=-eq-ok (get_head_size m) _ e2 in
    let (size, d, e4) = >>=-eq-ok (get_dtype_size m) _ e3 in
    (
      size,
      d,
      λ n. (
        _,
        >>=-ok _ a ∙ >>=-ok _ b ∙ >>=-ok _ c,
        sizes n layers heads block_size dim size ∙ ap (λ (k : ℕ). n * k) (ok-injective e4),
      ),
    )

suc_times : (n b : ℕ) → (n + 1) * b ≡ n * b + b
suc_times n b = grind arith

-- The shape of a swap that fits, where one of a block more does not.
pub record IsFilled (m : ModelConfig) (p : ParallelConfig) (block_size space blocks : ℕ)
    : Type 0 where
  pub dtype_size : ℕ
  pub dtype : get_dtype_size m ≡ ok dtype_size
  pub shape : List ℕ
  pub is_shape : kv_cache_shape m p block_size blocks ≡ ok shape
  pub fits : bytes_of dtype_size shape ≤ space
  pub larger : List ℕ
  pub is_larger : kv_cache_shape m p block_size (blocks + 1) ≡ ok larger
  pub full : space < bytes_of dtype_size larger

filled :
    (m : ModelConfig) (p : ParallelConfig) (block_size bytes space : ℕ)
    → get_block_size_in_bytes m p block_size ≡ ok bytes
    → 0 < bytes
    → IsFilled m p block_size space (space / bytes)
filled m p block_size bytes space e h =
    let (dtype_size, d, at) = kv_cache_shape_lem m p block_size bytes e in
    let (shape, is_shape, small) = at (space / bytes) in
    let (larger, is_larger, large) = at (space / bytes + 1) in
    record {
      dtype_size = dtype_size;
      dtype = d;
      shape = shape;
      is_shape = is_shape;
      fits = omega (arith, small, div-mul-le_self space bytes);
      larger = larger;
      is_larger = is_larger;
      full = omega (arith, large, suc_times (space / bytes) bytes, lt-div-mul-add {a = space} h);
    }

module _ (F : Floats) where
  -- If the profiling of a worker returns, no matter what the floats are, the two swap tensors of as many
  -- blocks as it counts for the CPU fit in the swap space, and those of one block more do not.
  pub profile_num_available_blocks-IsFilled :
      (floor_quotient : F.Carrier → ℕ → ℤ) (total_gpu_memory : ℕ) (m : ModelConfig)
      (p : ParallelConfig) (block_size : ℕ) (gpu_memory_utilization : F.Carrier)
      (cpu_swap_space gpu_blocks cpu_blocks : ℕ)
      → profile_num_available_blocks F floor_quotient total_gpu_memory m p block_size
          gpu_memory_utilization cpu_swap_space
        ≡ ok (gpu_blocks, cpu_blocks)
      → IsFilled m p block_size cpu_swap_space cpu_blocks
  unfolding profile_num_available_blocks
  profile_num_available_blocks-IsFilled floor_quotient total_gpu_memory m p block_size
        gpu_memory_utilization cpu_swap_space gpu_blocks cpu_blocks e =
      let (model_size, a, e1) = >>=-eq-ok (get_model_size_in_bytes F m p) _ e in
      let (bytes, b, e2) = >>=-eq-ok (get_block_size_in_bytes m p block_size) _ e1 in
      let (c, e3) = guard-eq-ok (not (block_size == 0)) _ _ e2 in
      let (d, e4) = guard-eq-ok (not (bytes == 0)) _ _ e3 in
      subst (IsFilled m p block_size cpu_swap_space) (ap (λ (t : ℕ × ℕ). t.1) (ok-injective e4))
        (filled m p block_size bytes cpu_swap_space b (ground (arith, d)))
