-- ===== src/BlockManager/Sizes.antt =====
-- distserve/block_manager.py: a swap leaves the sizes of the cache as they are.
use recompute_or_migrate.Base.{
  ℕ, ◌≡◌, refl, ap, subst, ◌∙◌, Bool, List, [], ◌∷◌, ◌++◌, map, ok, >>=-eq-ok, ok-injective,
}
use recompute_or_migrate.Request.{Request}
use recompute_or_migrate.BlockManager.{
  BlockManager, BlockLocation, gpu, cpu, swap_request, swap_loop, swap_requests, current_location,
}
use recompute_or_migrate.BlockManager.Swapping.{Swaps, swap_request-Swaps}

pub record SameSizes (m m' : BlockManager) : Type 0 where
  pub block : m'.block_size ≡ m.block_size
  pub max_gpu : m'.max_num_gpu_blocks ≡ m.max_num_gpu_blocks

Swaps-SameSizes :
    {m : BlockManager} {current : BlockLocation} {k : ℕ} {old new : List ℕ} {m' : BlockManager}
    → Swaps m current k old new m'
    → SameSizes m m'
Swaps-SameSizes {m} {current = gpu} {k} {old} {new} s =
    subst (SameSizes m) s.result
      (record { block = s.took.same.block; max_gpu = s.took.same.max_gpu })
Swaps-SameSizes {m} {current = cpu} {k} {old} {new} s =
    subst (SameSizes m) s.result
      (record { block = s.took.same.block; max_gpu = s.took.same.max_gpu })

swap_loop-SameSizes :
    (m : BlockManager) (current : BlockLocation) (source target ids src dst : List ℕ)
    (m' : BlockManager)
    → swap_loop m current source target ids ≡ ok (src, dst, m')
    → SameSizes m m'
unfolding swap_loop
swap_loop-SameSizes m current source target [] src dst m' e =
    subst (SameSizes m) (ap (λ t. t.2) (ok-injective e)) (record { block = refl; max_gpu = refl })
swap_loop-SameSizes m current source target (i ∷ ids) src dst m' e =
    let ((old, new, m1), first, more) = >>=-eq-ok (swap_request m current i) _ e in
    let s = Swaps-SameSizes (swap_request-Swaps m current i old new m1 first) in
    let t = swap_loop-SameSizes m1 current (source ++ old) (target ++ new) ids src dst m' more in
    record { block = t.block ∙ s.block; max_gpu = t.max_gpu ∙ s.max_gpu }

pub swap_requests-SameSizes :
    (m : BlockManager) (rs : List Request) (is_swap_in : Bool) (m' : BlockManager)
    → swap_requests m rs is_swap_in ≡ ok m'
    → SameSizes m m'
unfolding swap_requests
swap_requests-SameSizes m rs is_swap_in m' e =
    let ((src, dst, m1), looped, same) =
      >>=-eq-ok (swap_loop m (current_location is_swap_in) [] [] (map (λ r. r.request_id) rs)) _
        e in
    let v = swap_loop-SameSizes m (current_location is_swap_in) [] [] _ src dst m1 looped in
    subst (SameSizes m) (ok-injective same) (record { block = v.block; max_gpu = v.max_gpu })
