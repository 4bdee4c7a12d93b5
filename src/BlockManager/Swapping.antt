-- ===== src/BlockManager/Swapping.antt =====
-- distserve/block_manager.py: `swap_requests` moves the blocks of whole requests.
use recompute_or_migrate.Base.{
  ℕ, ◌+◌, ◌≡◌, refl, sym, ap, subst, ◌∙◌, Bool, true, some, List, [], ◌∷◌, ◌++◌, map, arith, ltb,
  length, length-append, one_if, count-append, lookup, assertion_error, key_error, ok, or_raise,
  >>=-eq-ok, ok-injective, or_raise-eq-ok, guard-eq-ok,
}
use recompute_or_migrate.Request.{Request}
use recompute_or_migrate.BlockManager.{
  BlockManager, BlockLocation, gpu, cpu, same_location, other, get_free_blocks, lend, swap_request,
  swap_loop, swap_requests, current_location, RemoteCall,
}
use recompute_or_migrate.BlockManager.Pools.{
  capacity, pooled, SameTables, Took, get_free_blocks-Took,
}
use recompute_or_migrate.BlockManager.Holdings.{holdings, holdings-split, IsConserved}
use recompute_or_migrate.BlockManager.Conservation.{put, put-holdings, put-located, put-Distinct}

-- One swap, taken apart.
pub record Swaps (m : BlockManager) (current : BlockLocation) (k : ℕ) (old new : List ℕ)
    (m' : BlockManager) : Type 0 where
  pub entry : lookup k m.block_table ≡ some old
  pub at_current : lookup k m.request_location ≡ some current
  pub between : BlockManager
  pub took : Took m (other current) (length old) new between
  pub result : lend (put between k (other current) new) current old ≡ m'

same_location-eq : (a b : BlockLocation) → same_location a b ≡ true → a ≡ b
same_location-eq gpu gpu h = refl
same_location-eq cpu cpu h = refl
same_location-eq gpu cpu h = cc
same_location-eq cpu gpu h = cc

pub swap_request-Swaps :
    (m : BlockManager) (current : BlockLocation) (k : ℕ) (old new : List ℕ) (m' : BlockManager)
    → swap_request m current k ≡ ok (old, new, m')
    → Swaps m current k old new m'
unfolding swap_request
swap_request-Swaps m current k old new m' e =
    let (bs, entry, e1) = >>=-eq-ok (or_raise (lookup k m.block_table) assertion_error) _ e in
    let (p, at_, e2) = >>=-eq-ok (or_raise (lookup k m.request_location) key_error) _ e1 in
    let (same, e3) = guard-eq-ok (same_location p current) assertion_error _ e2 in
    let ((taken, m1), got, e4) = >>=-eq-ok (get_free_blocks m (length bs) (other current)) _ e3 in
    subst (λ t. Swaps m current k t.0 t.1 t.2) (ok-injective e4)
      (record {
        entry = or_raise-eq-ok _ assertion_error entry;
        at_current = or_raise-eq-ok _ key_error at_ ∙ ap some (same_location-eq p current same);
        between = m1;
        took = get_free_blocks-Took m (length bs) (other current) taken m1 got;
        result = refl;
      })

once_swapped :
    (m : BlockManager) (current : BlockLocation) (k : ℕ) (old new : List ℕ) (m1 : BlockManager)
    → IsConserved m
    → lookup k m.block_table ≡ some old
    → lookup k m.request_location ≡ some current
    → Took m (other current) (length old) new m1
    → (l : BlockLocation) (a : ℕ)
    → pooled l (lend (put m1 k (other current) new) current old) a
        + holdings l (lend (put m1 k (other current) new) current old) a
      ≡ one_if (ltb a (capacity l (lend (put m1 k (other current) new) current old)))
once_swapped m gpu k old new m1 c entry at_ t gpu a = ground (
  arith,
  put-holdings gpu cpu a k new t.same c.distinct,
  t.elsewhere a,
  c.once gpu a,
  holdings-split gpu a k gpu old m.request_location m.block_table c.distinct entry at_,
  t.same.max_gpu,
  count-append a m1.swapping_gpu_blocks_list old,
)
once_swapped m gpu k old new m1 c entry at_ t cpu a = ground (
  arith,
  put-holdings cpu cpu a k new t.same c.distinct,
  t.moved a,
  c.once cpu a,
  holdings-split cpu a k gpu old m.request_location m.block_table c.distinct entry at_,
  t.same.max_cpu,
)
once_swapped m cpu k old new m1 c entry at_ t gpu a = ground (
  arith,
  put-holdings gpu gpu a k new t.same c.distinct,
  t.moved a,
  c.once gpu a,
  holdings-split gpu a k cpu old m.request_location m.block_table c.distinct entry at_,
  t.same.max_gpu,
)
once_swapped m cpu k old new m1 c entry at_ t cpu a = ground (
  arith,
  put-holdings cpu gpu a k new t.same c.distinct,
  t.elsewhere a,
  c.once cpu a,
  holdings-split cpu a k cpu old m.request_location m.block_table c.distinct entry at_,
  t.same.max_cpu,
  count-append a m1.swapping_cpu_blocks_list old,
)

lend-IsConserved :
    (m : BlockManager) (current : BlockLocation) (k : ℕ) (old new : List ℕ) (m1 : BlockManager)
    → IsConserved m
    → SameTables m m1
    → ((l : BlockLocation) (a : ℕ)
        → pooled l (lend (put m1 k (other current) new) current old) a
            + holdings l (lend (put m1 k (other current) new) current old) a
          ≡ one_if (ltb a (capacity l (lend (put m1 k (other current) new) current old))))
    → IsConserved (lend (put m1 k (other current) new) current old)
lend-IsConserved m gpu k old new m1 c same once = record {
  once = once;
  distinct = put-Distinct k new same c.distinct;
  located = λ j. put-located k j cpu new same c;
}
lend-IsConserved m cpu k old new m1 c same once = record {
  once = once;
  distinct = put-Distinct k new same c.distinct;
  located = λ j. put-located k j gpu new same c;
}

pub Swaps-IsConserved :
    {m : BlockManager} {current : BlockLocation} {k : ℕ} {old new : List ℕ} {m' : BlockManager}
    → Swaps m current k old new m'
    → IsConserved m
    → IsConserved m'
Swaps-IsConserved {m} {current} {k} {old} {new} s c = subst IsConserved s.result (
    lend-IsConserved m current k old new s.between c s.took.same
      (once_swapped m current k old new s.between c s.entry s.at_current s.took))

pub swap_loop-IsConserved :
    (m : BlockManager) (current : BlockLocation) (source target ids src dst : List ℕ)
    (m' : BlockManager)
    → IsConserved m
    → swap_loop m current source target ids ≡ ok (src, dst, m')
    → IsConserved m'
unfolding swap_loop
swap_loop-IsConserved m current source target [] src dst m' c e =
    subst IsConserved (ap (λ t. t.2) (ok-injective e)) c
swap_loop-IsConserved m current source target (i ∷ ids) src dst m' c e =
    let ((old, new, m1), first, more) = >>=-eq-ok (swap_request m current i) _ e in
    swap_loop-IsConserved m1 current (source ++ old) (target ++ new) ids src dst m'
      (Swaps-IsConserved (swap_request-Swaps m current i old new m1 first) c) more

-- The loop pairs source and target blocks one to one.
pub swap_loop-length :
    (m : BlockManager) (current : BlockLocation) (source target ids src dst : List ℕ)
    (m' : BlockManager)
    → length source ≡ length target
    → swap_loop m current source target ids ≡ ok (src, dst, m')
    → length src ≡ length dst
unfolding swap_loop
swap_loop-length m current source target [] src dst m' h e =
    ap (λ t. length t.0) (sym (ok-injective e)) ∙ h ∙ ap (λ t. length t.1) (ok-injective e)
swap_loop-length m current source target (i ∷ ids) src dst m' h e =
    let ((old, new, m1), first, more) = >>=-eq-ok (swap_request m current i) _ e in
    let s = swap_request-Swaps m current i old new m1 first in
    swap_loop-length m1 current (source ++ old) (target ++ new) ids src dst m'
      (omega (arith, h, s.took.size, length-append {0} source old, length-append {0} target new))
      more

pub swap_requests-IsConserved :
    (m : BlockManager) (rs : List Request) (is_swap_in : Bool) (m' : BlockManager)
    → IsConserved m
    → swap_requests m rs is_swap_in ≡ ok m'
    → IsConserved m'
unfolding swap_requests
swap_requests-IsConserved m rs is_swap_in m' c e =
    let ((src, dst, m1), looped, same) =
      >>=-eq-ok (swap_loop m (current_location is_swap_in) [] [] (map (λ r. r.request_id) rs)) _
        e in
    let v = swap_loop-IsConserved m (current_location is_swap_in) [] [] _ src dst m1 c looped in
    subst IsConserved (ok-injective same)
      (record { once = once_at _ v; distinct = v.distinct; located = v.located })
  where
    once_at :
        {n : BlockManager} (calls : List RemoteCall)
        → IsConserved n
        → (l : BlockLocation) (a : ℕ)
        → pooled l (record n { calls = calls }) a + holdings l (record n { calls = calls }) a
          ≡ one_if (ltb a (capacity l (record n { calls = calls })))
    once_at calls v gpu a = v.once gpu a
    once_at calls v cpu a = v.once cpu a
