-- ===== src/BlockManager/Freeing.antt =====
-- distserve/block_manager.py: freeing loses no block and doubles none.
use recompute_or_migrate.Base.{
  ℕ, ◌+◌, ◌≡◌, subst, some, List, [], ◌∷◌, arith, ltb, one_if, count-append, lookup, erase, has_key,
  lookup-erase, Distinct, erase-Distinct, total, assertion_error, key_error, ok, or_raise,
  >>=-eq-ok, ok-injective, or_raise-eq-ok,
}
use recompute_or_migrate.Request.{Request}
use recompute_or_migrate.BlockManager.{
  BlockManager, BlockLocation, gpu, cpu, give_back, free_blocks, free_blocks_batched,
}
use recompute_or_migrate.BlockManager.Pools.{capacity, pooled}
use recompute_or_migrate.BlockManager.Holdings.{
  held, holdings, here, holdings-split, holdings-erase, IsConserved,
}
use recompute_or_migrate.BlockManager.Conservation.{rest}

give_back-IsConserved :
    (m : BlockManager) (k : ℕ) (p : BlockLocation) (bs : List ℕ)
    → IsConserved m
    → lookup k m.block_table ≡ some bs
    → lookup k m.request_location ≡ some p
    → IsConserved (give_back m k p bs)
give_back-IsConserved m k p bs c entry at_ = record {
  once = once_at p at_;
  distinct = distinct_at p;
  located = located_at p;
}
  where
    split :
        (l q : BlockLocation) (a : ℕ)
        → lookup k m.request_location ≡ some q
        → holdings l m a ≡ here l q a bs + rest l m k a
    split l q a at_q =
        holdings-split l a k q bs m.request_location m.block_table c.distinct entry at_q

    gone :
        (l : BlockLocation) (a : ℕ)
        → total (held l (erase k m.request_location) a) (erase k m.block_table) ≡ rest l m k a
    gone l a = holdings-erase l a k m.request_location m.block_table

    once_at :
        (q : BlockLocation)
        → lookup k m.request_location ≡ some q
        → (l : BlockLocation) (a : ℕ)
        → pooled l (give_back m k q bs) a + holdings l (give_back m k q bs) a
          ≡ one_if (ltb a (capacity l (give_back m k q bs)))
    once_at gpu at_q gpu a = omega (
      arith,
      split gpu gpu a at_q,
      gone gpu a,
      c.once gpu a,
      count-append a m.free_gpu_blocks_list bs,
    )
    once_at gpu at_q cpu a = omega (arith, split cpu gpu a at_q, gone cpu a, c.once cpu a)
    once_at cpu at_q gpu a = omega (arith, split gpu cpu a at_q, gone gpu a, c.once gpu a)
    once_at cpu at_q cpu a = omega (
      arith,
      split cpu cpu a at_q,
      gone cpu a,
      c.once cpu a,
      count-append a m.free_cpu_blocks_list bs,
    )

    distinct_at : (q : BlockLocation) → Distinct (give_back m k q bs).block_table
    distinct_at gpu = erase-Distinct k m.block_table c.distinct
    distinct_at cpu = erase-Distinct k m.block_table c.distinct

    located_at :
        (q : BlockLocation) (j : ℕ)
        → has_key j (give_back m k q bs).request_location
          ≡ has_key j (give_back m k q bs).block_table
    located_at gpu j =
        ground
          (arith, lookup-erase k j m.request_location, lookup-erase k j m.block_table, c.located j)
    located_at cpu j =
        ground
          (arith, lookup-erase k j m.request_location, lookup-erase k j m.block_table, c.located j)

pub free_blocks-IsConserved :
    (m : BlockManager) (k : ℕ) (m' : BlockManager)
    → IsConserved m
    → free_blocks m k ≡ ok m'
    → IsConserved m'
unfolding free_blocks
free_blocks-IsConserved m k m' c e =
    let (bs, entry, e1) = >>=-eq-ok (or_raise (lookup k m.block_table) assertion_error) _ e in
    let (p, at_, e2) = >>=-eq-ok (or_raise (lookup k m.request_location) key_error) _ e1 in
    subst IsConserved (ok-injective e2) (
      give_back-IsConserved m k p bs c (or_raise-eq-ok _ assertion_error entry)
        (or_raise-eq-ok _ key_error at_))

pub free_blocks_batched-IsConserved :
    (m : BlockManager) (rs : List Request) (m' : BlockManager)
    → IsConserved m
    → free_blocks_batched m rs ≡ ok m'
    → IsConserved m'
unfolding free_blocks_batched
free_blocks_batched-IsConserved m [] m' c e = subst IsConserved (ok-injective e) c
free_blocks_batched-IsConserved m (r ∷ rs) m' c e =
    let (m1, first, more) = >>=-eq-ok (free_blocks m r.request_id) _ e in
    free_blocks_batched-IsConserved m1 rs m' (free_blocks-IsConserved m r.request_id m1 c first)
      more
