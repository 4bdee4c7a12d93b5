-- ===== src/BlockManager/Conservation.antt =====
-- distserve/block_manager.py: allocating loses no block and doubles none.
use recompute_or_migrate.Base.{
  ℕ, ◌+◌, ◌-◌, ◌≡◌, subst, ◌⊎◌, inl, inr, none, some, List, [], ◌∷◌, ◌++◌, arith, ltb, Bool-cases,
  Option-cases, length, one_if, count-append, lookup, insert, erase, has_key, lookup-insert,
  Distinct, insert-Distinct, total, total-erase_absent, ok, >>=-eq-ok, ok-injective,
}
use recompute_or_migrate.Request.{Request}
use recompute_or_migrate.BlockManager.{
  BlockManager, BlockLocation, gpu, cpu, get_free_blocks, allocate_new, allocate_more,
  allocate_blocks, allocate_requests, get_num_blocks_needed,
}
use recompute_or_migrate.BlockManager.Pools.{
  capacity, pooled, SameTables, Took, get_free_blocks-Took,
}
use recompute_or_migrate.BlockManager.Holdings.{
  held, holdings, here, holdings-insert, holdings-insert_blocks, holdings-split, IsConserved,
}

-- The two entries of a request, set together.
abbrev pub put : BlockManager → ℕ → BlockLocation → List ℕ → BlockManager
put m k p bs = record m {
  block_table = insert k bs m.block_table;
  request_location = insert k p m.request_location;
}

abbrev pub set_blocks : BlockManager → ℕ → List ℕ → BlockManager
set_blocks m k bs = record m { block_table = insert k bs m.block_table }

-- What the other requests hold.
abbrev pub rest : BlockLocation → BlockManager → ℕ → ℕ → ℕ
rest l m k a = total (held l m.request_location a) (erase k m.block_table)

pub put-holdings :
    (l p : BlockLocation) (a k : ℕ) (bs : List ℕ) {m m' : BlockManager}
    → SameTables m m'
    → Distinct m.block_table
    → holdings l (put m' k p bs) a ≡ here l p a bs + rest l m k a
put-holdings l p a k bs {m} {m'} same d =
    rw (same.table, same.location) (holdings-insert l p a k bs m.request_location m.block_table d)

pub put-located :
    (k j : ℕ) (p : BlockLocation) (bs : List ℕ) {m m' : BlockManager}
    → SameTables m m'
    → IsConserved m
    → has_key j (put m' k p bs).request_location ≡ has_key j (put m' k p bs).block_table
put-located k j p bs {m} {m'} same c =
    rw (same.table, same.location)
      (ground (
        arith,
        lookup-insert k j p m.request_location,
        lookup-insert k j bs m.block_table,
        c.located j,
      ))

pub put-Distinct :
    (k : ℕ) (bs : List ℕ) {m m' : BlockManager}
    → SameTables m m'
    → Distinct m.block_table
    → Distinct (insert k bs m'.block_table)
put-Distinct k bs {m} {m'} same d = rw same.table (insert-Distinct k bs m.block_table d)

-- A request that held nothing is given blocks of the GPU.
put_new-IsConserved :
    (m : BlockManager) (k n : ℕ) (bs : List ℕ) (m' : BlockManager)
    → IsConserved m
    → lookup k m.block_table ≡ none
    → Took m gpu n bs m'
    → IsConserved (put m' k gpu bs)
put_new-IsConserved m k n bs m' c absent t = record {
  once = once_at;
  distinct = put-Distinct k bs t.same c.distinct;
  located = λ j. put-located k j gpu bs t.same c;
}
  where
    once_at :
        (l : BlockLocation) (a : ℕ)
        → pooled l (put m' k gpu bs) a + holdings l (put m' k gpu bs) a
          ≡ one_if (ltb a (capacity l (put m' k gpu bs)))
    once_at gpu a = ground (
      arith,
      put-holdings gpu gpu a k bs t.same c.distinct,
      t.moved a,
      c.once gpu a,
      total-erase_absent (held gpu m.request_location a) k m.block_table absent,
      t.same.max_gpu,
    )
    once_at cpu a = ground (
      arith,
      put-holdings cpu gpu a k bs t.same c.distinct,
      t.elsewhere a,
      c.once cpu a,
      total-erase_absent (held cpu m.request_location a) k m.block_table absent,
      t.same.max_cpu,
    )

allocate_new-IsConserved :
    (m : BlockManager) (k n : ℕ) (m' : BlockManager)
    → IsConserved m
    → lookup k m.block_table ≡ none
    → allocate_new m k n ≡ ok m'
    → IsConserved m'
unfolding allocate_new
allocate_new-IsConserved m k n m' c absent e =
    let ((bs, m1), got, same) = >>=-eq-ok (get_free_blocks m n gpu) _ e in
    subst IsConserved (ok-injective same)
      (put_new-IsConserved m k n bs m1 c absent (get_free_blocks-Took m n gpu bs m1 got))

-- A request that holds blocks of the GPU is given more of them.
put_more-IsConserved :
    (m : BlockManager) (k n : ℕ) (old more : List ℕ) (m' : BlockManager)
    → IsConserved m
    → lookup k m.block_table ≡ some old
    → lookup k m.request_location ≡ some gpu
    → Took m gpu n more m'
    → IsConserved (set_blocks m' k (old ++ more))
put_more-IsConserved m k n old more m' c entry at_gpu t = record {
  once = once_at;
  distinct = put-Distinct k (old ++ more) t.same c.distinct;
  located = λ j.
      rw (t.same.table, t.same.location)
        (ground (arith, lookup-insert k j (old ++ more) m.block_table, c.located j));
}
  where
    grown :
        (l : BlockLocation) (a : ℕ)
        → holdings l (set_blocks m' k (old ++ more)) a ≡ here l gpu a (old ++ more) + rest l m k a
    grown l a =
        rw (t.same.table, t.same.location)
          (holdings-insert_blocks l gpu a k (old ++ more) m.request_location m.block_table
            c.distinct at_gpu)

    once_at :
        (l : BlockLocation) (a : ℕ)
        → pooled l (set_blocks m' k (old ++ more)) a + holdings l (set_blocks m' k (old ++ more)) a
          ≡ one_if (ltb a (capacity l (set_blocks m' k (old ++ more))))
    once_at gpu a = ground (
      arith,
      grown gpu a,
      t.moved a,
      c.once gpu a,
      t.same.max_gpu,
      count-append a old more,
      holdings-split gpu a k gpu old m.request_location m.block_table c.distinct entry at_gpu,
    )
    once_at cpu a = ground (
      arith,
      grown cpu a,
      t.elsewhere a,
      c.once cpu a,
      t.same.max_cpu,
      holdings-split cpu a k gpu old m.request_location m.block_table c.distinct entry at_gpu,
    )

allocate_more-IsConserved :
    (m : BlockManager) (k n : ℕ) (old : List ℕ) (m' : BlockManager)
    → IsConserved m
    → lookup k m.block_table ≡ some old
    → lookup k m.request_location ≡ some gpu
    → allocate_more m k n old ≡ ok m'
    → IsConserved m'
unfolding allocate_more
allocate_more-IsConserved m k n old m' c entry at_gpu e = elim (Bool-cases (ltb (length old) n)) [
  | inl short ↦
      let ((more, m1), got, same) =
        >>=-eq-ok (get_free_blocks m (n - length old) gpu) _ (rw short at e) in
      subst IsConserved (ok-injective same) (
        put_more-IsConserved m k _ old more m1 c entry at_gpu
          (get_free_blocks-Took m _ gpu more m1 got))
  | inr long ↦ subst IsConserved (ok-injective (rw long at e)) c
]

-- A request that gets blocks is on the GPU or new: the guard of `allocate_blocks`.
allocate_blocks-cases :
    (m : BlockManager) (r : Request) (m' : BlockManager)
    → allocate_blocks m r ≡ ok m'
    → (lookup r.request_id m.block_table ≡ none)
        × (allocate_new m r.request_id (get_num_blocks_needed m r) ≡ ok m')
      ⊎ ((old : List ℕ) × (lookup r.request_id m.block_table ≡ some old)
          × (lookup r.request_id m.request_location ≡ some gpu)
          × (allocate_more m r.request_id (get_num_blocks_needed m r) old ≡ ok m'))
unfolding allocate_blocks
allocate_blocks-cases m r m' e = elim (Option-cases (lookup r.request_id m.block_table)) [
  | inl absent ↦ inl (absent, ground arith)
  | inr (old, entry) ↦ inr (old, entry, ground arith, ground arith)
]

pub allocate_blocks-IsConserved :
    (m : BlockManager) (r : Request) (m' : BlockManager)
    → IsConserved m
    → allocate_blocks m r ≡ ok m'
    → IsConserved m'
allocate_blocks-IsConserved m r m' c e = elim (allocate_blocks-cases m r m' e) [
  | inl (absent, e') ↦ allocate_new-IsConserved m r.request_id _ m' c absent e'
  | inr (old, entry, at_gpu, e') ↦
      allocate_more-IsConserved m r.request_id _ old m' c entry at_gpu e'
]

pub allocate_requests-IsConserved :
    (m : BlockManager) (rs : List Request) (m' : BlockManager)
    → IsConserved m
    → allocate_requests m rs ≡ ok m'
    → IsConserved m'
unfolding allocate_requests
allocate_requests-IsConserved m [] m' c e = subst IsConserved (ok-injective e) c
allocate_requests-IsConserved m (r ∷ rs) m' c e =
    let (m1, first, more) = >>=-eq-ok (allocate_blocks m r) _ e in
    allocate_requests-IsConserved m1 rs m' (allocate_blocks-IsConserved m r m1 c first) more
