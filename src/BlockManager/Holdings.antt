-- ===== src/BlockManager/Holdings.antt =====
-- distserve/block_manager.py: the blocks that the requests hold, by location.
use recompute_or_migrate.Base.{
  ℕ, ◌+◌, ◌≡◌, refl, ◌≢◌, some, List, arith, ltb, if◌then◌else◌, one_if, count, count-range, Dict,
  lookup, insert, erase, has_key, lookup-insert, lookup-erase, Distinct, total, total-erase,
  total-insert, total-congr,
}
use recompute_or_migrate.BlockManager.{
  BlockManager, BlockLocation, gpu, cpu, is_at, same_location, init,
}
use recompute_or_migrate.BlockManager.Pools.{capacity, pooled}

-- How often a request's blocks at a location hold block `a`.
abbrev pub held : BlockLocation → Dict BlockLocation → ℕ → ℕ → List ℕ → ℕ
held l where_ a k bs = if is_at l (lookup k where_) then count a bs else 0

abbrev pub holdings : BlockLocation → BlockManager → ℕ → ℕ
holdings l m a = total (held l m.request_location a) m.block_table

-- What the blocks count at `l` if they are at `p`.
abbrev pub here : BlockLocation → BlockLocation → ℕ → List ℕ → ℕ
here l p a bs = if same_location l p then count a bs else 0

held-insert_ne :
    (l p : BlockLocation) (a k j : ℕ) (bs : List ℕ) (where_ : Dict BlockLocation)
    → k ≢ j
    → held l (insert k p where_) a j bs ≡ held l where_ a j bs
held-insert_ne l p a k j bs where_ apart = ground (arith, lookup-insert k j p where_)

-- An entry that is set counts at its location, and nothing else of its key does.
pub holdings-insert :
    (l p : BlockLocation) (a k : ℕ) (bs : List ℕ) (where_ : Dict BlockLocation)
    (table : Dict (List ℕ))
    → Distinct table
    → total (held l (insert k p where_) a) (insert k bs table)
      ≡ here l p a bs + total (held l where_ a) (erase k table)
holdings-insert l p a k bs where_ table d = ground (
  arith,
  total-insert (held l (insert k p where_) a) k bs table d,
  total-congr (held l (insert k p where_) a) (held l where_ a) k table
      (λ j v apart. held-insert_ne l p a k j v where_ apart),
  lookup-insert k k p where_,
)

-- The same where only the blocks are set, and the location stays.
pub holdings-insert_blocks :
    (l p : BlockLocation) (a k : ℕ) (bs : List ℕ) (where_ : Dict BlockLocation)
    (table : Dict (List ℕ))
    → Distinct table
    → lookup k where_ ≡ some p
    → total (held l where_ a) (insert k bs table)
      ≡ here l p a bs + total (held l where_ a) (erase k table)
holdings-insert_blocks l p a k bs where_ table d at_ =
    ground (arith, total-insert (held l where_ a) k bs table d)

-- What a request holds, split from the rest.
pub holdings-split :
    (l : BlockLocation) (a k : ℕ) (p : BlockLocation) (bs : List ℕ) (where_ : Dict BlockLocation)
    (table : Dict (List ℕ))
    → Distinct table
    → lookup k table ≡ some bs
    → lookup k where_ ≡ some p
    → total (held l where_ a) table ≡ here l p a bs + total (held l where_ a) (erase k table)
holdings-split l a k p bs where_ table d e at_ =
    ground (arith, total-erase (held l where_ a) k bs table d e)

-- The pop of both entries.
pub holdings-erase :
    (l : BlockLocation) (a k : ℕ) (where_ : Dict BlockLocation) (table : Dict (List ℕ))
    → total (held l (erase k where_) a) (erase k table) ≡ total (held l where_ a) (erase k table)
holdings-erase l a k where_ table =
    total-congr (held l (erase k where_) a) (held l where_ a) k table
      (λ j v apart. ground (arith, lookup-erase k j where_))

-- All that is known of a block manager that has lost and doubled no block: each block below the
-- capacity of its location stands once, in one of the two lists or with one request, and no other
-- block does; a request has a location exactly if it has an entry in the block table.
pub record IsConserved (m : BlockManager) : Type 0 where
  pub once :
      (l : BlockLocation) (a : ℕ) → pooled l m a + holdings l m a ≡ one_if (ltb a (capacity l m))
  pub distinct : Distinct m.block_table
  pub located : (k : ℕ) → has_key k m.request_location ≡ has_key k m.block_table

pub init-IsConserved : (gpus cpus size : ℕ) → IsConserved (init gpus cpus size)
unfolding init total lookup
init-IsConserved gpus cpus size = record { once = init_once; distinct = tt; located = λ k. refl }
  where
    init_once :
        (l : BlockLocation) (a : ℕ)
        → pooled l (init gpus cpus size) a + holdings l (init gpus cpus size) a
          ≡ one_if (ltb a (capacity l (init gpus cpus size)))
    init_once gpu a = omega (arith, count-range a gpus)
    init_once cpu a = omega (arith, count-range a cpus)
