-- ===== src/DecodingEngine/Migration.antt =====
-- distserve/single_stage_engine.py: the blocks that a migrated request gets in the decoding stage.
use recompute_or_migrate.Base.{
  ℕ, ◌≤◌, ◌≡◌, ap, subst, ◌∙◌, inl, none, some, List, arith, ◌==◌, if_true, length, lookup,
  assertion_error, ok, or_raise, >>=-eq-ok, >>=-ok, ok-injective, or_raise-eq-ok, guard-eq-ok,
}
use recompute_or_migrate.Request.Migrating.{MigratingRequest}
use recompute_or_migrate.BlockManager.{
  BlockManager, gpu, or_empty, allocate_blocks, get_block_table, get_num_blocks_needed,
  get_allocated_num_blocks,
}
use recompute_or_migrate.BlockManager.Pools.{available}
use recompute_or_migrate.BlockManager.Holdings.{IsConserved}
use recompute_or_migrate.BlockManager.Conservation.{allocate_blocks-IsConserved}
use recompute_or_migrate.BlockManager.Growth.{Grown, allocate_blocks_total}
use recompute_or_migrate.DecodingEngine.{migrate_blocks, prompt_only}

-- The cache once a request is migrated: well formed, with as many blocks for the request as it had in the
-- context stage.
pub record Migrated (m : BlockManager) (x : MigratingRequest) (m' : BlockManager) : Type 0 where
  pub blocks : List ℕ
  pub entry : lookup x.req.request_id m'.block_table ≡ some blocks
  pub paired : length blocks ≡ length x.block_indexes
  pub conserved : IsConserved m'

pub migrate_blocks-Migrated :
    (m : BlockManager) (x : MigratingRequest) (m' : BlockManager)
    → IsConserved m
    → migrate_blocks m x ≡ ok m'
    → Migrated m x m'
unfolding migrate_blocks get_block_table
migrate_blocks-Migrated m x m' c e =
    let (m1, allocated, e1) = >>=-eq-ok (allocate_blocks m (prompt_only x.req)) _ e in
    let (target, got, e2) = >>=-eq-ok (get_block_table m1 x.req.request_id) _ e1 in
    let (paired, e3) = guard-eq-ok (length target == length x.block_indexes) assertion_error _ e2 in
    subst (Migrated m x) (ok-injective e3) (record {
      blocks = target;
      entry = or_raise-eq-ok _ assertion_error got;
      paired = ground (arith, paired);
      conserved = allocate_blocks-IsConserved m (prompt_only x.req) m1 c allocated;
    })

-- A request that the decoding stage does not hold, and that has in the context stage the blocks for its
-- prompt, is migrated whenever so many blocks are free or lent to a swap: no assertion fails, the request gets
-- as many blocks as it had, and every other request keeps its own.
pub migrate_blocks_total :
    (m : BlockManager) (x : MigratingRequest)
    → lookup x.req.request_id m.block_table ≡ none
    → get_num_blocks_needed m (prompt_only x.req) ≡ length x.block_indexes
    → length x.block_indexes ≤ available gpu m
    → (m' : BlockManager) × (migrate_blocks m x ≡ ok m')
      × Grown m x.req.request_id (length x.block_indexes) m'
unfolding migrate_blocks get_block_table get_allocated_num_blocks
migrate_blocks_total m x absent needed fits =
    let (m1, e1, g) =
      allocate_blocks_total m (prompt_only x.req) (inl absent) (omega (arith, needed, fits)) in
    let none_yet : length (or_empty (lookup x.req.request_id m.block_table)) ≡ 0 = rw absent in
    let size : length g.blocks ≡ length x.block_indexes = omega (arith, g.size, none_yet, needed) in
    (
      m1,
      >>=-ok _ e1
          ∙ >>=-ok _ (ap (λ o. or_raise o assertion_error) g.entry)
          ∙ >>=-ok _
              (if_true (length g.blocks == length x.block_indexes) _ _ (ground (arith, size))),
      subst (λ n. Grown m x.req.request_id n m1) needed g,
    )
