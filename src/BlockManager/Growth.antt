-- ===== src/BlockManager/Growth.antt =====
-- distserve/block_manager.py: what a request holds after `allocate_blocks`.
use recompute_or_migrate.Base.{
  append-nil, [], ℕ, ◌+◌, ◌-◌, ◌*◌, ◌≤◌, ◌<◌, max, ◌≡◌, refl, ◌≢◌, ◌⊎◌, inl, inr, none, some, List,
  ◌++◌, arith, ltb, Bool-cases, length, length-append, lookup, insert, lookup-insert,
  assertion_error, ok, err,
}
use recompute_or_migrate.Request.{Request}
use recompute_or_migrate.BlockManager.{
  BlockManager, gpu, cpu, blocks_for, get_num_blocks_needed, allocate_new, allocate_more,
  allocate_blocks, or_empty, get_allocated_num_blocks,
}
use recompute_or_migrate.BlockManager.Pools.{available, get_free_blocks_total}

-- The number of blocks is the least whose slots hold the tokens.
pub blocks_for_bounds :
    (block_size tokens : ℕ)
    → 0 < block_size
    → (tokens ≤ blocks_for block_size tokens * block_size)
      × (blocks_for block_size tokens * block_size < tokens + block_size)
blocks_for_bounds block_size tokens h = omega arith

-- A request that may grow: it holds nothing yet, or its blocks are on the GPU.
abbrev pub MayGrow : BlockManager → ℕ → Type 0
MayGrow m k =
    (lookup k m.block_table ≡ none)
    ⊎ ((bs : List ℕ) × (lookup k m.block_table ≡ some bs)
        × (lookup k m.request_location ≡ some gpu))

-- A request holds enough blocks on the GPU, those that it held and then `extra`, and no other entry of
-- the block table has changed.
pub record Grown (m : BlockManager) (k needed : ℕ) (m' : BlockManager) : Type 0 where
  pub blocks : List ℕ
  pub extra : List ℕ
  pub kept : blocks ≡ or_empty (lookup k m.block_table) ++ extra
  pub entry : lookup k m'.block_table ≡ some blocks
  pub on_gpu : lookup k m'.request_location ≡ some gpu
  pub size : length blocks ≡ max (length (or_empty (lookup k m.block_table))) needed
  pub others : (j : ℕ) → k ≢ j → lookup j m'.block_table ≡ lookup j m.block_table
  pub left :
      available gpu m' + length blocks
      ≡ available gpu m + length (or_empty (lookup k m.block_table))

allocate_new-Grown :
    (m : BlockManager) (k needed : ℕ)
    → lookup k m.block_table ≡ none
    → needed ≤ available gpu m
    → (m' : BlockManager) × (allocate_new m k needed ≡ ok m') × Grown m k needed m'
unfolding allocate_new
allocate_new-Grown m k needed absent fits =
    let (bs, m1, got, t) = get_free_blocks_total m needed gpu fits in
    (
      record m1 {
        block_table = insert k bs m1.block_table;
        request_location = insert k gpu m1.request_location;
      },
      rw got,
      record {
        blocks = bs;
        extra = bs;
        kept = rw absent refl;
        entry = ground (arith, lookup-insert k k bs m1.block_table);
        on_gpu = ground (arith, lookup-insert k k gpu m1.request_location);
        size = rw absent (omega (arith, t.size));
        others = λ j apart. ground (arith, lookup-insert k j bs m1.block_table, t.same.table);
        left = rw absent (omega (arith, t.size, t.left));
      },
    )

allocate_more-Grown :
    (m : BlockManager) (k needed : ℕ) (old : List ℕ)
    → lookup k m.block_table ≡ some old
    → lookup k m.request_location ≡ some gpu
    → needed - length old ≤ available gpu m
    → (m' : BlockManager) × (allocate_more m k needed old ≡ ok m') × Grown m k needed m'
unfolding allocate_more
allocate_more-Grown m k needed old entry at_gpu fits = elim (Bool-cases (ltb (length old) needed)) [
  | inl short ↦
      let (bs, m1, got, t) = get_free_blocks_total m (needed - length old) gpu fits in
      (
        record m1 { block_table = insert k (old ++ bs) m1.block_table },
        rw (short, got),
        record {
          blocks = old ++ bs;
          extra = bs;
          kept = rw entry refl;
          entry = ground (arith, lookup-insert k k (old ++ bs) m1.block_table);
          on_gpu = ground (arith, t.same.location);
          size = rw entry (ground (arith, t.size, length-append old bs));
          others =
              λ j apart. ground (arith, lookup-insert k j (old ++ bs) m1.block_table, t.same.table);
          left = rw entry (omega (arith, t.size, t.left, length-append {0} old bs));
        },
      )
  | inr long ↦ (
    m,
    rw long,
    record {
      blocks = old;
      extra = [];
      kept = rw (entry, append-nil old) refl;
      entry = entry;
      on_gpu = at_gpu;
      size = rw entry (ground arith);
      others = λ j apart. refl;
      left = rw entry;
    },
  )
]

-- With enough blocks free or lent to a swap, a request that may grow is given the blocks that its
-- tokens need: the assertions pass, it keeps the blocks that it held, in front of those that are added,
-- and the other requests keep theirs.
pub allocate_blocks_total :
    (m : BlockManager) (r : Request)
    → MayGrow m r.request_id
    → get_num_blocks_needed m r - get_allocated_num_blocks m r.request_id ≤ available gpu m
    → (m' : BlockManager) × (allocate_blocks m r ≡ ok m')
      × Grown m r.request_id (get_num_blocks_needed m r) m'
unfolding allocate_blocks get_allocated_num_blocks
allocate_blocks_total m r (inl absent) fits =
    let (m', e, g) =
      allocate_new-Grown m r.request_id (get_num_blocks_needed m r) absent
        (omega (arith, (rw absent at fits))) in
    (m', ground arith, g)
allocate_blocks_total m r (inr (old, entry, at_gpu)) fits =
    let (m', e, g) =
      allocate_more-Grown m r.request_id (get_num_blocks_needed m r) old entry at_gpu
        (rw entry at fits) in
    (m', ground arith, g)

-- A request whose blocks are on the CPU is refused, whatever is free.
pub allocate_blocks_on_cpu :
    (m : BlockManager) (r : Request) (bs : List ℕ)
    → lookup r.request_id m.block_table ≡ some bs
    → lookup r.request_id m.request_location ≡ some cpu
    → allocate_blocks m r ≡ err assertion_error
unfolding allocate_blocks
allocate_blocks_on_cpu m r bs entry at_cpu = ground arith
