-- ===== src/BlockManager/Pools.antt =====
-- distserve/block_manager.py: what `_get_free_blocks` hands out, and what it leaves.
use recompute_or_migrate.Base.{
  ℕ, ◌+◌, ◌≤◌, ◌≡◌, sym, subst, ◌∙◌, List, ◌++◌, arith, leb, if◌then◌else◌, leb→le, length,
  length-append, length-take, length-drop, count, count-append, count-take-drop, assertion_error,
  ok, err, guarded-eq-ok,
}
use recompute_or_migrate.BlockManager.{
  BlockManager, BlockLocation, gpu, cpu, flush_gpu, flush_cpu, take_gpu, take_cpu, get_free_blocks,
  other,
}

-- The fields of the block manager by location.
abbrev pub free : BlockLocation → BlockManager → List ℕ
free gpu m = m.free_gpu_blocks_list
free cpu m = m.free_cpu_blocks_list

abbrev pub swapping : BlockLocation → BlockManager → List ℕ
swapping gpu m = m.swapping_gpu_blocks_list
swapping cpu m = m.swapping_cpu_blocks_list

abbrev pub capacity : BlockLocation → BlockManager → ℕ
capacity gpu m = m.max_num_gpu_blocks
capacity cpu m = m.max_num_cpu_blocks

abbrev pub available : BlockLocation → BlockManager → ℕ
available l m = length (free l m) + length (swapping l m)

-- How often a block stands in the two lists of a location.
abbrev pub pooled : BlockLocation → BlockManager → ℕ → ℕ
pooled l m a = count a (free l m) + count a (swapping l m)

-- What does not change when blocks are taken.
pub record SameTables (m m' : BlockManager) : Type 0 where
  pub table : m'.block_table ≡ m.block_table
  pub location : m'.request_location ≡ m.request_location
  pub max_gpu : m'.max_num_gpu_blocks ≡ m.max_num_gpu_blocks
  pub max_cpu : m'.max_num_cpu_blocks ≡ m.max_num_cpu_blocks
  pub block : m'.block_size ≡ m.block_size

pub record Took (m : BlockManager) (l : BlockLocation) (n : ℕ) (bs : List ℕ) (m' : BlockManager)
    : Type 0 where
  pub enough : n ≤ available l m
  pub size : length bs ≡ n
  pub moved : (a : ℕ) → count a bs + pooled l m' a ≡ pooled l m a
  pub elsewhere : (a : ℕ) → pooled (other l) m' a ≡ pooled (other l) m a
  pub left : available l m' + n ≡ available l m
  pub left_elsewhere : available (other l) m' ≡ available (other l) m
  pub same : SameTables m m'

abbrev pub grab : BlockManager → ℕ → BlockLocation → List ℕ × BlockManager
grab m n gpu = take_gpu (flush_gpu m n) n
grab m n cpu = take_cpu (flush_cpu m n) n

pub get_free_blocks_lem :
    (m : BlockManager) (n : ℕ) (l : BlockLocation)
    → get_free_blocks m n l
      ≡ (if leb n (available l m) then ok (grab m n l) else err assertion_error)
unfolding get_free_blocks
get_free_blocks_lem m n gpu = ground arith
get_free_blocks_lem m n cpu = ground arith

grab-Took :
    (m : BlockManager) (n : ℕ) (l : BlockLocation)
    → n ≤ available l m
    → Took m l n (grab m n l).0 (grab m n l).1
unfolding flush_gpu flush_cpu
grab-Took m n gpu h = record {
  enough = h;
  size = ground (
    arith,
    length-take n m.free_gpu_blocks_list,
    length-take n (m.free_gpu_blocks_list ++ m.swapping_gpu_blocks_list),
    length-append m.free_gpu_blocks_list m.swapping_gpu_blocks_list,
  );
  moved = λ a. ground (
    arith,
    count-take-drop a n m.free_gpu_blocks_list,
    count-take-drop a n (m.free_gpu_blocks_list ++ m.swapping_gpu_blocks_list),
    count-append a m.free_gpu_blocks_list m.swapping_gpu_blocks_list,
  );
  elsewhere = λ a. ground arith;
  left = ground (
    arith,
    length-drop n m.free_gpu_blocks_list,
    length-drop n (m.free_gpu_blocks_list ++ m.swapping_gpu_blocks_list),
    length-append m.free_gpu_blocks_list m.swapping_gpu_blocks_list,
  );
  left_elsewhere = ground arith;
  same = ground arith;
}
grab-Took m n cpu h = record {
  enough = h;
  size = ground (
    arith,
    length-take n m.free_cpu_blocks_list,
    length-take n (m.free_cpu_blocks_list ++ m.swapping_cpu_blocks_list),
    length-append m.free_cpu_blocks_list m.swapping_cpu_blocks_list,
  );
  moved = λ a. ground (
    arith,
    count-take-drop a n m.free_cpu_blocks_list,
    count-take-drop a n (m.free_cpu_blocks_list ++ m.swapping_cpu_blocks_list),
    count-append a m.free_cpu_blocks_list m.swapping_cpu_blocks_list,
  );
  elsewhere = λ a. ground arith;
  left = ground (
    arith,
    length-drop n m.free_cpu_blocks_list,
    length-drop n (m.free_cpu_blocks_list ++ m.swapping_cpu_blocks_list),
    length-append m.free_cpu_blocks_list m.swapping_cpu_blocks_list,
  );
  left_elsewhere = ground arith;
  same = ground arith;
}

pub get_free_blocks-Took :
    (m : BlockManager) (n : ℕ) (l : BlockLocation) (bs : List ℕ) (m' : BlockManager)
    → get_free_blocks m n l ≡ ok (bs, m')
    → Took m l n bs m'
get_free_blocks-Took m n l bs m' e =
    let (fits, same) =
      guarded-eq-ok (leb n (available l m)) (grab m n l) assertion_error
        (sym (get_free_blocks_lem m n l) ∙ e) in
    subst (λ p. Took m l n p.0 p.1) same (grab-Took m n l (leb→le _ _ fits))

-- Blocks are handed out exactly if enough are free or lent to a swap.
pub get_free_blocks_total :
    (m : BlockManager) (n : ℕ) (l : BlockLocation)
    → n ≤ available l m
    → (bs : List ℕ) × (m' : BlockManager) × (get_free_blocks m n l ≡ ok (bs, m')) × Took m l n bs m'
get_free_blocks_total m n l h =
    ((grab m n l).0, (grab m n l).1, get_free_blocks_lem m n l ∙ ground arith, grab-Took m n l h)
