-- ===== src/Engine/Placement/Aligned.antt =====
-- distserve/engine.py: both stages put the workers of a layer into the same placement group.
use native.Mathlib.Nat.{
  zero-mul, suc-mul, add_comm, mul_comm, mul_assoc, mul-add, div-mul_cancel, dvd-mul_right,
}
use Prim.Native.Nat.{◌∣◌}
use recompute_or_migrate.Base.{
  ℕ, zero, suc, ◌+◌, ◌*◌, ◌/◌, ◌<◌, ◌≡◌, sym, ap, subst, ◌∙◌, some, List, ==_iff, length, get_elem?,
  replicate, lcm, lcm-IsLcm, sum_of, ok, >>=-ok, guard-ok,
}
use recompute_or_migrate.Config.{DisaggParallelConfig}
use recompute_or_migrate.Config.Model.{ModelConfig}
use recompute_or_migrate.Engine.Placement.{init_placement_groups, ParaWorker, init_workers}
use recompute_or_migrate.Engine.Placement.Ranks.{
  AreIn, IsSplit, lpp_pos, lpg_pos, all_ranks, group_of, length-replicate, pos_left, layers_per,
  floor_div_total, all_layers, Started-row, init_workers_total,
}

-- The workers of both stages: each rank has its row, and those of a layer are in one group.
pub record IsAligned (layers groups context_lpp decoding_lpp : ℕ) (cs ds : List (List ParaWorker))
    : Type 0 where
  pub aligned :
      (l : ℕ)
      → l < layers
      → (g : ℕ) × (g < groups)
        × ((row : List ParaWorker) × (get_elem? cs (l / context_lpp) ≡ some row) × AreIn g row)
        × ((row : List ParaWorker) × (get_elem? ds (l / decoding_lpp) ≡ some row) × AreIn g row)

-- What the assertion on the number of workers compares.
total_workers :
    (groups c ct d dt cp dp : ℕ)
    → groups * c ≡ cp
    → groups * d ≡ dp
    → groups * (c * ct + d * dt) ≡ cp * ct + dp * dt
total_workers groups c ct d dt cp dp e f =
    mul-add groups (c * ct) (d * dt)
    ∙ ap (λ (n : ℕ). n + groups * (d * dt)) (sym (mul_assoc groups c ct) ∙ ap (λ (n : ℕ). n * ct) e)
    ∙ ap (λ (n : ℕ). cp * ct + n) (sym (mul_assoc groups d dt) ∙ ap (λ (n : ℕ). n * dt) f)

init_placement_groups_total :
    (m : ModelConfig) (d : DisaggParallelConfig) {layers groups lc ld cg dg : ℕ}
    → m.hf_config.number "num_hidden_layers" ≡ some layers
    → 0 < d.context.pipeline_parallel_size
    → 0 < d.decoding.pipeline_parallel_size
    → IsSplit layers groups (lcm lc ld) lc cg d.context.pipeline_parallel_size
    → IsSplit layers groups (lcm lc ld) ld dg d.decoding.pipeline_parallel_size
    → init_placement_groups m d
      ≡ ok (
          replicate groups
            (cg * d.context.tensor_parallel_size + dg * d.decoding.tensor_parallel_size))
unfolding init_placement_groups
init_placement_groups_total m d {layers} {groups} {lc} {ld} {cg} {dg} e p q s t =
    >>=-ok _ (layers_per m d.context layers lc e p s.ranks)
    ∙ >>=-ok _ (layers_per m d.decoding layers ld e q t.ranks)
    ∙ >>=-ok _ (floor_div_total (lcm lc ld) lc cg (lpp_pos s) s.group)
    ∙ >>=-ok _ (floor_div_total (lcm lc ld) ld dg (lpp_pos t) t.group)
    ∙ >>=-ok _ (all_layers m layers e)
    ∙ >>=-ok _ (floor_div_total layers (lcm lc ld) groups (lpg_pos s) s.all_groups)
    ∙ guard-ok _ _ _
        ((==_iff _ _).1 (total_workers groups cg _ dg _ _ _ (all_ranks s) (all_ranks t)))

sum_of-replicate : (n w : ℕ) → sum_of (λ k. k) (replicate n w) ≡ n * w
sum_of-replicate zero w = sym (zero-mul w)
sum_of-replicate (suc n) w =
    ap (λ (k : ℕ). w + k) (sum_of-replicate n w) ∙ sym (suc-mul n w ∙ add_comm _ _)

-- One stage, whose layers per rank divide those of a group.
divisors-IsSplit :
    {layers lpg : ℕ} (lpp pp : ℕ)
    → 0 < layers
    → lpp * pp ≡ layers
    → lpp ∣ lpg
    → lpg ∣ layers
    → IsSplit layers (layers / lpg) lpg lpp (lpg / lpp) pp
divisors-IsSplit {lpg} lpp pp h e a b = record {
  some_layers = h;
  ranks = e;
  group = div-mul_cancel lpp a;
  all_groups = div-mul_cancel lpg b;
}

-- Where the ranks of either stage share the layers of the model evenly, the assertion on the number of
-- workers holds and nothing is raised, neither by the creation of the placement groups nor by the start
-- of the workers of both stages in them. The groups have as many places as there are workers. Every
-- rank that a layer belongs to has its row of workers, and for each layer the workers of the context
-- stage and those of the decoding stage all stand in the same one of the groups.
pub init_placement_groups-IsAligned :
    (m : ModelConfig) (d : DisaggParallelConfig) (layers lc ld : ℕ)
    → m.hf_config.number "num_hidden_layers" ≡ some layers
    → 0 < layers
    → lc * d.context.pipeline_parallel_size ≡ layers
    → ld * d.decoding.pipeline_parallel_size ≡ layers
    → (groups : List ℕ) × (cs ds : List (List ParaWorker)) × (init_placement_groups m d ≡ ok groups)
      × (sum_of (λ n. n) groups
          ≡ d.context.pipeline_parallel_size * d.context.tensor_parallel_size
            + d.decoding.pipeline_parallel_size * d.decoding.tensor_parallel_size)
      × (init_workers m d.context groups ≡ ok cs)
      × (init_workers m d.decoding groups ≡ ok ds)
      × IsAligned layers (length groups) lc ld cs ds
init_placement_groups-IsAligned m d layers lc ld e h c f =
    let p : 0 < lc = pos_left lc _ (subst (λ (n : ℕ). 0 < n) (sym c) h) in
    let q : 0 < ld = pos_left ld _ (subst (λ (n : ℕ). 0 < n) (sym f) h) in
    let m_lcm = lcm-IsLcm lc ld p q in
    let whole : lcm lc ld ∣ layers =
      m_lcm.least layers (subst (λ (n : ℕ). lc ∣ n) c (dvd-mul_right lc _))
        (subst (λ (n : ℕ). ld ∣ n) f (dvd-mul_right ld _)) in
    let s = divisors-IsSplit lc d.context.pipeline_parallel_size h c m_lcm.left whole in
    let t = divisors-IsSplit ld d.decoding.pipeline_parallel_size h f m_lcm.right whole in
    let cp : 0 < d.context.pipeline_parallel_size =
      pos_left _ lc (subst (λ (n : ℕ). 0 < n) (sym (mul_comm _ lc ∙ c)) h) in
    let dp : 0 < d.decoding.pipeline_parallel_size =
      pos_left _ ld (subst (λ (n : ℕ). 0 < n) (sym (mul_comm _ ld ∙ f)) h) in
    let (cs, start_cs, cs_started) = init_workers_total m d.context _ e cp s in
    let (ds, start_ds, ds_started) = init_workers_total m d.decoding _ e dp t in
    (
      _,
      cs,
      ds,
      init_placement_groups_total m d e cp dp s t,
      sum_of-replicate _ _ ∙ total_workers _ _ _ _ _ _ _ (all_ranks s) (all_ranks t),
      start_cs,
      start_ds,
      record {
        aligned = λ l b. (
          l / lcm lc ld,
          subst (λ (n : ℕ). l / lcm lc ld < n) (sym (length-replicate _ _)) (group_of s l b),
          Started-row s cs cs_started l b,
          Started-row t ds ds_started l b,
        );
      },
    )
