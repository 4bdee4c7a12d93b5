-- ===== src/Engine/Placement.antt =====
-- distserve/engine.py and distserve/single_stage_engine.py: the placement groups of the cluster, and the
-- workers that each stage puts into them. A group is known by the number of its workers and its place.
pub mod Ranks
pub mod Aligned
use recompute_or_migrate.Base.{
  ℕ, zero, suc, ◌+◌, ◌-◌, ◌*◌, ◌/◌, ◌%◌, ◌≤◌, ◌<◌, min, max, ◌≡◌, refl, sym, ap, subst, ◌∙◌, ◌≢◌,
  ◌↔◌, ◌⊎◌, inl, inr, Bool, true, false, not, ◌&&◌, ◌||◌, Option, none, some, List, [], ◌∷◌, ◌++◌,
  map, append-nil, append_assoc, arith, ltb, leb, ◌==◌, if◌then◌else◌, ltb→lt, lt→ltb, leb→le,
  le→leb, leb-false→lt, ==_iff, ==_refl, Bool-cases, Option-cases, &&-eq-true, is_some, if_true,
  if_false, if_both, length, take, drop, get_elem?, set, replicate, lcm, IsLcm, lcm-IsLcm, sum_of,
  keep, All, length-append, length-take, length-drop, take-append-drop, sum_of-append, range_from,
  range, length-range_from, one_if, count, count-append, count-take-drop, count-range, ℤ, pos,
  negsuc, pos_part, neg_part, sub_ℕ, ◌+ℤ◌, ◌-ℤ◌, ◌≤ℤ◌, ltb_ℤ, leb_ℤ, +ℤ_parts, -ℤ_parts,
  eq_of_parts, int_laws, Dict, lookup, insert, erase, has_key, keys, lookup-insert, lookup-erase,
  Distinct, insert-Distinct, erase-Distinct, total, total-erase_absent, total-erase, total-insert,
  total-congr, Error, assertion_error, value_error, key_error, index_error, runtime_error,
  not_implemented, attribute_error, zero_division_error, Result, ok, err, ◌>>=◌, ◌>>◌, guard,
  or_raise, >>=-eq-ok, >>=-ok, guarded-eq-ok, ok-injective, err≢ok, some-injective, none≢some,
  list-cases, or_raise-eq-ok, guard-eq-ok, guard-ok,
}
use recompute_or_migrate.Config.{ParallelConfig, DisaggParallelConfig}
use recompute_or_migrate.Config.Model.{
  ModelConfig, default_parallel_config, floor_div, get_num_layers,
}

-- The groups, by the numbers of their workers.
unfoldable pub init_placement_groups : ModelConfig → DisaggParallelConfig → Result (List ℕ)
init_placement_groups m d = do
  layer_per_context_pp ← get_num_layers m d.context
  layer_per_decoding_pp ← get_num_layers m d.decoding
  let layer_per_placement_group = lcm layer_per_context_pp layer_per_decoding_pp
  context_pps ← floor_div layer_per_placement_group layer_per_context_pp
  decoding_pps ← floor_div layer_per_placement_group layer_per_decoding_pp
  let workers_per_placement_group =
      context_pps * d.context.tensor_parallel_size + decoding_pps * d.decoding.tensor_parallel_size
  all_layers ← get_num_layers m default_parallel_config
  num_placement_groups ← floor_div all_layers layer_per_placement_group
  guard
      (num_placement_groups * workers_per_placement_group
        == d.context.pipeline_parallel_size * d.context.tensor_parallel_size
          + d.decoding.pipeline_parallel_size * d.decoding.tensor_parallel_size)
      assertion_error
  ok (replicate num_placement_groups workers_per_placement_group)

-- A worker that is started: its number, its ranks, and the place of its group.
pub record ParaWorker : Type 0 where
  pub worker_id : ℕ
  pub placement_group_index : ℕ
  pub parallel_config : ParallelConfig

unfoldable pub start_worker : ParallelConfig → (i placement_group_index j : ℕ) → ParaWorker
start_worker p i placement_group_index j = record {
  worker_id = i * p.tensor_parallel_size + j;
  placement_group_index = placement_group_index;
  parallel_config = record p { pipeline_parallel_rank = i; tensor_parallel_rank = j };
}

-- The workers of some pipeline ranks, in the groups.
unfoldable pub start_stages : ParallelConfig → List ℕ → ℕ → List ℕ → Result (List (List ParaWorker))
unfolding start_worker
start_stages p placement_groups pp_per_placement_group [] = ok []
start_stages p placement_groups pp_per_placement_group (i ∷ ranks) = do
  placement_group_index ← floor_div i pp_per_placement_group
  cur_placement_group ← or_raise (get_elem? placement_groups placement_group_index) index_error
  rest ← start_stages p placement_groups pp_per_placement_group ranks
  ok (map (start_worker p i placement_group_index) (range p.tensor_parallel_size) ∷ rest)

unfoldable pub init_workers :
    ModelConfig → ParallelConfig → List ℕ → Result (List (List ParaWorker))
unfolding start_stages
init_workers m p placement_groups = do
  all_layers ← get_num_layers m default_parallel_config
  layer_per_placement_group ← floor_div all_layers (length placement_groups)
  layer_per_pp ← get_num_layers m p
  pp_per_placement_group ← floor_div layer_per_placement_group layer_per_pp
  start_stages p placement_groups pp_per_placement_group (range p.pipeline_parallel_size)
