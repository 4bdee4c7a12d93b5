-- ===== src/Engine/Placement/Ranks.antt =====
-- distserve/single_stage_engine.py: the ranks of a stage are started, each in the group of its layers.
use native.Mathlib.Nat.{
  zero-mul, mul-one, mul_comm, mul_assoc, eq_of_mul-eq-mul_right, mul-div_cancel, div-lt_iff_lt-mul,
  div-div-eq-div-mul,
}
use recompute_or_migrate.Base.{
  ℕ, zero, suc, ◌+◌, ◌*◌, ◌/◌, ◌≤◌, ◌<◌, ◌≡◌, refl, sym, ap, subst, ◌∙◌, Option, some, List, [],
  ◌∷◌, map, arith, ◌==◌, if_false, length, get_elem?, replicate, All, range_from, index_error,
  zero_division_error, ok, err, or_raise, >>=-ok,
}
use recompute_or_migrate.Config.{ParallelConfig, parallel_config}
use recompute_or_migrate.Config.Model.{
  ModelConfig, default_parallel_config, floor_div, get_num_layers,
}
use recompute_or_migrate.Config.Splits.{exact_div_iff, get_num_layers_lem}
use recompute_or_migrate.Engine.Placement.{ParaWorker, start_worker, start_stages, init_workers}

-- Every worker of a rank stands in the group `g`.
abbrev pub AreIn : ℕ → List ParaWorker → Type 0
AreIn g workers = All (λ w. w.placement_group_index ≡ g) workers

start_worker-AreIn :
    (p : ParallelConfig) (i g : ℕ) (js : List ℕ) → AreIn g (map (start_worker p i g) js)
unfolding start_worker
start_worker-AreIn p i g [] = tt
start_worker-AreIn p i g (j ∷ js) = (refl, start_worker-AreIn p i g js)

-- The ranks from `start` on are started, each in the group of its place.
pub record Started (ws : List (List ParaWorker)) (start n ppg : ℕ) : Type 0 where
  pub all_ranks : length ws ≡ n
  pub places :
      (i : ℕ)
      → i < n
      → (row : List ParaWorker) × (get_elem? ws i ≡ some row) × AreIn ((start + i) / ppg) row

pub get_elem?-replicate : (n a i : ℕ) → i < n → get_elem? (replicate n a) i ≡ some a
get_elem?-replicate zero a i h = absurd (omega (arith, h))
get_elem?-replicate (suc n) a zero h = refl
get_elem?-replicate (suc n) a (suc i) h = get_elem?-replicate n a i (omega (arith, h))

pub length-replicate : (n a : ℕ) → length (replicate n a) ≡ n
length-replicate zero a = refl
length-replicate (suc n) a = ap suc (length-replicate n a)

Started-cons :
    (row : List ParaWorker) (ws : List (List ParaWorker)) (start n ppg : ℕ)
    → AreIn (start / ppg) row
    → Started ws (suc start) n ppg
    → Started (row ∷ ws) start (suc n) ppg
Started-cons row ws start n ppg a rest = record {
  all_ranks = ap suc rest.all_ranks;
  places = λ i h. Started-at row ws start n ppg a rest i h;
}
  where
    Started-at :
        (row : List ParaWorker) (ws : List (List ParaWorker)) (start n ppg : ℕ)
        → AreIn (start / ppg) row
        → Started ws (suc start) n ppg
        → (i : ℕ) → i < suc n
        → (r : List ParaWorker) × (get_elem? (row ∷ ws) i ≡ some r) × AreIn ((start + i) / ppg) r
    Started-at row ws start n ppg a rest zero h =
        (row, refl, subst (λ (k : ℕ). AreIn (k / ppg) row) (omega arith) a)
    Started-at row ws start n ppg a rest (suc i) h =
        let (r, e, b) = rest.places i (omega (arith, h)) in
        (r, e, subst (λ (k : ℕ). AreIn (k / ppg) r) (omega arith) b)

start_stages-Started :
    (p : ParallelConfig) (groups w ppg start n : ℕ)
    → 0 < ppg
    → start + n ≤ groups * ppg
    → (ws : List (List ParaWorker)) × (start_stages p (replicate groups w) ppg (range_from start n)
        ≡ ok ws)
      × Started ws start n ppg
unfolding start_stages
start_stages-Started p groups w ppg start zero q h =
    ([], refl, record { all_ranks = refl; places = λ i b. absurd (omega (arith, b)) })
start_stages-Started p groups w ppg start (suc n) q h =
    let (ws, e, started) = start_stages-Started p groups w ppg (suc start) n q (omega (arith, h)) in
    let inside : start / ppg < groups = (div-lt_iff_lt-mul q).1 (omega (arith, h)) in
    let divides : floor_div start ppg ≡ ok (start / ppg) = ground (arith, q) in
    (
      _,
      >>=-ok _ divides
          ∙ >>=-ok _ (
              ap (λ (g : Option ℕ). or_raise g index_error)
                (get_elem?-replicate groups w (start / ppg) inside))
          ∙ >>=-ok _ e,
      Started-cons _ ws start n ppg (start_worker-AreIn p start (start / ppg) _) started,
    )

pub pos_left : (a b : ℕ) → 0 < a * b → 0 < a
pos_left zero b h = absurd (omega (arith, h, zero-mul b))
pos_left (suc a) b h = omega arith

pub all_layers :
    (m : ModelConfig) (layers : ℕ)
    → m.hf_config.number "num_hidden_layers" ≡ some layers
    → get_num_layers m default_parallel_config ≡ ok layers
unfolding parallel_config
all_layers m layers e =
    get_num_layers_lem m default_parallel_config layers e
    ∙ (exact_div_iff layers 1 layers).1 (omega arith, mul-one layers)

pub layers_per :
    (m : ModelConfig) (p : ParallelConfig) (layers lpp : ℕ)
    → m.hf_config.number "num_hidden_layers" ≡ some layers
    → 0 < p.pipeline_parallel_size
    → lpp * p.pipeline_parallel_size ≡ layers
    → get_num_layers m p ≡ ok lpp
layers_per m p layers lpp e q whole =
    get_num_layers_lem m p layers e ∙ (exact_div_iff layers _ lpp).1 (q, whole)

pub floor_div_total : (a b q : ℕ) → 0 < b → q * b ≡ a → floor_div a b ≡ ok q
floor_div_total a b q p e =
    if_false (b == 0) (err zero_division_error) (ok (a / b)) (ground (arith, p))
    ∙ ap (λ (n : ℕ). ok (n / b)) (sym e)
    ∙ ap (λ (n : ℕ). ok n) (mul-div_cancel q p)

-- The numbers of a stage: the ranks of a group are `ppg`, of `lpp` layers each.
pub record IsSplit (layers groups lpg lpp ppg pp : ℕ) : Type 0 where
  pub some_layers : 0 < layers
  pub ranks : lpp * pp ≡ layers
  pub group : ppg * lpp ≡ lpg
  pub all_groups : groups * lpg ≡ layers

module _ {layers groups lpg lpp ppg pp : ℕ} (s : IsSplit layers groups lpg lpp ppg pp) where
  pub lpp_pos : 0 < lpp
  lpp_pos = pos_left lpp pp (subst (λ (n : ℕ). 0 < n) (sym s.ranks) s.some_layers)

  groups_pos : 0 < groups
  groups_pos = pos_left groups lpg (subst (λ (n : ℕ). 0 < n) (sym s.all_groups) s.some_layers)

  pub lpg_pos : 0 < lpg
  lpg_pos =
      pos_left lpg groups
        (subst (λ (n : ℕ). 0 < n) (sym (mul_comm lpg groups ∙ s.all_groups)) s.some_layers)

  pub ppg_pos : 0 < ppg
  ppg_pos = pos_left ppg lpp (subst (λ (n : ℕ). 0 < n) (sym s.group) lpg_pos)

  pub all_ranks : groups * ppg ≡ pp
  all_ranks = eq_of_mul-eq-mul_right lpp lpp_pos (groups * ppg) pp (
      mul_assoc groups ppg lpp
      ∙ ap (λ (n : ℕ). groups * n) s.group
      ∙ s.all_groups
      ∙ sym s.ranks
      ∙ mul_comm lpp pp)

  place : (l : ℕ) → (0 + l / lpp) / ppg ≡ l / lpg
  place l =
      ap (λ (n : ℕ). n / ppg) (omega arith)
      ∙ div-div-eq-div-mul l lpp ppg
      ∙ ap (λ (n : ℕ). l / n) (mul_comm lpp ppg ∙ s.group)

  rank : (l : ℕ) → l < layers → l / lpp < pp
  rank l h =
      (div-lt_iff_lt-mul lpp_pos).1 (subst (λ (n : ℕ). l < n) (sym (mul_comm pp lpp ∙ s.ranks)) h)

  pub group_of : (l : ℕ) → l < layers → l / lpg < groups
  group_of l h = (div-lt_iff_lt-mul lpg_pos).1 (subst (λ (n : ℕ). l < n) (sym s.all_groups) h)

pub Started-row :
    {layers groups lpg lpp ppg pp : ℕ} (s : IsSplit layers groups lpg lpp ppg pp)
    (ws : List (List ParaWorker))
    → Started ws 0 pp ppg
    → (l : ℕ) → l < layers
    → (row : List ParaWorker) × (get_elem? ws (l / lpp) ≡ some row) × AreIn (l / lpg) row
Started-row {lpp} s ws started l h =
    let (row, e, a) = started.places (l / lpp) (rank s l h) in
    (row, e, subst (λ (g : ℕ). AreIn g row) (place s l) a)

pub init_workers_total :
    (m : ModelConfig) (p : ParallelConfig) (w : ℕ) {layers groups lpg lpp ppg : ℕ}
    → m.hf_config.number "num_hidden_layers" ≡ some layers
    → 0 < p.pipeline_parallel_size
    → IsSplit layers groups lpg lpp ppg p.pipeline_parallel_size
    → (ws : List (List ParaWorker)) × (init_workers m p (replicate groups w) ≡ ok ws)
      × Started ws 0 p.pipeline_parallel_size ppg
unfolding init_workers
init_workers_total m p w {layers} {groups} {lpg} {lpp} {ppg} e q s =
    let (ws, run, started) =
      start_stages-Started p groups w ppg 0 p.pipeline_parallel_size (ppg_pos s)
        (omega (arith, all_ranks s)) in
    (
      ws,
      >>=-ok _ (all_layers m layers e)
          ∙ >>=-ok _ (
              ap (floor_div layers) (length-replicate groups w)
              ∙ floor_div_total layers groups lpg (groups_pos s)
                  (mul_comm lpg groups ∙ s.all_groups))
          ∙ >>=-ok _ (layers_per m p layers lpp e q s.ranks)
          ∙ >>=-ok _ (floor_div_total lpg lpp ppg (lpp_pos s) s.group)
          ∙ run,
      started,
    )
