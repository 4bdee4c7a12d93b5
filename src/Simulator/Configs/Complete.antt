-- ===== src/Simulator/Configs/Complete.antt =====
-- simdistserve/benchmarks/search_configs.py: which configurations are found.
use Prim.Native.String.{String}
use recompute_or_migrate.Base.{
  ℕ, ◌*◌, ◌≤◌, ◌<◌, ◌≡◌, refl, sym, subst, ◌∙◌, ◌↔◌, ◌⊎◌, inl, inr, Bool, true, false, ◌||◌, List,
  [], ◌∷◌, arith, leb, if◌then◌else◌, leb→le, le→leb, &&-eq-true, ok, >>=-ok,
}
use recompute_or_migrate.Simulator.Configs.{
  Config, divisors, mem_ℕ, product, gpu_per_segment, is_possible, up_to, configs_of,
  model_hyperparams, get_distserve_configs, formalize_model_name, get_model_possible_tp,
  get_model_possible_pp,
}
use recompute_or_migrate.Simulator.Configs.Members.{
  Has, kept, keeps, Has-each, each_cases, Has-map, map_cases, mem_ℕ→Has, Has→mem_ℕ, Divides,
  divisor, Has-divisors,
}

-- The choices of a configuration.
pub record IsChosen (cpps tps pps : List ℕ) (c : Config) : Type 0 where
  pub cross : Has c.pp_cross cpps
  pub tp_first : Has c.tp_prefill tps
  pub pp_first : Has c.pp_prefill pps
  pub tp_second : Has c.tp_decode tps
  pub pp_second : Has c.pp_decode pps

chosen :
    (cpps tps pps : List ℕ) (c : Config) → Has c (product cpps tps pps) → IsChosen cpps tps pps c
unfolding product
chosen cpps tps pps c h =
    let (a1, h1, r1) = each_cases _ c cpps h in
    let (a2, h2, r2) = each_cases _ c tps r1 in
    let (a3, h3, r3) = each_cases _ c pps r2 in
    let (a4, h4, r4) = each_cases _ c tps r3 in
    let (a5, h5, e) = map_cases _ c pps r4 in
    record {
      cross = subst (λ (d : Config). Has d.pp_cross cpps) (sym e) h1;
      tp_first = subst (λ (d : Config). Has d.tp_prefill tps) (sym e) h2;
      pp_first = subst (λ (d : Config). Has d.pp_prefill pps) (sym e) h3;
      tp_second = subst (λ (d : Config). Has d.tp_decode tps) (sym e) h4;
      pp_second = subst (λ (d : Config). Has d.pp_decode pps) (sym e) h5;
    }

Has-product :
    (cpps tps pps : List ℕ) (c : Config) → IsChosen cpps tps pps c → Has c (product cpps tps pps)
unfolding product
Has-product cpps tps pps c h = Has-each _ c.pp_cross c cpps h.cross (
    Has-each _ c.tp_prefill c tps h.tp_first (
      Has-each _ c.pp_prefill c pps h.pp_first
        (Has-each _ c.tp_decode c tps h.tp_second (Has-map _ c.pp_decode pps h.pp_second))))

-- A configuration that a cluster has room for, of a model with so many layers and heads. Without high
-- affinity the workers of a segment stand in one node, and segments are spread over the nodes.
pub record IsAllowed (num_node num_gpu_per_node : ℕ) (is_high_affinity : Bool) (layers heads : ℕ)
    (c : Config) : Type 0 where
  pub tp_prefill : Divides c.tp_prefill heads
  pub tp_decode : Divides c.tp_decode heads
  pub pp_prefill : Divides c.pp_prefill layers
  pub pp_decode : Divides c.pp_decode layers
  pub stages_prefill : Divides (c.pp_cross * c.pp_prefill) layers
  pub stages_decode : Divides (c.pp_cross * c.pp_decode) layers
  pub room : c.pp_cross * gpu_per_segment c ≤ num_node * num_gpu_per_node
  pub node : (is_high_affinity ≡ true) ⊎ (gpu_per_segment c ≤ num_gpu_per_node)
  pub cross :
      ((is_high_affinity ≡ true) × (c.pp_cross ≡ 1))
      ⊎ ((is_high_affinity ≡ false) × Divides c.pp_cross layers × (c.pp_cross ≤ num_node))

up_to_lem : (k bound : ℕ) (ks : List ℕ) → Has k (up_to bound ks) ↔ (Has k ks × (k ≤ bound))
unfolding up_to
up_to_lem k bound ks = (
  λ h. let (m, t) = kept (λ j. leb j bound) k ks h in (m, leb→le k bound t),
  λ h. keeps (λ j. leb j bound) k ks h.0 (le→leb k bound h.1),
)

high_or : (high : Bool) (a g : ℕ) → (high || leb a g) ≡ true → (high ≡ true) ⊎ (a ≤ g)
high_or true a g h = inl refl
high_or false a g h = inr (leb→le a g h)

or_high : (high : Bool) (a g : ℕ) → (high ≡ true) ⊎ (a ≤ g) → (high || leb a g) ≡ true
or_high true a g h = refl
or_high false a g (inl e) = cc
or_high false a g (inr h) = le→leb a g h

-- The four tests of the loop.
tests_hold :
    (n g : ℕ) (high : Bool) (pps : List ℕ) (c : Config)
    → is_possible n g high pps c ≡ true
    → ((high ≡ true) ⊎ (gpu_per_segment c ≤ g))
      × (c.pp_cross * gpu_per_segment c ≤ n * g)
      × Has (c.pp_cross * c.pp_prefill) pps
      × Has (c.pp_cross * c.pp_decode) pps
unfolding is_possible
tests_hold n g high pps c h =
    let (a, d) = &&-eq-true _ (mem_ℕ (c.pp_cross * c.pp_decode) pps) h in
    let (a', p) = &&-eq-true _ (mem_ℕ (c.pp_cross * c.pp_prefill) pps) a in
    let (x, y) = &&-eq-true _ (leb (c.pp_cross * gpu_per_segment c) (n * g)) a' in
    (high_or high (gpu_per_segment c) g x, leb→le _ _ y, mem_ℕ→Has _ pps p, mem_ℕ→Has _ pps d)

hold_tests :
    (n g : ℕ) (high : Bool) (pps : List ℕ) (c : Config)
    → (high ≡ true) ⊎ (gpu_per_segment c ≤ g)
    → c.pp_cross * gpu_per_segment c ≤ n * g
    → Has (c.pp_cross * c.pp_prefill) pps
    → Has (c.pp_cross * c.pp_decode) pps
    → is_possible n g high pps c ≡ true
unfolding is_possible
hold_tests n g high pps c x y p d =
    rw (or_high high (gpu_per_segment c) g x, le→leb _ _ y, Has→mem_ℕ _ pps p, Has→mem_ℕ _ pps d)
      refl

-- The bound of the choices is kept by what a configuration has room for.
le-times : (a b : ℕ) → 0 < b → a ≤ a * b
le-times a b h = grind arith

le_times-segment :
    (c : Config)
    → 0 < c.tp_prefill
    → 0 < c.pp_prefill
    → 0 < c.tp_decode
    → 0 < c.pp_decode
    → (c.tp_prefill ≤ gpu_per_segment c)
      × (c.pp_prefill ≤ gpu_per_segment c)
      × (c.tp_decode ≤ gpu_per_segment c)
      × (c.pp_decode ≤ gpu_per_segment c)
unfolding gpu_per_segment
le_times-segment c h1 h2 h3 h4 =
    let e1 = le-times c.tp_prefill c.pp_prefill h2 in
    let e2 = le-times c.pp_prefill c.tp_prefill h1 in
    let e3 = le-times c.tp_decode c.pp_decode h4 in
    let e4 = le-times c.pp_decode c.tp_decode h3 in
    (omega arith, grind (arith, e2), omega arith, grind (arith, e4))

segment-le :
    (n g : ℕ) (high : Bool) (c : Config)
    → 0 < c.pp_cross
    → (high ≡ true) ⊎ (gpu_per_segment c ≤ g)
    → c.pp_cross * gpu_per_segment c ≤ n * g
    → gpu_per_segment c ≤ (if high then n * g else g)
segment-le n g true c p x y = grind (arith, le-times (gpu_per_segment c) c.pp_cross p)
segment-le n g false c p (inl e) y = cc
segment-le n g false c p (inr e) y = e

module _ (n g : ℕ) (layers heads : ℕ) (some_layer : 0 < layers) (some_head : 0 < heads) where
  crossed :
      (high : Bool) (k : ℕ)
      → Has k (if high then 1 ∷ [] else up_to n (divisors layers))
      → ((high ≡ true) × (k ≡ 1)) ⊎ ((high ≡ false) × Divides k layers × (k ≤ n))
  crossed true k (inl e) = inl (refl, e)
  crossed true k (inr h) = elim h [ ]
  crossed false k h =
      let (f, back) = up_to_lem k n (divisors layers) in
      let (m, b) = f h in inr (refl, divisor k layers m, b)

  Has-crossed :
      (high : Bool) (k : ℕ)
      → ((high ≡ true) × (k ≡ 1)) ⊎ ((high ≡ false) × Divides k layers × (k ≤ n))
      → Has k (if high then 1 ∷ [] else up_to n (divisors layers))
  Has-crossed true k (inl (e, h)) = inl h
  Has-crossed true k (inr (e, d, b)) = cc
  Has-crossed false k (inl (e, h)) = cc
  Has-crossed false k (inr (e, d, b)) =
      let (f, back) = up_to_lem k n (divisors layers) in
      back (Has-divisors k layers some_layer d, b)

  allowed :
      (high : Bool) (c : Config)
      → Has c (configs_of n g high (divisors heads) (divisors layers))
      → IsAllowed n g high layers heads c
  unfolding configs_of
  allowed high c h =
      let bound : ℕ = if high then n * g else g in
      let (inside, t) = kept _ c _ h in
      let (x, y, p, d) = tests_hold n g high (divisors layers) c t in
      let k = chosen _ _ _ c inside in
      let within : (j total : ℕ) → Has j (up_to bound (divisors total)) → Divides j total =
        λ j total m. divisor j total ((up_to_lem j bound (divisors total)).0 m).0 in
      record {
        tp_prefill = within _ heads k.tp_first;
        tp_decode = within _ heads k.tp_second;
        pp_prefill = within _ layers k.pp_first;
        pp_decode = within _ layers k.pp_second;
        stages_prefill = divisor _ layers p;
        stages_decode = divisor _ layers d;
        room = y;
        node = x;
        cross = crossed high c.pp_cross k.cross;
      }

  cross_pos : (high : Bool) (c : Config) → IsAllowed n g high layers heads c → 0 < c.pp_cross
  cross_pos high c a = elim a.cross [ inl (e, h) ↦ omega (arith, h) | inr (e, d, b) ↦ d.positive ]

  Has-allowed :
      (high : Bool) (c : Config)
      → IsAllowed n g high layers heads c
      → Has c (configs_of n g high (divisors heads) (divisors layers))
  unfolding configs_of
  Has-allowed high c a =
      let bound : ℕ = if high then n * g else g in
      let (b1, b2, b3, b4) =
        le_times-segment c a.tp_prefill.positive a.pp_prefill.positive a.tp_decode.positive
          a.pp_decode.positive in
      let s : gpu_per_segment c ≤ bound =
        segment-le n g high c (cross_pos high c a) a.node a.room in
      let inside : (j total : ℕ)
          → 0 < total
          → j ≤ gpu_per_segment c
          → Divides j total
          → Has j (up_to bound (divisors total)) =
        λ j total some_one b d.
          (up_to_lem j bound (divisors total)).1
            (Has-divisors j total some_one d, omega (arith, b, s)) in
      keeps (is_possible n g high (divisors layers)) c _
        (Has-product _ _ _ c (record {
          cross = Has-crossed high c.pp_cross a.cross;
          tp_first = inside _ heads some_head b1 a.tp_prefill;
          pp_first = inside _ layers some_layer b2 a.pp_prefill;
          tp_second = inside _ heads some_head b3 a.tp_decode;
          pp_second = inside _ layers some_layer b4 a.pp_decode;
        }))
        (hold_tests n g high (divisors layers) c a.node a.room
          (Has-divisors _ layers some_layer a.stages_prefill)
          (Has-divisors _ layers some_layer a.stages_decode))

  configs_of-Has_iff :
      (high : Bool) (c : Config)
      → Has c (configs_of n g high (divisors heads) (divisors layers))
        ↔ IsAllowed n g high layers heads c
  configs_of-Has_iff high c = (allowed high c, Has-allowed high c)

  -- `get_distserve_configs` of a model finds exactly the configurations that the cluster has room for:
  -- those whose tensor parallelism divides the heads of the model and whose stages divide its layers,
  -- over all segments too, whose workers are no more than the GPUs, and which keep a segment in a node
  -- where the affinity is low. The limits on the single numbers lose none of them.
  pub get_distserve_configs-Has_iff :
      (model_type name : String) (high : Bool)
      → formalize_model_name model_type ≡ ok name
      → model_hyperparams name ≡ ok (layers, heads)
      → (cs : List Config) × (get_distserve_configs model_type n g high ≡ ok cs)
        × ((c : Config) → Has c cs ↔ IsAllowed n g high layers heads c)
  unfolding get_distserve_configs get_model_possible_tp get_model_possible_pp
  get_distserve_configs-Has_iff model_type name high e f = (
    configs_of n g high (divisors heads) (divisors layers),
    >>=-ok _ e ∙ rw f refl,
    configs_of-Has_iff high,
  )
