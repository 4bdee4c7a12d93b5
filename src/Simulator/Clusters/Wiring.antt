-- ===== src/Simulator/Clusters/Wiring.antt =====
-- simdistserve/clusters/{disagg,vllm}.py: the instances of a cluster are wired.
use recompute_or_migrate.Base.{
  ℕ, zero, suc, ◌+◌, ◌*◌, ◌≤◌, ◌<◌, ◌≡◌, refl, ap, ◌∙◌, true, ◌||◌, some, List, [], ◌∷◌, ◌++◌, map,
  arith, ltb, lt→ltb, length, All, range_from, index_error, ok, >>=-ok, guard-ok,
}
use recompute_or_migrate.Simulator.Estimates.{get_prefill_time, get_decode_time}
use recompute_or_migrate.Simulator.Workers.{Worker, resolve_tp}
use recompute_or_migrate.Simulator.Systems.Places.{copies}
use recompute_or_migrate.Simulator.Systems.Soundness.{in_pass, worker_copies, IsWiredWorker}
use recompute_or_migrate.Simulator.Clusters.{
  WorkerConfig, Instances, new_worker, new_workers, chain, change_last, as_last, as_last_prefill,
  new_instance, new_instances,
}

pub All-append {ℓ κ} :
    {A : Type ℓ} (P : A → Type κ) (xs ys : List A) → All P xs → All P ys → All P (xs ++ ys)
All-append P [] ys h k = k
All-append P (x ∷ xs) ys h k = (h.0, All-append P xs ys h.1 k)

pub map-append {ℓ κ} :
    {A : Type ℓ} {B : Type κ} (f : A → B) (xs ys : List A) → map f (xs ++ ys) ≡ map f xs ++ map f ys
map-append f [] ys = refl
map-append f (x ∷ xs) ys = ap (λ zs. f x ∷ zs) (map-append f xs ys)

pub range_from-congr : {i j m n : ℕ} → i ≡ j → m ≡ n → range_from i m ≡ range_from j n
range_from-congr p q = cc

pub range_from-append : (i m n : ℕ) → range_from i m ++ range_from (i + m) n ≡ range_from i (m + n)
range_from-append i zero n = range_from-congr (omega arith) (omega arith)
range_from-append i (suc m) n =
    ap (λ (l : List ℕ). i ∷ (range_from (suc i) m ++ l)) (range_from-congr (omega arith) refl)
    ∙ ap (λ (l : List ℕ). i ∷ l) (range_from-append (suc i) m n)
    ∙ range_from-congr {m = suc (m + n)} refl (omega arith)

suc_times : (k pp : ℕ) → suc k * pp ≡ pp + k * pp
suc_times k pp = grind arith

module _ {Number : Type 0} where
  abbrev pub wids : List (Worker Number) → List ℕ
  wids ws = map (λ w. w.wid) ws

  -- The lengths of the passes of a worker of these options can be estimated: its model is one that is
  -- known, and profiled at its sizes of the tensor parallelism.
  abbrev pub IsProfiled : WorkerConfig Number → Type 0
  IsProfiled c =
      (get_prefill_time c.engine_type c.model_type (resolve_tp c.tp c.tp_prefill c.tp_decode).0
        ≡ ok tt)
      × (get_decode_time c.engine_type c.model_type (resolve_tp c.tp c.tp_prefill c.tp_decode).1
          ≡ ok tt)

  -- A worker before its instance is chained.
  pub record IsNew (n : ℕ) (w : Worker Number) : Type 0 where
    pub below : w.wid < n
    pub reaches : (w.should_request_stay || w.has_global_scheduler) ≡ true
    pub times_prefill : get_prefill_time w.engine_type w.model_type w.tp_prefill ≡ ok tt
    pub times_decode : get_decode_time w.engine_type w.model_type w.tp_decode ≡ ok tt
    pub idle : (a : ℕ) → worker_copies a w ≡ 0

  -- A worker of a new cluster.
  pub record IsReady (n : ℕ) (w : Worker Number) : Type 0 where
    pub wired : IsWiredWorker n w
    pub idle : (a : ℕ) → worker_copies a w ≡ 0

  new_workers-IsNew :
      (c : WorkerConfig Number) (n wid rank k : ℕ)
      → IsProfiled c
      → wid + k ≤ n
      → All (IsNew n) (new_workers c wid rank k)
  unfolding new_workers new_worker worker_copies in_pass copies
  new_workers-IsNew c n wid rank zero p h = tt
  new_workers-IsNew c n wid rank (suc k) p h = (
    record {
      below = omega (arith, h);
      reaches = refl;
      times_prefill = p.0;
      times_decode = p.1;
      idle = λ a. omega arith;
    },
    new_workers-IsNew c n (wid + 1) (rank + 1) k p (omega (arith, h)),
  )

  chained :
      (n next : ℕ) (w : Worker Number)
      → next < n
      → IsNew n w
      → IsReady n (record w { next_worker = some next })
  unfolding worker_copies
  chained n next w h hw = record {
    wired = record {
      next = next;
      next_is = refl;
      below = h;
      reaches = hw.reaches;
      times_prefill = hw.times_prefill;
      times_decode = hw.times_decode;
    };
    idle = hw.idle;
  }

  chain-IsReady :
      (n first : ℕ) (ws : List (Worker Number))
      → first < n
      → All (IsNew n) ws
      → All (IsReady n) (chain first ws)
  unfolding chain
  chain-IsReady n first [] h hs = tt
  chain-IsReady n first (w ∷ []) h hs = (chained n first w h hs.0, tt)
  chain-IsReady n first (w ∷ v ∷ ws) h hs =
      (chained n v.wid w hs.1.0.below hs.0, chain-IsReady n first (v ∷ ws) h hs.1)

  change_last-IsReady :
      (n : ℕ) (f : Worker Number → Worker Number)
      → ((w : Worker Number) → IsReady n w → IsReady n (f w))
      → (ws : List (Worker Number)) → All (IsReady n) ws
      → All (IsReady n) (change_last f ws)
  unfolding change_last
  change_last-IsReady n f keeps [] hs = tt
  change_last-IsReady n f keeps (w ∷ []) hs = (keeps w hs.0, tt)
  change_last-IsReady n f keeps (w ∷ v ∷ ws) hs =
      (hs.0, change_last-IsReady n f keeps (v ∷ ws) hs.1)

  pub as_last-IsReady : (n : ℕ) (w : Worker Number) → IsReady n w → IsReady n (as_last w)
  unfolding as_last worker_copies
  as_last-IsReady n w h = record {
    wired = record {
      next = h.wired.next;
      next_is = h.wired.next_is;
      below = h.wired.below;
      reaches = h.wired.reaches;
      times_prefill = h.wired.times_prefill;
      times_decode = h.wired.times_decode;
    };
    idle = h.idle;
  }

  pub as_last_prefill-IsReady :
      (n : ℕ) (w : Worker Number) → IsReady n w → IsReady n (as_last_prefill w)
  unfolding as_last_prefill worker_copies
  as_last_prefill-IsReady n w h = record {
    wired = record {
      next = h.wired.next;
      next_is = h.wired.next_is;
      below = h.wired.below;
      reaches = refl;
      times_prefill = h.wired.times_prefill;
      times_decode = h.wired.times_decode;
    };
    idle = h.idle;
  }

  pub wid-as_last : (w : Worker Number) → (as_last w).wid ≡ w.wid
  unfolding as_last
  wid-as_last w = refl

  pub wid-as_last_prefill : (w : Worker Number) → (as_last_prefill w).wid ≡ w.wid
  unfolding as_last_prefill
  wid-as_last_prefill w = refl

  -- The identifiers of the workers are as the loop counts them.
  wids-new_workers :
      (c : WorkerConfig Number) (wid rank k : ℕ)
      → wids (new_workers c wid rank k) ≡ range_from wid k
  unfolding new_workers new_worker
  wids-new_workers c wid rank zero = refl
  wids-new_workers c wid rank (suc k) =
      ap (λ (l : List ℕ). wid ∷ l)
        (wids-new_workers c (wid + 1) (rank + 1) k ∙ ap (λ (i : ℕ). range_from i k) (omega arith))

  wids-chain : (first : ℕ) (ws : List (Worker Number)) → wids (chain first ws) ≡ wids ws
  unfolding chain
  wids-chain first [] = refl
  wids-chain first (w ∷ []) = refl
  wids-chain first (w ∷ v ∷ ws) = ap (λ (l : List ℕ). w.wid ∷ l) (wids-chain first (v ∷ ws))

  wids-change_last :
      (f : Worker Number → Worker Number)
      → ((w : Worker Number) → (f w).wid ≡ w.wid)
      → (ws : List (Worker Number)) → wids (change_last f ws) ≡ wids ws
  unfolding change_last
  wids-change_last f same [] = refl
  wids-change_last f same (w ∷ []) = rw (same w) refl
  wids-change_last f same (w ∷ v ∷ ws) =
      ap (λ (l : List ℕ). w.wid ∷ l) (wids-change_last f same (v ∷ ws))

  -- What the loop over the instances builds.
  pub record IsBuilt (n wid pp k : ℕ) (is : Instances Number) : Type 0 where
    pub heads : All (λ h. h < n) is.heads
    pub some_head : length is.heads ≡ k
    pub ready : All (IsReady n) is.workers
    pub numbered : wids is.workers ≡ range_from wid (k * pp)

  pub new_instances-IsBuilt :
      (c : WorkerConfig Number) (n : ℕ) (last : Worker Number → Worker Number)
      → ((w : Worker Number) → IsReady n w → IsReady n (last w))
      → ((w : Worker Number) → (last w).wid ≡ w.wid)
      → (wid pp k : ℕ) → IsProfiled c
      → 0 < pp
      → wid + k * pp ≤ n
      → (is : Instances Number) × (new_instances c last wid pp k ≡ ok is) × IsBuilt n wid pp k is
  unfolding new_instances new_instance
  new_instances-IsBuilt c n last keeps same wid pp zero p some_worker h = (
    record { heads = []; workers = [] },
    refl,
    record {
      heads = tt;
      some_head = refl;
      ready = tt;
      numbered = range_from-congr {m = 0} refl (grind arith);
    },
  )
  new_instances-IsBuilt c n last keeps same wid pp (suc k) p some_worker h =
      let bound : wid + pp + k * pp ≤ n = omega (arith, h, suc_times k pp) in
      let (others, e, built) =
        new_instances-IsBuilt c n last keeps same (wid + pp) pp k p some_worker bound in
      let ws : List (Worker Number) = change_last last (chain wid (new_workers c wid 0 pp)) in
      let one : new_instance c last wid pp ≡ ok ws =
        guard-ok (ltb 0 pp) index_error (ok ws) (lt→ltb 0 pp some_worker) in
      let numbers : wids ws ≡ range_from wid pp =
        wids-change_last last same (chain wid (new_workers c wid 0 pp))
        ∙ wids-chain wid (new_workers c wid 0 pp)
        ∙ wids-new_workers c wid 0 pp in
      (
        record { heads = wid ∷ others.heads; workers = ws ++ others.workers },
        >>=-ok _ one ∙ >>=-ok _ e,
        record {
          heads = (omega (arith, bound, some_worker), built.heads);
          some_head = ap suc built.some_head;
          ready =
              All-append (IsReady n) ws others.workers
                (change_last-IsReady n last keeps (chain wid (new_workers c wid 0 pp)) (
                  chain-IsReady n wid (new_workers c wid 0 pp) (omega (arith, bound, some_worker))
                    (new_workers-IsNew c n wid 0 pp p (omega (arith, bound)))))
                built.ready;
          numbered =
              map-append (λ (w : Worker Number). w.wid) ws others.workers
              ∙ ap (λ (l : List ℕ). l ++ wids others.workers) numbers
              ∙ ap (λ (l : List ℕ). range_from wid pp ++ l) built.numbered
              ∙ range_from-append wid pp (k * pp)
              ∙ range_from-congr refl (omega (arith, suc_times k pp));
        },
      )
