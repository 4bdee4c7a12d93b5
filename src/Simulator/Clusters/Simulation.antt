-- ===== src/Simulator/Clusters/Simulation.antt =====
-- simdistserve/clusters/{disagg,vllm}.py: a new cluster is wired, and any simulation of it is sound.
use recompute_or_migrate.Base.{
  length-range_from, ℕ, suc, ◌+◌, ◌*◌, ◌<◌, ◌≡◌, refl, sym, ap, ◌∙◌, List, [], ◌∷◌, ◌++◌, arith,
  length, sum_of, All, range_from, range, ok, >>=-ok,
}
use recompute_or_migrate.Simulator.Workers.{Worker}
use recompute_or_migrate.Simulator.Systems.Places.{copies}
use recompute_or_migrate.Simulator.Systems.Soundness.{
  worker_copies, population, IsWiredWorker, IsWired,
}
use recompute_or_migrate.Simulator.Systems.Runs.{Action, run, arrivals, InRange, run-Sound}
use recompute_or_migrate.Simulator.Systems.{System}
use recompute_or_migrate.Simulator.Clusters.{
  WorkerConfig, as_last, as_last_prefill, disagg_cluster, vllm_cluster,
}
use recompute_or_migrate.Simulator.Clusters.Wiring.{
  IsProfiled, All-append, map-append, range_from-congr, range_from-append, wids, IsReady,
  as_last-IsReady, as_last_prefill-IsReady, wid-as_last, wid-as_last_prefill, new_instances-IsBuilt,
}

module _ {Number : Type 0} where
  length-wids : (ws : List (Worker Number)) → length (wids ws) ≡ length ws
  length-wids [] = refl
  length-wids (w ∷ ws) = ap suc (length-wids ws)

  All-wired : (n : ℕ) (ws : List (Worker Number)) → All (IsReady n) ws → All (IsWiredWorker n) ws
  All-wired n [] hs = tt
  All-wired n (w ∷ ws) hs = (hs.0.wired, All-wired n ws hs.1)

  All-idle :
      (n a : ℕ) (ws : List (Worker Number)) → All (IsReady n) ws → sum_of (worker_copies a) ws ≡ 0
  All-idle n a [] hs = refl
  All-idle n a (w ∷ ws) hs = omega (arith, hs.0.idle a, All-idle n a ws hs.1)

  -- A new cluster of `n` workers, each in the place of its identifier, with no request.
  pub record IsFresh (n : ℕ) (s : System Number) : Type 0 where
    pub wired : IsWired n s
    pub numbered : wids s.workers ≡ range n
    pub empty : (a : ℕ) → population a s ≡ 0

  fresh :
      (n : ℕ) (ws : List (Worker Number)) (ps ds : List ℕ)
      → All (IsReady n) ws
      → wids ws ≡ range n
      → All (λ h. h < n) ps
      → All (λ h. h < n) ds
      → 0 < length ps
      → 0 < length ds
      → IsFresh n (record { workers = ws; prefill_heads = ps; decode_heads = ds; gone = [] })
  unfolding population copies
  fresh n ws ps ds ready numbers hp hd some_p some_d = record {
    wired = record {
      sized = sym (length-wids ws) ∙ ap (λ (l : List ℕ). length l) numbers ∙ length-range_from 0 n;
      wired = All-wired n ws ready;
      prefills = hp;
      decodes = hd;
      some_prefill = some_p;
      some_decode = some_d;
    };
    numbered = numbers;
    empty = λ a. omega (arith, All-idle n a ws ready);
  }

  -- A cluster with instances of each kind, of some workers each, is built without an exception. Every
  -- worker has the identifier of its place and a next worker in the cluster, the scheduler is set where
  -- a request can be sent to it, and each kind has a head.
  pub disagg_cluster-IsFresh :
      (c : WorkerConfig Number) (n_prefill n_decode pp_prefill pp_decode : ℕ)
      → IsProfiled c
      → 0 < n_prefill
      → 0 < n_decode
      → 0 < pp_prefill
      → 0 < pp_decode
      → (s : System Number) × (disagg_cluster c n_prefill n_decode pp_prefill pp_decode ≡ ok s)
        × IsFresh (n_prefill * pp_prefill + n_decode * pp_decode) s
  unfolding disagg_cluster
  disagg_cluster-IsFresh c np nd pp pd prof hn hd hp hq =
      let n : ℕ = np * pp + nd * pd in
      let (ps, e, p) =
        new_instances-IsBuilt c (np * pp + nd * pd) as_last_prefill (as_last_prefill-IsReady _)
          wid-as_last_prefill 0 pp np prof hp (omega arith) in
      let (ds, f, d) =
        new_instances-IsBuilt c (np * pp + nd * pd) as_last (as_last-IsReady _) wid-as_last
          (np * pp) pd nd prof hq (omega arith) in
      (
        _,
        >>=-ok _ e ∙ >>=-ok _ f,
        fresh (np * pp + nd * pd) (ps.workers ++ ds.workers) ps.heads ds.heads
            (All-append (IsReady (np * pp + nd * pd)) ps.workers ds.workers p.ready d.ready)
            (map-append (λ (w : Worker Number). w.wid) ps.workers ds.workers
              ∙ ap (λ (l : List ℕ). l ++ wids ds.workers) p.numbered
              ∙ ap (λ (l : List ℕ). range_from 0 (np * pp) ++ l)
                  (d.numbered ∙ range_from-congr {i = np * pp} {j = 0 + np * pp} (omega arith) refl)
              ∙ range_from-append 0 (np * pp) (nd * pd))
            p.heads d.heads (omega (arith, p.some_head, hn)) (omega (arith, d.some_head, hd)),
      )

  pub vllm_cluster-IsFresh :
      (c : WorkerConfig Number) (n_instance pp : ℕ)
      → IsProfiled c
      → 0 < n_instance
      → 0 < pp
      → (s : System Number) × (vllm_cluster c n_instance pp ≡ ok s) × IsFresh (n_instance * pp) s
  unfolding vllm_cluster
  vllm_cluster-IsFresh c k pp prof hn hp =
      let (is, e, b) =
        new_instances-IsBuilt c (k * pp) as_last (as_last-IsReady _) wid-as_last 0 pp k prof hp
          (omega arith) in
      (
        _,
        >>=-ok _ e,
        fresh (k * pp) is.workers is.heads is.heads b.ready b.numbered b.heads b.heads
            (omega (arith, b.some_head, hn)) (omega (arith, b.some_head, hn)),
      )

  -- A cluster with prefill and decoding instances, of some workers each, whose model is known and
  -- profiled at their sizes of the tensor parallelism, is built without an exception, and raises none in
  -- any simulation: any requests arrive, and any turns of the processes of its
  -- workers are taken, in any order at any times. At the end every request stands in the system as
  -- often as it arrived: in one of the queues, in one of the batches, or among those that left.
  pub disagg_cluster-run :
      (c : WorkerConfig Number) (n_prefill n_decode pp_prefill pp_decode : ℕ)
      (int_mul : ℕ → Number → ℕ) (actions : List (Action Number))
      → IsProfiled c
      → 0 < n_prefill
      → 0 < n_decode
      → 0 < pp_prefill
      → 0 < pp_decode
      → All (InRange (n_prefill * pp_prefill + n_decode * pp_decode)) actions
      → (s : System Number) × (t : System Number) × (disagg_cluster c n_prefill n_decode pp_prefill
            pp_decode
          ≡ ok s)
        × (run int_mul actions s ≡ ok t)
        × ((a : ℕ) → population a t ≡ copies a (arrivals actions))
  disagg_cluster-run c np nd pp pd int_mul actions prof hp hd hq hr inside =
      let (s, e, f) = disagg_cluster-IsFresh c np nd pp pd prof hp hd hq hr in
      let done = run-Sound int_mul actions s f.wired inside in
      (s, done.after, e, done.runs, λ a. omega (arith, done.counts a, f.empty a))

  -- The same of a cluster whose instances do both.
  pub vllm_cluster-run :
      (c : WorkerConfig Number) (n_instance pp : ℕ) (int_mul : ℕ → Number → ℕ)
      (actions : List (Action Number))
      → IsProfiled c
      → 0 < n_instance
      → 0 < pp
      → All (InRange (n_instance * pp)) actions
      → (s : System Number) × (t : System Number) × (vllm_cluster c n_instance pp ≡ ok s)
        × (run int_mul actions s ≡ ok t)
        × ((a : ℕ) → population a t ≡ copies a (arrivals actions))
  vllm_cluster-run c k pp int_mul actions prof hk hp inside =
      let (s, e, f) = vllm_cluster-IsFresh c k pp prof hk hp in
      let done = run-Sound int_mul actions s f.wired inside in
      (s, done.after, e, done.runs, λ a. omega (arith, done.counts a, f.empty a))
