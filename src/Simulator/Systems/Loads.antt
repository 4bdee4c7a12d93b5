-- ===== src/Simulator/Systems/Loads.antt =====
-- simdistserve/base/scheduler.py: the choice of the least loaded head.
use recompute_or_migrate.Base.{
  ℕ, ◌+◌, ◌≤◌, ◌<◌, ◌≡◌, refl, ap, inl, inr, Bool, true, false, ◌&&◌, ◌||◌, some, List, [], ◌∷◌,
  arith, ltb, ◌==◌, if◌then◌else◌, ltb→lt, Bool-cases, if_both, length, get_elem?, All, keys, ok,
}
use recompute_or_migrate.Simulator.Workers.{Worker}
use recompute_or_migrate.Simulator.Systems.Places.{get_of_lt}
use recompute_or_migrate.Simulator.Systems.{
  System, Side, best, min_place, worker_at, queue_of, loads, find_best_worker,
}

-- Whether a place stands in a list with a load.
abbrev pub has : ℕ → ℕ → List (ℕ × ℕ) → Bool
has place load [] = false
has place load ((p, l) ∷ ls) = (p == place && l == load) || has place load ls

-- A place of a list whose load is no more than any load of the list.
pub record IsLeast (place : ℕ) (ls : List (ℕ × ℕ)) : Type 0 where
  pub load : ℕ
  pub stands : has place load ls ≡ true
  pub least : All (λ (e : ℕ × ℕ). load ≤ e.1) ls

best-IsLeast : (p l : ℕ) (ls : List (ℕ × ℕ)) → IsLeast (best p l ls) ((p, l) ∷ ls)
unfolding best
best-IsLeast p l [] = record { load = l; stands = ground arith; least = (omega arith, tt) }
best-IsLeast p l ((q, m) ∷ ls) = elim (Bool-cases (ltb m l)) [
  | inl t ↦ rw t (
      let h = best-IsLeast q m ls in
      record {
        load = h.load;
        stands = ground (arith, h.stands);
        least = (omega (arith, h.least.0, ltb→lt m l t), h.least);
      })
  | inr t ↦ rw t (
      let h = best-IsLeast p l ls in
      record {
        load = h.load;
        stands = ground (arith, h.stands);
        least = (h.least.0, (ground (arith, h.least.0), h.least.1));
      })
]

-- A predicate of all places holds of the best.
best-All :
    (P : ℕ → Type 0) (p l : ℕ) (ls : List (ℕ × ℕ))
    → P p
    → All (λ (e : ℕ × ℕ). P e.0) ls
    → P (best p l ls)
unfolding best
best-All P p l [] here h = here
best-All P p l ((q, m) ∷ ls) here h =
    best-All P (if ltb m l then q else p) (if ltb m l then m else l) ls
      (if_both P (ltb m l) q p h.0 here) h.1

module _ {Number : Type 0} where
  -- The load of a head, by which it is chosen.
  abbrev pub load_of : Side → Worker Number → ℕ
  load_of side w = w.prefill_ips + length (queue_of side w)

  loads_total :
      (side : Side) (heads : List ℕ) (s : System Number) (n : ℕ)
      → length s.workers ≡ n
      → All (λ h. h < n) heads
      → (ls : List (ℕ × ℕ)) × (loads side heads s ≡ ok ls)
        × (keys ls ≡ heads)
        × All (λ (e : ℕ × ℕ). e.0 < n) ls
        × All
            (λ (e : ℕ × ℕ).
              (w : Worker Number) × (get_elem? s.workers e.0 ≡ some w) × (load_of side w ≡ e.1))
            ls
  unfolding loads worker_at
  loads_total side [] s n z h = ([], refl, refl, tt, tt)
  loads_total side (i ∷ heads) s n z h =
      let (w, e) = get_of_lt s.workers i (omega (arith, z, h.0)) in
      let (ls, e1, k, below, true_loads) = loads_total side heads s n z h.1 in
      (
        (i, load_of side w) ∷ ls,
        rw (e, e1) refl,
        ap (λ (t : List ℕ). i ∷ t) k,
        (h.0, below),
        ((w, e, refl), true_loads),
      )

  -- The choice among some heads raises nothing. The head that is chosen is of the list, and of all the
  -- heads it has the least load, the prefills in progress and the length of the queue.
  pub find_best_worker-IsLeast :
      (side : Side) (head : ℕ) (heads : List ℕ) (s : System Number)
      → All (λ h. h < length s.workers) (head ∷ heads)
      → (place : ℕ) × (ls : List (ℕ × ℕ)) × (find_best_worker side (head ∷ heads) s ≡ ok place)
        × (place < length s.workers)
        × (keys ls ≡ head ∷ heads)
        × All
            (λ (e : ℕ × ℕ).
              (w : Worker Number) × (get_elem? s.workers e.0 ≡ some w) × (load_of side w ≡ e.1))
            ls
        × IsLeast place ls
  unfolding find_best_worker loads worker_at min_place
  find_best_worker-IsLeast side head heads s h =
      let (w, e) = get_of_lt s.workers head h.0 in
      let (ls, e1, k, below, true_loads) = loads_total side heads s _ refl h.1 in
      (
        best head (load_of side w) ls,
        (head, load_of side w) ∷ ls,
        rw (e, e1) refl,
        best-All (λ p. p < length s.workers) head _ ls h.0 below,
        ap (λ (t : List ℕ). head ∷ t) k,
        ((w, e, refl), true_loads),
        best-IsLeast head _ ls,
      )
