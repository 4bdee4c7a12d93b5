-- ===== src/BlockManager/Ledger/Swaps.antt =====
-- distserve/block_manager.py: a swap does what the ledger says.
use recompute_or_migrate.Base.{
  ℕ, ◌≡◌, refl, sym, ap, ◌∙◌, inl, inr, Bool, none, some, List, [], ◌∷◌, ◌++◌, map, arith, ◌==◌,
  ==_iff, Bool-cases, Option-cases, length, length-append, Dict, lookup, insert, lookup-insert,
  assertion_error, key_error, Result, ok, err, ◌>>=◌,
}
use recompute_or_migrate.Request.{Request}
use recompute_or_migrate.BlockManager.{
  RemoteCall, BlockManager, BlockLocation, gpu, cpu, same_location, current_location, other, lend,
  swap_request, swap_loop, swap_requests,
}
use recompute_or_migrate.BlockManager.Pools.{Took}
use recompute_or_migrate.BlockManager.Ledger.{Ledger, change, spend, gain, ledger_swap, in_turn}
use recompute_or_migrate.BlockManager.Ledger.Views.{
  size_of, Views, AgreeBy, Agree, Agree-ok, Agree-err, Agree-bind, both_locations, places-insert,
  asked,
}

module _ {m m' : BlockManager} {s : Ledger} {l : BlockLocation} {n : ℕ} {new : List ℕ}
    (v : Views m s) (took : Took m l n new m') (k : ℕ) where
  -- A request has as many blocks as before.
  resized :
      (old : List ℕ)
      → lookup k m.block_table ≡ some old
      → n ≡ length old
      → (j : ℕ) → size_of (lookup j (insert k new m'.block_table)) ≡ s.size j
  resized old h e j = elim (Bool-cases (k == j)) [
    | inl t ↦
        let held : s.size k ≡ some (length old) = sym (v.sizes k) ∙ ap size_of h in
        let same : k ≡ j = (==_iff k j).0 t in
        rw (lookup-insert k j new m'.block_table, t)
          (ap some (took.size ∙ e) ∙ sym held ∙ ap s.size same)
    | inr t ↦
        rw (lookup-insert k j new m'.block_table, t)
          (ap (λ (d : Dict (List ℕ)). size_of (lookup j d)) took.same.table ∙ v.sizes j)
  ]

  replaced :
      (p : BlockLocation) (j : ℕ)
      → lookup j (insert k p m'.request_location) ≡ change s.place k (some p) j
  replaced p j =
      places-insert k j p m'.request_location s.place
        (ap (λ (d : Dict BlockLocation). lookup j d) took.same.location ∙ v.places j)

-- A request that is swapped, of which the blocks at the other location are at hand.
swapped-Views :
    (m m' : BlockManager) (s : Ledger) (current : BlockLocation) (k n : ℕ) (old new : List ℕ)
    → Views m s
    → lookup k m.block_table ≡ some old
    → n ≡ length old
    → Took m (other current) n new m'
    → Views
        (lend
          (record m' {
            block_table = insert k new m'.block_table;
            request_location = insert k (other current) m'.request_location;
          })
          current
          old)
        (record s {
          room = gain (spend s.room (other current) n) current n;
          place = change s.place k (some (other current));
        })
swapped-Views m m' s gpu k n old new v h e took = record {
  block = took.same.block ∙ v.block;
  rooms =
      both_locations _
        (omega (
          arith,
          e,
          took.left_elsewhere,
          v.rooms gpu,
          length-append {0} m'.swapping_gpu_blocks_list old,
        ))
        (omega (arith, took.left, v.rooms cpu));
  sizes = resized v took k old h e;
  places = replaced v took k cpu;
}
swapped-Views m m' s cpu k n old new v h e took = record {
  block = took.same.block ∙ v.block;
  rooms = both_locations _ (omega (arith, took.left, v.rooms gpu)) (
      omega (
        arith,
        e,
        took.left_elsewhere,
        v.rooms cpu,
        length-append {0} m'.swapping_cpu_blocks_list old,
      ));
  sizes = resized v took k old h e;
  places = replaced v took k gpu;
}

-- The state after a turn of the loop over swaps.
abbrev state_of : List ℕ × List ℕ × BlockManager → BlockManager
state_of p = p.2

swap_request-Agree :
    (m : BlockManager) (s : Ledger) (current : BlockLocation) (k : ℕ)
    → Views m s
    → AgreeBy state_of (swap_request m current k) (ledger_swap current s k)
unfolding swap_request ledger_swap
swap_request-Agree m s current k v = elim (Option-cases (lookup k m.block_table)) [
  | inl n ↦
      let z : s.size k ≡ none = sym (v.sizes k) ∙ ap size_of n in
      Agree-err state_of assertion_error (rw n refl) (rw z refl)
  | inr (old, n) ↦
      let z : s.size k ≡ some (length old) = sym (v.sizes k) ∙ ap size_of n in
      elim (Option-cases (lookup k m.request_location)) [
        | inl p ↦ Agree-err state_of key_error (rw (n, p) refl) (rw (z, sym (v.places k) ∙ p) refl)
        | inr (l, p) ↦ elim (Bool-cases (same_location l current)) [
          | inr t ↦
              Agree-err state_of assertion_error (rw (n, p, t) refl)
                (rw (z, sym (v.places k) ∙ p, t) refl)
          | inl t ↦ elim (asked m s (length old) (other current) v) [
            | inl (e, u) ↦
                Agree-err state_of assertion_error (rw (n, p, t, e) refl)
                  (rw (z, sym (v.places k) ∙ p, t, u) refl)
            | inr (new, m', e, u, took) ↦
                Agree-ok state_of
                  (
                    old,
                    new,
                    lend
                        (record m' {
                          block_table = insert k new m'.block_table;
                          request_location = insert k (other current) m'.request_location;
                        })
                        current old,
                  )
                  (record s {
                    room = gain (spend s.room (other current) (length old)) current (length old);
                    place = change s.place k (some (other current));
                  })
                  (rw (n, p, t, e) refl) (rw (z, sym (v.places k) ∙ p, t, u) refl)
                  (swapped-Views m m' s current k (length old) old new v n refl took)
          ]
        ]
      ]
]

swap_loop-Agree :
    (m : BlockManager) (s : Ledger) (current : BlockLocation) (source target ids : List ℕ)
    → Views m s
    → AgreeBy state_of (swap_loop m current source target ids) (in_turn (ledger_swap current) s ids)
unfolding swap_loop in_turn
swap_loop-Agree m s current source target [] v = v
swap_loop-Agree m s current source target (i ∷ ids) v =
    Agree-bind state_of state_of (swap_request m current i) (ledger_swap current s i) _ _
      (swap_request-Agree m s current i v)
      (λ p t w. swap_loop-Agree p.2 t current (source ++ p.0) (target ++ p.1) ids w)

-- A log of calls is no part of the view.
logged-Views :
    (m : BlockManager) (s : Ledger) (calls : List RemoteCall)
    → Views m s
    → Views (record m { calls = calls }) s
logged-Views m s calls v = record {
  block = v.block;
  rooms = both_locations _ (v.rooms gpu) (v.rooms cpu);
  sizes = v.sizes;
  places = v.places;
}

>>=-ok-Agree :
    (r : Result (List ℕ × List ℕ × BlockManager)) (t : Result Ledger)
    (f : List ℕ × List ℕ × BlockManager → BlockManager)
    → AgreeBy state_of r t
    → ((p : List ℕ × List ℕ × BlockManager) (s : Ledger) → Views p.2 s → Views (f p) s)
    → Agree (r >>= (λ p. ok (f p))) t
>>=-ok-Agree (ok p) (ok s) f a keeps = keeps p s a
>>=-ok-Agree (err e) (err e') f a keeps = a
>>=-ok-Agree (ok p) (err e') f a keeps = elim a [ ]
>>=-ok-Agree (err e) (ok s) f a keeps = elim a [ ]

pub swap_requests-Agree :
    (m : BlockManager) (s : Ledger) (rs : List Request) (is_swap_in : Bool)
    → Views m s
    → Agree
        (swap_requests m rs is_swap_in)
        (in_turn (ledger_swap (current_location is_swap_in)) s (map (λ r. r.request_id) rs))
unfolding swap_requests
swap_requests-Agree m s rs is_swap_in v =
    >>=-ok-Agree (swap_loop m (current_location is_swap_in) [] [] (map (λ r. r.request_id) rs)) _ _
      (swap_loop-Agree m s (current_location is_swap_in) [] [] (map (λ r. r.request_id) rs) v)
      (λ p t w. logged-Views p.2 t _ w)
