-- ===== src/Recovery/Tracking.antt =====
-- distserve/single_stage_engine.py: which worker a recovered request is tracked at.
use recompute_or_migrate.Base.{
  ℕ, ◌≡◌, refl, sym, ap, ◌∙◌, ◌↔◌, ◌⊎◌, inl, inr, Bool, true, false, not, ◌&&◌, ◌||◌, some, List,
  [], ◌∷◌, ◌++◌, arith, ◌==◌, if◌then◌else◌, Bool-cases, if_true, if_false, All, Dict, lookup,
  insert, lookup-insert, runtime_error, ok, err, >>=-eq-ok, ok-injective, err≢ok, guard-eq-ok,
}
use recompute_or_migrate.BlockManager.{or_empty, get_block_table}
use recompute_or_migrate.Floats.{Floats}
use recompute_or_migrate.Rom.LocalScheduler.{mem}
use recompute_or_migrate.Recovery.{
  Recovery, Attempt, moved, source_dead, broken, try_sources, discard_id, add_id,
  discard_everywhere, ids_of, reassign, recover_via_migrate,
}

mem-discard : (k j : ℕ) (ids : List ℕ) → mem j (discard_id k ids) ≡ (not (j == k) && mem j ids)
mem-discard k j [] = ground arith
mem-discard k j (i ∷ ids) = ground (arith, mem-discard k j ids)

mem-append : (j k : ℕ) (ids : List ℕ) → mem j (ids ++ k ∷ []) ≡ (mem j ids || j == k)
mem-append j k [] = ground arith
mem-append j k (i ∷ ids) = ground (arith, mem-append j k ids)

mem-same : (j k : ℕ) (ids : List ℕ) → j == k ≡ true → mem j ids ≡ mem k ids
mem-same j k ids e = ap (λ i. mem i ids) (eq_of j k e)
  where
    eq_of : (a b : ℕ) → a == b ≡ true → a ≡ b
    eq_of a b h = ground (arith, h)

pub mem-add : (k j : ℕ) (ids : List ℕ) → mem j (add_id k ids) ≡ (mem j ids || j == k)
mem-add k j ids = elim (Bool-cases (mem k ids)) [
  | inl there ↦ elim (Bool-cases (j == k)) [
    | inl same ↦ ground (arith, mem-same j k ids same, there, same)
    | inr other ↦ ground (arith, there, other)
  ]
  | inr absent ↦ ground (arith, mem-append j k ids, absent)
]

ids_of-discard :
    (k w : ℕ) (d : Dict (List ℕ)) → ids_of (discard_everywhere k d) w ≡ discard_id k (ids_of d w)
unfolding discard_everywhere lookup
ids_of-discard k w [] = refl
ids_of-discard k w ((v, ids) ∷ d) =
    elim (v == w)
      as (λ t.
        or_empty (if t then some (discard_id k ids) else lookup w (discard_everywhere k d))
        ≡ discard_id k (or_empty (if t then some ids else lookup w d))) [
          | true ↦ refl
          | false ↦ ids_of-discard k w d
        ]

ids_of-insert :
    (target w : ℕ) (ids : List ℕ) (d : Dict (List ℕ))
    → ids_of (insert target ids d) w ≡ (if target == w then ids else ids_of d w)
ids_of-insert target w ids d =
    ap or_empty (lookup-insert target w ids d)
    ∙ elim (target == w)
        as (λ t. or_empty (if t then some ids else lookup w d) ≡ (if t then ids else ids_of d w)) [
          | true ↦ refl
          | false ↦ refl
        ]

assigned : (a b t : Bool) → t ≡ true → (not a && b || a) ≡ (if a then t else b)
assigned true b t e = ground (arith, e)
assigned false b t e = ground (arith, e)

unassigned : (a b t : Bool) → t ≡ false → (not a && b) ≡ (if a then t else b)
unassigned true b t e = ground (arith, e)
unassigned false b t e = ground (arith, e)

mem-reassign :
    (k j target w : ℕ) (d : Dict (List ℕ))
    → mem j (ids_of (reassign k target d) w) ≡ (if j == k then target == w else mem j (ids_of d w))
unfolding reassign
mem-reassign k j target w d =
    let rest : mem j (ids_of (discard_everywhere k d) w) ≡ (not (j == k) && mem j (ids_of d w)) =
      ap (mem j) (ids_of-discard k w d) ∙ mem-discard k j (ids_of d w) in
    let here : mem j (add_id k (ids_of (discard_everywhere k d) w))
        ≡ (not (j == k) && mem j (ids_of d w) || j == k) =
      mem-add k j (ids_of (discard_everywhere k d) w) ∙ ap (λ b. b || j == k) rest in
    elim (Bool-cases (target == w)) [
      | inl same ↦
          ap (mem j) (
            ids_of-insert target w _ (discard_everywhere k d)
            ∙ if_true (target == w) _ _ same
            ∙ ap (λ v. add_id k (ids_of (discard_everywhere k d) v)) (eq_of target w same))
          ∙ here
          ∙ assigned (j == k) _ _ same
      | inr other ↦
          ap (mem j)
            (ids_of-insert target w _ (discard_everywhere k d) ∙ if_false (target == w) _ _ other)
          ∙ rest
          ∙ unassigned (j == k) _ _ other
    ]
  where
    eq_of : (a b : ℕ) → a == b ≡ true → a ≡ b
    eq_of a b h = ground (arith, h)

-- A source that has the blocks, after sources that are dead.
pub record Served (attempt : ℕ → Attempt) (ws : List ℕ) : Type 0 where
  pub dead : List ℕ
  pub source : ℕ
  pub rest : List ℕ
  pub split : ws ≡ dead ++ source ∷ rest
  pub all_dead : All (λ v. attempt v ≡ source_dead) dead
  pub has_blocks : attempt source ≡ moved

attempt-cases : (a : Attempt) → (a ≡ moved) ⊎ ((a ≡ source_dead) ⊎ (a ≡ broken))
attempt-cases moved = inl refl
attempt-cases source_dead = inr (inl refl)
attempt-cases broken = inr (inr refl)

after_dead :
    (attempt : ℕ → Attempt) (v : ℕ) (ws : List ℕ)
    → attempt v ≡ source_dead
    → try_sources attempt (v ∷ ws) ≡ try_sources attempt ws
unfolding try_sources
after_dead attempt v ws e = rw (try_sources, e)

after_broken :
    (attempt : ℕ → Attempt) (v : ℕ) (ws : List ℕ)
    → attempt v ≡ broken
    → try_sources attempt (v ∷ ws) ≡ err runtime_error
unfolding try_sources
after_broken attempt v ws e = rw (try_sources, e)

try_sources-Served :
    (attempt : ℕ → Attempt) (ws : List ℕ) → try_sources attempt ws ≡ ok tt → Served attempt ws
unfolding try_sources
try_sources-Served attempt [] e = cc
try_sources-Served attempt (v ∷ ws) e = elim (attempt-cases (attempt v)) [
  | inl there ↦ record {
    dead = [];
    source = v;
    rest = ws;
    split = refl;
    all_dead = tt;
    has_blocks = there;
  }
  | inr (inl gone) ↦
      let r = try_sources-Served attempt ws (sym (after_dead attempt v ws gone) ∙ e) in
      record {
        dead = v ∷ r.dead;
        source = r.source;
        rest = r.rest;
        split = ap {B = List ℕ} (λ l. v ∷ l) r.split;
        all_dead = (gone, r.all_dead);
        has_blocks = r.has_blocks;
      }
  | inr (inr bad) ↦ absurd (err≢ok (sym (after_broken attempt v ws bad) ∙ e))
]

reached :
    (attempt : ℕ → Attempt) (dead rest : List ℕ) (w : ℕ)
    → All (λ v. attempt v ≡ source_dead) dead
    → attempt w ≡ moved
    → try_sources attempt (dead ++ w ∷ rest) ≡ ok tt
unfolding try_sources
reached attempt [] rest w all here = rw here
reached attempt (v ∷ dead) rest w all here =
    after_dead attempt v _ all.0 ∙ reached attempt dead rest w all.1 here

-- The sources of a transfer are tried in turn: it succeeds exactly if one of them has the blocks and all
-- before it are dead.
pub try_sources-ok_iff :
    (attempt : ℕ → Attempt) (ws : List ℕ) → (try_sources attempt ws ≡ ok tt) ↔ Served attempt ws
try_sources-ok_iff attempt ws = (
  try_sources-Served attempt ws,
  λ s.
      ap (try_sources attempt) s.split
      ∙ reached attempt s.dead s.rest s.source s.all_dead s.has_blocks,
)

module _ (F : Floats) where
  -- A request that is recovered by a migration is tracked at the target from then on, and at no other
  -- worker. Every other request is tracked where it was.
  pub recover_via_migrate_lem :
      (attempt : ℕ → ℕ → Attempt) (s : Recovery F) (k target : ℕ) (s' : Recovery F) (j w : ℕ)
      → recover_via_migrate F attempt s k target ≡ ok s'
      → mem j (ids_of s'.worker_request_ids w)
        ≡ (if j == k then target == w else mem j (ids_of s.worker_request_ids w))
  unfolding recover_via_migrate
  recover_via_migrate_lem attempt s k target s' j w e =
      let (registered, e1) = guard-eq-ok (mem target s.worker_handles) runtime_error _ e in
      let (table, got, e2) = >>=-eq-ok (get_block_table s.block_manager k) _ e1 in
      let (done, pulled, e3) =
        >>=-eq-ok (try_sources (attempt target) (discard_id target s.worker_handles)) _ e2 in
      ap (λ t. mem j (ids_of t.worker_request_ids w)) (sym (ok-injective e3))
      ∙ mem-reassign k j target w s.worker_request_ids
