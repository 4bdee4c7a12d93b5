-- ===== src/ContextEngine/Bridge.antt =====
-- distserve/single_stage_engine.py: what the context engine hands over to the decoding stage.
use recompute_or_migrate.Base.{
  ℕ, ◌≡◌, refl, sym, ap, subst, ◌∙◌, inl, inr, Bool, true, false, not, some, List, [], ◌∷◌, ◌++◌,
  map, append-nil, append_assoc, arith, if◌then◌else◌, Bool-cases, if_true, if_false, keep, All,
  Dict, lookup, erase, lookup-erase, assertion_error, key_error, ok, or_raise, >>=-eq-ok,
  ok-injective, or_raise-eq-ok,
}
use recompute_or_migrate.Request.{Request}
use recompute_or_migrate.Request.Migrating.{MigratingRequest}
use recompute_or_migrate.BlockManager.{
  BlockManager, BlockLocation, gpu, cpu, free_blocks, give_back, get_block_table,
}
use recompute_or_migrate.ContextEngine.{
  ContextEngine, free_request_resources, hand_over_one, hand_over,
}

-- A request that still has its blocks once another is freed had them before.
kept_entry :
    (d : Dict (List ℕ)) (k j : ℕ) (cs : List ℕ)
    → lookup j (erase k d) ≡ some cs
    → lookup j d ≡ some cs
kept_entry d k j cs h = ground (arith, lookup-erase k j d, h)

give_back-entry :
    (m : BlockManager) (k : ℕ) (p : BlockLocation) (bs : List ℕ) (j : ℕ) (cs : List ℕ)
    → lookup j (give_back m k p bs).block_table ≡ some cs
    → lookup j m.block_table ≡ some cs
give_back-entry m k gpu bs j cs h = kept_entry m.block_table k j cs h
give_back-entry m k cpu bs j cs h = kept_entry m.block_table k j cs h

free_blocks-entry :
    (m : BlockManager) (k : ℕ) (m' : BlockManager) (j : ℕ) (cs : List ℕ)
    → free_blocks m k ≡ ok m'
    → lookup j m'.block_table ≡ some cs
    → lookup j m.block_table ≡ some cs
unfolding free_blocks
free_blocks-entry m k m' j cs e h =
    let (bs, entry, e1) = >>=-eq-ok (or_raise (lookup k m.block_table) assertion_error) _ e in
    let (p, at_, e2) = >>=-eq-ok (or_raise (lookup k m.request_location) key_error) _ e1 in
    give_back-entry m k p bs j cs (ap (λ n. lookup j n.block_table) (ok-injective e2) ∙ h)

-- The migrating request carries the blocks that the cache has for it.
abbrev pub Carries : Dict (List ℕ) → MigratingRequest → Type 0
Carries table m = lookup m.req.request_id table ≡ some m.block_indexes

-- What the loop adds to the bridge.
record HandedOver (s : ContextEngine) (rs : List Request) (s' : ContextEngine) : Type 0 where
  added : List MigratingRequest
  bridge : s'.bridge_queue ≡ s.bridge_queue ++ added
  unfinished : map (λ m. m.req) added ≡ keep (λ r. not r.is_finished) rs
  blocks : All (Carries s.block_manager.block_table) added

-- One turn: the cache only loses entries.
record HandsOver (s : ContextEngine) (r : Request) (s' : ContextEngine) : Type 0 where
  one : HandedOver s (r ∷ []) s'
  entries :
      (j : ℕ) (cs : List ℕ)
      → lookup j s'.block_manager.block_table ≡ some cs
      → lookup j s.block_manager.block_table ≡ some cs

hand_over_one-HandsOver :
    (s : ContextEngine) (r : Request) (s' : ContextEngine)
    → hand_over_one s r ≡ ok s'
    → HandsOver s r s'
unfolding hand_over_one free_request_resources get_block_table
hand_over_one-HandsOver s r s' e = elim (Bool-cases (not r.is_finished)) [
  | inl open_ ↦
      let (blocks, got, e1) =
        >>=-eq-ok (get_block_table s.block_manager r.request_id) _ (rw open_ at e) in
      subst (HandsOver s r) (ok-injective e1) (record {
        one = record {
          added =
              record {
                req = r;
                block_indexes = blocks;
                context_parallel_config = s.parallel_config;
              }
              ∷ [];
          bridge = refl;
          unfinished = sym (if_true (not r.is_finished) _ _ open_);
          blocks = (or_raise-eq-ok _ assertion_error got, tt);
        };
        entries = λ j cs h. h;
      })
  | inr done ↦
      let (m, freed, e1) = >>=-eq-ok (free_blocks s.block_manager r.request_id) _ (rw done at e) in
      subst (HandsOver s r) (ok-injective e1) (record {
        one = record {
          added = [];
          bridge = sym (append-nil s.bridge_queue);
          unfinished = sym (if_false (not r.is_finished) _ _ done);
          blocks = tt;
        };
        entries = λ j cs h. free_blocks-entry s.block_manager r.request_id m j cs freed h;
      })
]

All-Carries :
    (d d' : Dict (List ℕ)) (ms : List MigratingRequest)
    → ((j : ℕ) (cs : List ℕ) → lookup j d' ≡ some cs → lookup j d ≡ some cs)
    → All (Carries d') ms
    → All (Carries d) ms
All-Carries d d' [] sub h = tt
All-Carries d d' (m ∷ ms) sub h =
    (sub m.req.request_id m.block_indexes h.0, All-Carries d d' ms sub h.1)

All-append : {A : Type 0} (P : A → Type 0) (xs ys : List A) → All P xs → All P ys → All P (xs ++ ys)
All-append P [] ys p q = q
All-append P (x ∷ xs) ys p q = (p.0, All-append P xs ys p.1 q)

map-append : {A B : Type 0} (f : A → B) (xs ys : List A) → map f (xs ++ ys) ≡ map f xs ++ map f ys
map-append f [] ys = refl
map-append {B = B} f (x ∷ xs) ys = ap {B = List B} (λ l. f x ∷ l) (map-append f xs ys)

keep-append :
    {A : Type 0} (p : A → Bool) (x : A) (xs : List A)
    → keep p (x ∷ []) ++ keep p xs ≡ keep p (x ∷ xs)
keep-append p x xs =
    elim (p x)
      as (λ t. (if t then x ∷ [] else []) ++ keep p xs ≡ (if t then x ∷ keep p xs else keep p xs)) [
        | true ↦ refl
        | false ↦ refl
      ]

hand_over-HandedOver :
    (s : ContextEngine) (rs : List Request) (s' : ContextEngine)
    → hand_over s rs ≡ ok s'
    → HandedOver s rs s'
unfolding hand_over
hand_over-HandedOver s [] s' e = subst (HandedOver s []) (ok-injective e) (record {
  added = [];
  bridge = sym (append-nil s.bridge_queue);
  unfinished = refl;
  blocks = tt;
})
hand_over-HandedOver s (r ∷ rs) s' e =
    let (s1, first, more) = >>=-eq-ok (hand_over_one s r) _ e in
    let h = hand_over_one-HandsOver s r s1 first in
    let t = hand_over-HandedOver s1 rs s' more in
    record {
      added = h.one.added ++ t.added;
      bridge =
          t.bridge
          ∙ ap (λ q. q ++ t.added) h.one.bridge
          ∙ append_assoc s.bridge_queue h.one.added t.added;
      unfinished =
          map-append (λ m. m.req) h.one.added t.added
          ∙ ap (λ l. l ++ map (λ m. m.req) t.added) h.one.unfinished
          ∙ ap (λ l. keep (λ q. not q.is_finished) (r ∷ []) ++ l) t.unfinished
          ∙ keep-append (λ q. not q.is_finished) r rs;
      blocks = All-append _ h.one.added t.added h.one.blocks (
          All-Carries s.block_manager.block_table s1.block_manager.block_table t.added h.entries
            t.blocks);
    }

-- After an iteration of a batch, its unfinished requests, and no others, go to the end of the bridge queue in
-- the order of the batch. Each carries the blocks that the cache had for it.
pub hand_over_lem :
    (s : ContextEngine) (rs : List Request) (s' : ContextEngine)
    → hand_over s rs ≡ ok s'
    → (added : List MigratingRequest) × (s'.bridge_queue ≡ s.bridge_queue ++ added)
      × (map (λ m. m.req) added ≡ keep (λ r. not r.is_finished) rs)
      × All (Carries s.block_manager.block_table) added
hand_over_lem s rs s' e =
    let h = hand_over-HandedOver s rs s' e in (h.added, h.bridge, h.unfinished, h.blocks)
