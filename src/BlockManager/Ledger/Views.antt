-- ===== src/BlockManager/Ledger/Views.antt =====
-- distserve/block_manager.py: when a ledger is that of a block manager.
use recompute_or_migrate.Base.{
  ℕ, ◌≡◌, refl, sym, ap, ◌∙◌, ◌⊎◌, inl, inr, true, false, Option, none, some, List, arith, leb,
  ◌==◌, leb→le, Bool-cases, length, length-range_from, Dict, lookup, insert, erase, lookup-insert,
  lookup-erase, Error, assertion_error, Result, ok, err, ◌>>=◌,
}
use recompute_or_migrate.BlockManager.{BlockManager, BlockLocation, gpu, cpu, init, get_free_blocks}
use recompute_or_migrate.BlockManager.Pools.{
  available, Took, get_free_blocks_lem, get_free_blocks_total,
}
use recompute_or_migrate.BlockManager.Ledger.{Ledger, change, ledger_init}

abbrev pub size_of : Option (List ℕ) → Option ℕ
size_of none = none
size_of (some blocks) = some (length blocks)

-- A ledger of a block manager.
pub record Views (m : BlockManager) (s : Ledger) : Type 0 where
  pub block : m.block_size ≡ s.block_size
  pub rooms : (l : BlockLocation) → available l m ≡ s.room l
  pub sizes : (k : ℕ) → size_of (lookup k m.block_table) ≡ s.size k
  pub places : (k : ℕ) → lookup k m.request_location ≡ s.place k

-- The outcomes agree: the same exception, or a ledger of the new state.
abbrev pub AgreeBy : {X : Type 0} → (X → BlockManager) → Result X → Result Ledger → Type 0
AgreeBy state (ok x) (ok s) = Views (state x) s
AgreeBy state (err e) (err f) = e ≡ f
AgreeBy state (ok x) (err f) = ⊥
AgreeBy state (err e) (ok s) = ⊥

abbrev pub Agree : Result BlockManager → Result Ledger → Type 0
Agree r t = AgreeBy (λ m. m) r t

module _ {X : Type 0} (state : X → BlockManager) where
  pub Agree-ok :
      {r : Result X} {t : Result Ledger} (x : X) (s : Ledger)
      → r ≡ ok x
      → t ≡ ok s
      → Views (state x) s
      → AgreeBy state r t
  Agree-ok x s e f v = rw (e, f) v

  pub Agree-err :
      {r : Result X} {t : Result Ledger} (e : Error) → r ≡ err e → t ≡ err e → AgreeBy state r t
  Agree-err e p q = rw (p, q) refl

  pub Agree-bind :
      {Y : Type 0} (before : Y → BlockManager) (r : Result Y) (t : Result Ledger) (f : Y → Result X)
      (g : Ledger → Result Ledger)
      → AgreeBy before r t
      → ((y : Y) (s : Ledger) → Views (before y) s → AgreeBy state (f y) (g s))
      → AgreeBy state (r >>= f) (t >>= g)
  Agree-bind before (ok y) (ok s) f g a more = more y s a
  Agree-bind before (err e) (err e') f g a more = a
  Agree-bind before (ok y) (err e') f g a more = elim a [ ]
  Agree-bind before (err e) (ok s) f g a more = elim a [ ]

pub both_locations : (P : BlockLocation → Type 0) → P gpu → P cpu → (l : BlockLocation) → P l
both_locations P g c gpu = g
both_locations P g c cpu = c

pub init-Views :
    (gpus cpus block_size : ℕ)
    → Views (init gpus cpus block_size) (ledger_init gpus cpus block_size)
unfolding init ledger_init lookup
init-Views gpus cpus block_size = record {
  block = refl;
  rooms =
      both_locations _ (omega (arith, length-range_from 0 gpus))
        (omega (arith, length-range_from 0 cpus));
  sizes = λ k. refl;
  places = λ k. refl;
}

-- Both tables under a write and under a removal.
module _ (k j : ℕ) where
  pub sizes-insert :
      (blocks : List ℕ) (d : Dict (List ℕ)) (f : ℕ → Option ℕ) (n : ℕ)
      → length blocks ≡ n
      → size_of (lookup j d) ≡ f j
      → size_of (lookup j (insert k blocks d)) ≡ change f k (some n) j
  sizes-insert blocks d f n e h = elim (Bool-cases (k == j)) [
    | inl t ↦ rw (lookup-insert k j blocks d, t) (ap some e)
    | inr t ↦ rw (lookup-insert k j blocks d, t) h
  ]

  pub places-insert :
      (l : BlockLocation) (d : Dict BlockLocation) (f : ℕ → Option BlockLocation)
      → lookup j d ≡ f j
      → lookup j (insert k l d) ≡ change f k (some l) j
  places-insert l d f h = elim (Bool-cases (k == j)) [
    | inl t ↦ rw (lookup-insert k j l d, t) refl
    | inr t ↦ rw (lookup-insert k j l d, t) h
  ]

  pub sizes-erase :
      (d : Dict (List ℕ)) (f : ℕ → Option ℕ)
      → size_of (lookup j d) ≡ f j
      → size_of (lookup j (erase k d)) ≡ change f k none j
  sizes-erase d f h = elim (Bool-cases (k == j)) [
    | inl t ↦ rw (lookup-erase k j d, t) refl
    | inr t ↦ rw (lookup-erase k j d, t) h
  ]

  pub places-erase :
      (d : Dict BlockLocation) (f : ℕ → Option BlockLocation)
      → lookup j d ≡ f j
      → lookup j (erase k d) ≡ change f k none j
  places-erase d f h = elim (Bool-cases (k == j)) [
    | inl t ↦ rw (lookup-erase k j d, t) refl
    | inr t ↦ rw (lookup-erase k j d, t) h
  ]

-- Blocks are asked for: the same refusal, or as many blocks and as much less room.
pub asked :
    (m : BlockManager) (s : Ledger) (n : ℕ) (l : BlockLocation)
    → Views m s
    → (get_free_blocks m n l ≡ err assertion_error) × (leb n (s.room l) ≡ false)
      ⊎ ((bs : List ℕ) × (m' : BlockManager) × (get_free_blocks m n l ≡ ok (bs, m'))
          × (leb n (s.room l) ≡ true)
          × Took m l n bs m')
asked m s n l v = elim (Bool-cases (leb n (available l m))) [
  | inl t ↦
      let (bs, m', e, took) = get_free_blocks_total m n l (leb→le n (available l m) t) in
      inr (bs, m', e, sym (ap (leb n) (v.rooms l)) ∙ t, took)
  | inr t ↦ inl (get_free_blocks_lem m n l ∙ rw t refl, sym (ap (leb n) (v.rooms l)) ∙ t)
]
