-- ===== src/Base/Dicts.antt =====
-- A Python dict with integer keys: an association list in insertion order.
use Prim.Native.Nat.{ℕ, ◌+◌}
use mathlib.Core.Path.{◌≡◌, refl}
use mathlib.Core.Logic.{◌≢◌}
use mathlib.Core.Bool.{Bool}
use mathlib.Core.List.{List, [], ◌∷◌, map}
use mathlib.Core.Option.{Option, none, some}
use native.Mathlib.Omega.{arith}
use recompute_or_migrate.Base.Tests.{if◌then◌else◌, ◌==◌, is_some}

abbrev pub Dict {ℓ} : Type ℓ → Type ℓ
Dict V = List (ℕ × V)

module _ {ℓ} {V : Type ℓ} where
  -- `d.get(k)`
  unfoldable pub lookup : ℕ → Dict V → Option V
  lookup k [] = none
  lookup k ((j, v) ∷ d) = if j == k then some v else lookup k d

  -- `d[k] = v`: in place if the key is there, else at the end.
  unfoldable pub insert : ℕ → V → Dict V → Dict V
  insert k v [] = (k, v) ∷ []
  insert k v ((j, w) ∷ d) = if j == k then (j, v) ∷ d else (j, w) ∷ insert k v d

  -- `d.pop(k, None)`, without the value.
  unfoldable pub erase : ℕ → Dict V → Dict V
  erase k [] = []
  erase k ((j, v) ∷ d) = if j == k then erase k d else (j, v) ∷ erase k d

  -- `k in d`
  abbrev pub has_key : ℕ → Dict V → Bool
  has_key k d = is_some (lookup k d)

  abbrev pub keys : Dict V → List ℕ
  keys d = map (λ e. e.0) d

  pub lookup-insert :
      (k j : ℕ) (v : V) (d : Dict V)
      → lookup j (insert k v d) ≡ (if k == j then some v else lookup j d)
  unfolding lookup insert
  lookup-insert k j v [] = refl
  lookup-insert k j v ((i, w) ∷ d) = ground (arith, lookup-insert k j v d)

  pub lookup-erase :
      (k j : ℕ) (d : Dict V) → lookup j (erase k d) ≡ (if k == j then none else lookup j d)
  unfolding lookup erase
  lookup-erase k j [] = ground arith
  lookup-erase k j ((i, w) ∷ d) = ground (arith, lookup-erase k j d)

  -- No key stands twice.
  abbrev pub Distinct : Dict V → Type ℓ
  Distinct [] = Unit
  Distinct ((j, v) ∷ d) = (lookup j d ≡ none) × Distinct d

  pub insert-Distinct : (k : ℕ) (v : V) (d : Dict V) → Distinct d → Distinct (insert k v d)
  unfolding insert lookup
  insert-Distinct k v [] h = ground arith
  insert-Distinct k v ((j, w) ∷ d) h =
      ground (arith, insert-Distinct k v d h.1, lookup-insert k j v d)

  pub erase-Distinct : (k : ℕ) (d : Dict V) → Distinct d → Distinct (erase k d)
  unfolding erase
  erase-Distinct k [] h = h
  erase-Distinct k ((j, w) ∷ d) h = ground (arith, erase-Distinct k d h.1, lookup-erase k j d)

  -- The sum of a measure over the entries.
  unfoldable pub total : (ℕ → V → ℕ) → Dict V → ℕ
  total f [] = 0
  total f ((j, v) ∷ d) = f j v + total f d

  pub total-erase_absent :
      (f : ℕ → V → ℕ) (k : ℕ) (d : Dict V) → lookup k d ≡ none → total f (erase k d) ≡ total f d
  unfolding total erase lookup
  total-erase_absent f k [] h = refl
  total-erase_absent f k ((j, v) ∷ d) h = ground (arith, total-erase_absent f k d)

  pub total-erase :
      (f : ℕ → V → ℕ) (k : ℕ) (v : V) (d : Dict V)
      → Distinct d
      → lookup k d ≡ some v
      → total f d ≡ f k v + total f (erase k d)
  unfolding total erase lookup
  total-erase f k v [] h e = ground arith
  total-erase f k v ((j, w) ∷ d) h e =
      ground (arith, total-erase f k v d h.1, total-erase_absent f k d)

  pub total-insert :
      (f : ℕ → V → ℕ) (k : ℕ) (v : V) (d : Dict V)
      → Distinct d
      → total f (insert k v d) ≡ f k v + total f (erase k d)
  unfolding total erase insert
  total-insert f k v [] h = refl
  total-insert f k v ((j, w) ∷ d) h =
      ground (arith, total-insert f k v d h.1, total-erase_absent f k d)

  -- Two measures that agree off a key agree once the key is gone.
  pub total-congr :
      (f g : ℕ → V → ℕ) (k : ℕ) (d : Dict V)
      → ((j : ℕ) (v : V) → k ≢ j → f j v ≡ g j v)
      → total f (erase k d) ≡ total g (erase k d)
  unfolding total erase
  total-congr f g k [] h = refl
  total-congr f g k ((j, v) ∷ d) h = grind (arith, total-congr f g k d h, h j v)
