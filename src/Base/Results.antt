-- ===== src/Base/Results.antt =====
-- Statements that may raise: the exceptions of the program, and results.
use mathlib.Core.Path.{◌≡◌, refl}
use mathlib.Core.Logic.{◌≢◌}
use mathlib.Core.Bool.{Bool, true, false}
use recompute_or_migrate.Base.Tests.{if◌then◌else◌}
use mathlib.Core.Option.{Option, none, some}

pub data Error : Type 0 where
  assertion_error value_error key_error index_error : Error
  runtime_error not_implemented attribute_error zero_division_error : Error

pub data Result {ℓ} (V : Type ℓ) : Type ℓ where
  err : Error → Result V
  ok : V → Result V

-- `raise exception` unless the condition holds.
abbrev pub guard : (condition : Bool) → (exception : Error) → Result (Unit {0})
guard condition exception = if condition then ok tt else err exception

-- `d[k]`, `xs[i]`: the value, or the exception of its absence.
abbrev pub or_raise {ℓ} : {V : Type ℓ} → Option V → (exception : Error) → Result V
or_raise found exception = elim found [ none ↦ err exception | some v ↦ ok v ]

-- The sequence of two statements. It computes wherever it stands.
module _ {ℓ κ} {V : Type ℓ} {W : Type κ} where
  infixl 5 ◌>>=◌
  abbrev pub ◌>>=◌ : Result V → (V → Result W) → Result W
  ◌>>=◌ statement more = elim statement [ err exception ↦ err exception | ok v ↦ more v ]

  -- A sequence that raises nothing, taken apart.
  pub >>=-eq-ok :
      (statement : Result V) (more : V → Result W) {w : W}
      → (statement >>= more) ≡ ok w
      → (v : V) × (statement ≡ ok v) × (more v ≡ ok w)
  >>=-eq-ok (ok v) more h = (v, refl, h)
  >>=-eq-ok (err exception) more h = cc

  -- A statement that raises nothing gives way to the next.
  pub >>=-ok :
      {statement : Result V} (more : V → Result W) {v : V}
      → statement ≡ ok v
      → (statement >>= more) ≡ more v
  >>=-ok more e = rw e

infixl 5 ◌>>◌
abbrev pub ◌>>◌ {κ} : {W : Type κ} → Result (Unit {0}) → Result W → Result W
◌>>◌ statement next_one = ◌>>=◌ statement (λ done. next_one)

-- Inversion of a test before a result.
pub guarded-eq-ok {ℓ} :
    {A : Type ℓ} (t : Bool) (a : A) (e : Error) {b : A}
    → (if t then ok a else err e) ≡ ok b
    → (t ≡ true) × (a ≡ b)
guarded-eq-ok true a e h = (refl, cc)
guarded-eq-ok false a e h = cc

pub ok-injective {ℓ} : {A : Type ℓ} {a b : A} → ok a ≡ ok b → a ≡ b
ok-injective h = cc

pub err≢ok {ℓ} : {A : Type ℓ} {e : Error} {a : A} → err e ≢ ok a
err≢ok h = cc

pub some-injective {ℓ} : {A : Type ℓ} {a b : A} → some a ≡ some b → a ≡ b
some-injective h = cc

pub none≢some {ℓ} : {A : Type ℓ} {a : A} → none ≢ some a
none≢some h = cc

pub or_raise-eq-ok {ℓ} :
    {A : Type ℓ} (o : Option A) (e : Error) {a : A} → or_raise o e ≡ ok a → o ≡ some a
or_raise-eq-ok (some a) e h = cc
or_raise-eq-ok none e h = cc

pub guard-eq-ok {ℓ} :
    {A : Type ℓ} (t : Bool) (e : Error) (m : Result A) {a : A}
    → (guard t e >> m) ≡ ok a
    → (t ≡ true) × (m ≡ ok a)
guard-eq-ok true e m h = (refl, h)
guard-eq-ok false e m h = cc

pub guard-ok {ℓ} :
    {A : Type ℓ} (t : Bool) (e : Error) (m : Result A) → t ≡ true → (guard t e >> m) ≡ m
guard-ok true e m h = refl
guard-ok false e m h = cc
