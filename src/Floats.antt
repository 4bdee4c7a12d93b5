-- ===== src/Floats.antt =====
-- Floating-point numbers, which the language leaves to the machine: the operations that the program
-- uses, and what IEEE 754 says of them. Nothing is said of rounding but that it keeps the order.
use recompute_or_migrate.Base.{ℕ, ◌≡◌, Bool, true, false, ℤ, pos, ◌+◌}

pub record Floats : Type 1 where
  pub Carrier : Type 0
  pub of_int : ℤ → Carrier
  pub add : Carrier → Carrier → Carrier
  pub sub : Carrier → Carrier → Carrier
  pub mul : Carrier → Carrier → Carrier
  pub div : Carrier → Carrier → Carrier
  pub leq : Carrier → Carrier → Bool
  pub less : Carrier → Carrier → Bool
  pub infinity : Carrier
  pub minus_infinity : Carrier
  pub round : Carrier → ℕ → Carrier

module _ (F : Floats) where
  abbrev pub of_ℕ : ℕ → F.Carrier
  of_ℕ n = F.of_int (pos n)

  -- A decimal literal, by the quotient of integers that rounds to it.
  abbrev pub ratio : ℕ → ℕ → F.Carrier
  ratio m n = F.div (of_ℕ m) (of_ℕ n)

  -- Strictly between zero and infinity.
  abbrev pub IsPositive : F.Carrier → Type 0
  IsPositive x = (F.less (of_ℕ 0) x ≡ true) × (F.less x F.infinity ≡ true)

  -- A number, and not NaN.
  abbrev pub IsNumber : F.Carrier → Type 0
  IsNumber x = F.leq x x ≡ true

  -- The laws of the order, and of the operations along it.
  pub record IsOrdered : Type 0 where
    pub leq_trans : (x y z : F.Carrier) → F.leq x y ≡ true → F.leq y z ≡ true → F.leq x z ≡ true
    pub leq_total :
        (x y : F.Carrier) → IsNumber x → IsNumber y → F.leq x y ≡ false → F.leq y x ≡ true
    pub number : (n : ℤ) → IsNumber (F.of_int n)
    pub infinite : IsNumber F.infinity
    pub mul_positive :
        (x : F.Carrier) (n : ℕ)
        → F.leq x (of_ℕ 0) ≡ false
        → F.leq (F.mul x (of_ℕ (n + 1))) (of_ℕ 0) ≡ false
    pub mul_mono :
        (x y : F.Carrier) (n : ℕ)
        → F.leq x y ≡ true
        → F.leq (F.mul x (of_ℕ (n + 1))) (F.mul y (of_ℕ (n + 1))) ≡ true
    pub div_anti :
        (n : ℕ) (x y : F.Carrier)
        → F.leq x (of_ℕ 0) ≡ false
        → F.leq x y ≡ true
        → F.leq (F.div (of_ℕ n) y) (F.div (of_ℕ n) x) ≡ true

  -- The start of a segment, of positive values at its ends: nothing of the difference is added.
  abbrev pub StartsExactly : Type 0
  StartsExactly =
      (t u : F.Carrier) (n : ℕ)
      → IsPositive t
      → IsPositive u
      → F.add t (F.mul (F.div (of_ℕ 0) (of_ℕ (n + 1))) (F.sub u t)) ≡ t
