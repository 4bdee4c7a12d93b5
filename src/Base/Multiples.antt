-- ===== src/Base/Multiples.antt =====
-- The least common multiple (`math.lcm`), by a search.
use Prim.Native.Nat.{ℕ, zero, suc, ◌+◌, ◌-◌, ◌*◌, ◌/◌, ◌%◌, ◌≤◌, ◌<◌, ◌∣◌}
use mathlib.Core.Path.{◌≡◌, sym, ap, subst, ◌∙◌}
use mathlib.Core.Logic.{inl, inr}
use mathlib.Core.Bool.{Bool, true, false, ◌||◌, true≢false}
use native.Mathlib.Omega.{arith}
use native.Mathlib.Nat.{
  dvd-mod_iff, mod-eq-zero_of_dvd, dvd_of_mod-eq-zero, div-mul_cancel, mod-lt,
  lt_of_mul-lt-mul_right, dvd-mul_left, dvd-mul_right, zero-mul, mul-lt-mul_of_pos_right,
}
use recompute_or_migrate.Base.Tests.{◌==◌, ==_iff, Bool-cases, if_true, if_false, if◌then◌else◌}

-- The first number from `k` on that passes a test, among `fuel` of them; else the one after them.
unfoldable pub first_from : (ℕ → Bool) → (fuel : ℕ) → ℕ → ℕ
first_from test zero k = k
first_from test (suc fuel) k =
    let later = first_from test fuel (suc k) in if test k then k else later

pub record IsFirst (test : ℕ → Bool) (k r : ℕ) : Type 0 where
  pub after : k ≤ r
  pub passes : test r ≡ true
  pub least : (j : ℕ) → k ≤ j → j < r → test j ≡ false

first_from-IsFirst :
    (test : ℕ → Bool) (fuel k : ℕ)
    → test (k + fuel) ≡ true
    → IsFirst test k (first_from test fuel k)
unfolding first_from
first_from-IsFirst test zero k h = record {
  after = omega arith;
  passes = subst (λ (n : ℕ). test n ≡ true) (omega arith) h;
  least = λ j a b. absurd (omega (arith, a, b));
}
first_from-IsFirst test (suc fuel) k h = elim (Bool-cases (test k)) [
  | inl t ↦
      subst (IsFirst test k) (sym (if_true _ _ _ t))
        (record { after = omega arith; passes = t; least = λ j a b. absurd (omega (arith, a, b)) })
  | inr t ↦
      let rest =
        first_from-IsFirst test fuel (suc k) (subst (λ (n : ℕ). test n ≡ true) (omega arith) h) in
      subst (IsFirst test k) (sym (if_false _ _ _ t)) (record {
        after = omega (arith, rest.after);
        passes = rest.passes;
        least = λ j a b. elim (Bool-cases (j == k)) [
          | inl e ↦ subst (λ (n : ℕ). test n ≡ false) (sym ((==_iff j k).0 e)) t
          | inr e ↦ rest.least j (ground (arith, a, e)) b
        ];
      })
]

-- The test of a factor of the first number.
abbrev pub is_common : ℕ → ℕ → ℕ → Bool
is_common a b k = k * a % b == 0

unfoldable pub lcm : ℕ → ℕ → ℕ
lcm a b = if a == 0 || b == 0 then 0 else first_from (is_common a b) (b - 1) 1 * a

pub record IsLcm (a b m : ℕ) : Type 0 where
  pub positive : 0 < m
  pub left : a ∣ m
  pub right : b ∣ m
  pub least : (n : ℕ) → a ∣ n → b ∣ n → m ∣ n

-- A common multiple below the first one is zero.
below_zero : (a b k n : ℕ) → 0 < a → IsFirst (is_common a b) 1 k → a ∣ n → b ∣ n → n < k * a → n ≡ 0
below_zero a b k n p f l r small =
    let whole : n / a * a ≡ n = div-mul_cancel a l in
    elim (Bool-cases (n / a == 0)) [
      | inl z ↦ sym whole ∙ ap (λ (j : ℕ). j * a) ((==_iff (n / a) 0).0 z) ∙ zero-mul a
      | inr z ↦
          let below : n / a < k =
            lt_of_mul-lt-mul_right a (subst (λ (j : ℕ). j < k * a) (sym whole) small) in
          let no : is_common a b (n / a) ≡ false = f.least (n / a) (ground (arith, z)) below in
          let zero_left : n / a * a % b ≡ 0 =
            ap (λ (j : ℕ). j % b) whole ∙ mod-eq-zero_of_dvd b r in
          absurd (true≢false (sym ((==_iff _ _).1 zero_left) ∙ no))
    ]

pub lcm-IsLcm : (a b : ℕ) → 0 < a → 0 < b → IsLcm a b (lcm a b)
unfolding lcm
lcm-IsLcm a b p q =
    let t : is_common a b (1 + (b - 1)) ≡ true =
      (==_iff _ 0).1
        (ap (λ (j : ℕ). j * a % b) (omega (arith, q)) ∙ mod-eq-zero_of_dvd b (dvd-mul_right b a)) in
    let f = first_from-IsFirst (is_common a b) (b - 1) 1 t in
    let k : ℕ = first_from (is_common a b) (b - 1) 1 in
    let e : (a == 0 || b == 0) ≡ false = ground (arith, p, q) in
    let positive : 0 < k * a =
      subst (λ (j : ℕ). j < k * a) (zero-mul a)
        (mul-lt-mul_of_pos_right (omega (arith, f.after)) p) in
    subst (IsLcm a b) (sym (if_false _ _ _ e)) (record {
      positive = positive;
      left = dvd-mul_left a k;
      right = dvd_of_mod-eq-zero b ((==_iff _ _).0 f.passes);
      least = λ n l r. dvd_of_mod-eq-zero (k * a) (
          below_zero a b k (n % (k * a)) p f ((dvd-mod_iff a (dvd-mul_left a k)).1 l)
            ((dvd-mod_iff b (dvd_of_mod-eq-zero b ((==_iff _ _).0 f.passes))).1 r)
            (mod-lt n positive));
    })
