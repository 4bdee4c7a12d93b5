-- ===== src/Samples/Numbers.antt =====
-- A small float: the natural numbers and infinity, with a division that rounds down.
use recompute_or_migrate.Base.{
  subst, ap, ◌∙◌, ℕ, zero, suc, ◌+◌, ◌-◌, ◌*◌, ◌/◌, ◌≤◌, ◌≡◌, refl, Bool, true, false, not, arith,
  leb, leb→le, le→leb, pos_part,
}
use native.Mathlib.Nat.{
  zero-div, mul-le-mul_right, mul-le-mul_left, div-mul-le_self, le-div_iff_mul-le,
}
use recompute_or_migrate.Floats.{Floats, IsOrdered, StartsExactly}

pub data Number : Type 0 where
  finite : ℕ → Number
  infinite : Number

abbrev add : Number → Number → Number
add (finite a) (finite b) = finite (a + b)
add (finite a) infinite = infinite
add infinite b = infinite

abbrev sub : Number → Number → Number
sub (finite a) (finite b) = finite (a - b)
sub (finite a) infinite = finite 0
sub infinite b = infinite

abbrev mul : Number → Number → Number
mul (finite a) (finite b) = finite (a * b)
mul (finite a) infinite = infinite
mul infinite b = infinite

abbrev div : Number → Number → Number
div (finite a) (finite zero) = infinite
div (finite a) (finite (suc b)) = finite (a / suc b)
div (finite a) infinite = finite 0
div infinite b = infinite

abbrev leq : Number → Number → Bool
leq (finite a) (finite b) = leb a b
leq (finite a) infinite = true
leq infinite (finite b) = false
leq infinite infinite = true

abbrev pub numbers : Floats
numbers = record {
  Carrier = Number;
  of_int = λ z. finite (pos_part z);
  add = add;
  sub = sub;
  mul = mul;
  div = div;
  leq = leq;
  less = λ x y. not (leq y x);
  infinity = infinite;
  minus_infinity = finite 0;
  round = λ x digits. x;
}

leq_trans : (x y z : Number) → leq x y ≡ true → leq y z ≡ true → leq x z ≡ true
leq_trans (finite a) (finite b) (finite c) h k = ground (arith, h, k)
leq_trans (finite a) (finite b) infinite h k = refl
leq_trans (finite a) infinite (finite c) h k = cc
leq_trans (finite a) infinite infinite h k = refl
leq_trans infinite (finite b) z h k = cc
leq_trans infinite infinite (finite c) h k = cc
leq_trans infinite infinite infinite h k = refl

leq_total : (x y : Number) → leq x y ≡ false → leq y x ≡ true
leq_total (finite a) (finite b) h = ground (arith, h)
leq_total (finite a) infinite h = cc
leq_total infinite (finite b) h = refl
leq_total infinite infinite h = refl

mul_positive :
    (x : Number) (n : ℕ)
    → leq x (finite 0) ≡ false
    → leq (mul x (finite (n + 1))) (finite 0) ≡ false
mul_positive (finite a) n h =
    let positive : 1 ≤ a = ground (arith, h) in ground (arith, mul-le-mul_right (n + 1) positive)
mul_positive infinite n h = refl

mul_mono :
    (x y : Number) (n : ℕ)
    → leq x y ≡ true
    → leq (mul x (finite (n + 1))) (mul y (finite (n + 1))) ≡ true
mul_mono (finite a) (finite b) n h = ground (arith, mul-le-mul_right (n + 1) (leb→le a b h))
mul_mono (finite a) infinite n h = refl
mul_mono infinite (finite b) n h = cc
mul_mono infinite infinite n h = refl

div_anti :
    (n : ℕ) (x y : Number)
    → leq x (finite 0) ≡ false
    → leq x y ≡ true
    → leq (div (finite n) y) (div (finite n) x) ≡ true
div_anti n (finite zero) y up h = cc
div_anti n (finite (suc a)) (finite zero) up h = ground (arith, h)
div_anti n (finite (suc a)) (finite (suc b)) up h =
    let slower : suc a ≤ suc b = leb→le (suc a) (suc b) h in
    let scaled : n / suc b * suc a ≤ n / suc b * suc b = mul-le-mul_left (n / suc b) slower in
    le→leb _ _ (
      (le-div_iff_mul-le {k = suc a} {x = n / suc b} {y = n} (omega arith)).1
        (omega (arith, scaled, div-mul-le_self n (suc b))))
div_anti n (finite (suc a)) infinite up h = ground arith
div_anti n infinite (finite b) up h = cc
div_anti n infinite infinite up h = refl

pub numbers-IsOrdered : IsOrdered numbers
numbers-IsOrdered = record {
  leq_trans = leq_trans;
  leq_total = λ x y m n h. leq_total x y h;
  number = λ n. ground arith;
  infinite = refl;
  mul_positive = mul_positive;
  mul_mono = mul_mono;
  div_anti = div_anti;
}

none_of : (n : ℕ) → div (finite 0) (finite (n + 1)) ≡ finite 0
none_of n =
    let one_more : suc n ≡ n + 1 = omega arith in
    subst (λ k. div (finite 0) (finite k) ≡ finite 0) one_more (ap finite (zero-div (suc n)))

nothing_added : (a d : ℕ) → add (finite a) (mul (finite 0) (finite d)) ≡ finite a
nothing_added a d = let same : a + 0 * d ≡ a = omega arith in ap finite same

pub numbers-StartsExactly : StartsExactly numbers
numbers-StartsExactly (finite a) (finite b) n p q =
    ap (λ z. add (finite a) (mul z (finite (b - a)))) (none_of n) ∙ nothing_added a (b - a)
numbers-StartsExactly infinite u n p q = cc
numbers-StartsExactly (finite a) infinite n p q = cc
