-- ===== src/Base/Counts.antt =====
-- How often a number stands in a list. Two lists with the same counts hold the same numbers.
use Prim.Native.Nat.{ℕ, zero, suc, ◌+◌}
use mathlib.Core.Path.{◌≡◌}
use mathlib.Core.Bool.{Bool, true, false, ◌&&◌}
use mathlib.Core.List.{List, [], ◌∷◌, ◌++◌}
use native.Mathlib.Omega.{arith}
use recompute_or_migrate.Base.Tests.{ltb, leb, ◌==◌}
use recompute_or_migrate.Base.Lists.{take, drop, range_from, range}

abbrev pub one_if : Bool → ℕ
one_if true = 1
one_if false = 0

abbrev pub count : ℕ → List ℕ → ℕ
count a [] = 0
count a (x ∷ xs) = one_if (x == a) + count a xs

pub count-append :
    (a : ℕ) (front back : List ℕ) → count a (front ++ back) ≡ count a front + count a back
count-append a (x ∷ front) back = omega (arith, count-append a front back)
count-append a [] back = omega arith

pub count-take-drop :
    (a n : ℕ) (xs : List ℕ) → count a (take n xs) + count a (drop n xs) ≡ count a xs
count-take-drop a zero xs = omega arith
count-take-drop a (suc n) [] = omega arith
count-take-drop a (suc n) (x ∷ xs) = omega (arith, count-take-drop a n xs)

-- `range` holds each number below the bound once, and no other.
count-range_from : (a i n : ℕ) → count a (range_from i n) ≡ one_if (leb i a && ltb a (i + n))
count-range_from a i zero = ground arith
count-range_from a i (suc n) = ground (arith, count-range_from a (suc i) n)

pub count-range : (a n : ℕ) → count a (range n) ≡ one_if (ltb a n)
count-range a n = ground (arith, count-range_from a 0 n)
