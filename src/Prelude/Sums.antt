-- ===== src/Prelude/Sums.antt =====
-- Sums of 64-bit words.
use Prim.Native.Nat.{ℕ, ◌%◌}
use mathlib.Core.Path.{◌≡◌}
use mathlib.Core.List.{List, [], ◌∷◌, ◌++◌}
use native.Mathlib.Omega.{arith}
use pgstorm.Prelude.Word.{word, add64}

abbrev pub sum64 : List ℕ → ℕ
sum64 [] = 0
sum64 (x ∷ xs) = add64 x (sum64 xs)

pub sum64-append : (xs ys : List ℕ) → sum64 (xs ++ ys) % word ≡ add64 (sum64 xs) (sum64 ys)
sum64-append [] ys = omega arith
sum64-append (x ∷ xs) ys = omega (arith, sum64-append xs ys)
