-- ===== src/Prelude/Sort.antt =====
-- Sorting by a Boolean order, and the order of texts by their code points, which for UTF-8 is the
-- order of their bytes.
use Prim.Native.Nat.{ℕ, ◌+◌, ◌%◌}
use Prim.Native.String.{String}
use mathlib.Core.Path.{◌≡◌, refl}
use mathlib.Core.Bool.{Bool, true, false}
use mathlib.Core.List.{List, [], ◌∷◌, map}
use native.Mathlib.Omega.{arith}
use pgstorm.Prelude.Tests.{ltb, ◌==◌, if◌then◌else◌}
use pgstorm.Prelude.Word.{word}
use pgstorm.Prelude.Sums.{sum64}
use pgstorm.Prelude.Text.{codes}

-- How many elements pass a test.
abbrev pub count_if {ℓ} : {A : Type ℓ} → (A → Bool) → List A → ℕ
count_if p [] = 0
count_if p (x ∷ xs) = (if p x then 1 else 0) + count_if p xs

-- A sum over a list.
abbrev pub sum_by {ℓ} : {A : Type ℓ} → (A → ℕ) → List A → ℕ
sum_by f [] = 0
sum_by f (x ∷ xs) = f x + sum_by f xs

module _ {ℓ} {A : Type ℓ} (le : A → A → Bool) where
  pub insert_by : A → List A → List A
  insert_by x [] = x ∷ []
  insert_by x (y ∷ ys) = if le x y then x ∷ y ∷ ys else y ∷ insert_by x ys

  unfoldable pub sort_by : List A → List A
  unfolding insert_by
  sort_by [] = []
  sort_by (x ∷ xs) = insert_by x (sort_by xs)

  -- Every element is at most the next.
  abbrev pub IsSorted : List A → Type 0
  IsSorted [] = Unit
  IsSorted (x ∷ []) = Unit
  IsSorted (x ∷ y ∷ ys) = (le x y ≡ true) × IsSorted (y ∷ ys)

  count_if-insert_by :
      (p : A → Bool) (x : A) (ys : List A) → count_if p (insert_by x ys) ≡ count_if p (x ∷ ys)
  unfolding insert_by
  count_if-insert_by p x [] = refl
  count_if-insert_by p x (y ∷ ys) = ground (arith, count_if-insert_by p x ys)

  -- Sorting keeps every element as often as it was there.
  pub count_if-sort_by : (p : A → Bool) (xs : List A) → count_if p (sort_by xs) ≡ count_if p xs
  unfolding sort_by
  count_if-sort_by p [] = refl
  count_if-sort_by p (x ∷ xs) =
      ground (arith, count_if-insert_by p x (sort_by xs), count_if-sort_by p xs)

  sum_by-insert_by :
      (f : A → ℕ) (x : A) (ys : List A) → sum_by f (insert_by x ys) ≡ f x + sum_by f ys
  unfolding insert_by
  sum_by-insert_by f x [] = refl
  sum_by-insert_by f x (y ∷ ys) = ground (arith, sum_by-insert_by f x ys)

  pub sum_by-sort_by : (f : A → ℕ) (xs : List A) → sum_by f (sort_by xs) ≡ sum_by f xs
  unfolding sort_by
  sum_by-sort_by f [] = refl
  sum_by-sort_by f (x ∷ xs) = omega (arith, sum_by-insert_by f x (sort_by xs), sum_by-sort_by f xs)

  sum64-map-insert_by :
      (f : A → ℕ) (x : A) (ys : List A)
      → sum64 (map f (insert_by x ys)) % word ≡ (f x + sum64 (map f ys)) % word
  unfolding insert_by
  sum64-map-insert_by f x [] = omega arith
  sum64-map-insert_by f x (y ∷ ys) = ground (arith, sum64-map-insert_by f x ys)

  -- A sum does not depend on the order.
  pub sum64-map-sort_by :
      (f : A → ℕ) (xs : List A) → sum64 (map f (sort_by xs)) % word ≡ sum64 (map f xs) % word
  unfolding sort_by
  sum64-map-sort_by f [] = refl
  sum64-map-sort_by f (x ∷ xs) =
      omega (arith, sum64-map-insert_by f x (sort_by xs), sum64-map-sort_by f xs)

  module _ (total : (a b : A) → le a b ≡ false → le b a ≡ true) where
    insert_by-IsSorted : (x : A) (ys : List A) → IsSorted ys → IsSorted (insert_by x ys)
    unfolding insert_by
    insert_by-IsSorted x [] s = tt
    insert_by-IsSorted x (y ∷ []) s = ground (arith, total x y)
    insert_by-IsSorted x (y ∷ z ∷ zs) s =
        ground (arith, total x y, total x z, insert_by-IsSorted x (z ∷ zs))

    pub sort_by-IsSorted : (xs : List A) → IsSorted (sort_by xs)
    unfolding sort_by
    sort_by-IsSorted [] = tt
    sort_by-IsSorted (x ∷ xs) = insert_by-IsSorted x (sort_by xs) (sort_by-IsSorted xs)

-- Lexicographic order.
abbrev pub codes_le : List ℕ → List ℕ → Bool
codes_le [] ds = true
codes_le (c ∷ cs) [] = false
codes_le (c ∷ cs) (d ∷ ds) = if c == d then codes_le cs ds else ltb c d

codes_le_total : (cs ds : List ℕ) → codes_le cs ds ≡ false → codes_le ds cs ≡ true
codes_le_total [] ds h = cc
codes_le_total (c ∷ cs) [] h = refl
codes_le_total (c ∷ cs) (d ∷ ds) h = ground (arith, codes_le_total cs ds)

unfoldable pub string_le : String → String → Bool
string_le s t = codes_le (codes s) (codes t)

pub string_le_total : (s t : String) → string_le s t ≡ false → string_le t s ≡ true
unfolding string_le
string_le_total s t h = codes_le_total (codes s) (codes t) h

-- `sort.Strings`
unfoldable pub sort_strings : List String → List String
unfolding sort_by string_le
sort_strings = sort_by string_le
