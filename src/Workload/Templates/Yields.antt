-- ===== src/Workload/Templates/Yields.antt =====
-- Computations that draw and never panic, and what they return.
use pgstorm.Prelude.{
  ℕ, zero, suc, ◌<◌, ◌≡◌, refl, ◌∙◌, ap, Option, none, some, List, [], ◌∷◌, length, get_elem?,
  get_elem?-some,
}
use pgstorm.Workload.Rng.{Rng, Rand, ◌>>=◌, pure, element, intn, intn-some, int63, pick}
use pgstorm.Workload.Templates.{times}

-- From every source, a value that satisfies `P`.
abbrev pub Yields : {A : Type 0} → (A → Type 0) → Rand A → Type 0
Yields {A} P m = (g : Rng) → (a : A) × (h : Rng) × (m g ≡ some (a, h)) × P a

abbrev pub Anything : {A : Type 0} → A → Type 0
Anything a = Unit

pub Yields-bind :
    {A B : Type 0} {P : A → Type 0} {Q : B → Type 0} (m : Rand A) (f : A → Rand B)
    → Yields P m
    → ((a : A) → P a → Yields Q (f a))
    → Yields Q (m >>= f)
Yields-bind {B} m f y next g =
    let (a, h, e, p) = y g in
    let (b, k, d, q) = next a p h in
    (b, k, ap {B = Option (B × Rng)} (λ o. elim o [ none ↦ none | some (x, i) ↦ f x i ]) e ∙ d, q)

pub Yields-pure : {A : Type 0} (P : A → Type 0) (a : A) → P a → Yields P (pure a)
Yields-pure P a p g = (a, g, refl, p)

pub Yields-intn : (n : ℕ) → 0 < n → Yields (λ i. i < n) (intn n)
Yields-intn n h g = intn-some n g h

pub Yields-int63 : Yields {A = ℕ} Anything int63
unfolding int63
Yields-int63 g = (_, _, refl, tt)

pub Yields-pick : {A : Type 0} (xs : List A) → 0 < length xs → Yields {A = A} Anything (pick xs)
unfolding pick
Yields-pick xs h =
    Yields-bind (intn (length xs)) (λ i. element (get_elem? xs i)) (Yields-intn (length xs) h)
      (λ i lt g. let (x, e) = get_elem?-some xs i lt in (x, g, ap (λ o. element o g) e, tt))

pub Yields-times :
    {A : Type 0} (n : ℕ) (m : Rand A)
    → Yields {A = A} Anything m
    → Yields (λ xs. length xs ≡ n) (times n m)
unfolding times
Yields-times zero m y = Yields-pure (λ xs. length xs ≡ 0) [] refl
Yields-times (suc n) m y =
    Yields-bind m (λ x. times n m >>= λ xs. pure (x ∷ xs)) y
      (λ x t.
        Yields-bind (times n m) (λ xs. pure (x ∷ xs)) (Yields-times n m y)
          (λ xs e. Yields-pure (λ xs. length xs ≡ suc n) (x ∷ xs) (ap suc e)))
