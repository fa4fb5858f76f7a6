-- ===== src/Workload/Rng.antt =====
-- Go's `*rand.Rand`: a source of numbers, consumed one by one. What the source holds is arbitrary;
-- a draw below `n` is its next number reduced modulo `n`, so every outcome below `n` can occur.
--
-- A computation that draws returns `none` where the Go code panics.
use pgstorm.Prelude.{
  ◌^◌, List, length, get_elem?, ℕ, ◌%◌, ◌<◌, ◌+◌, ◌≡◌, Option, none, some, ◌==◌, if◌then◌else◌,
  arith,
}

pub record Rng : Type 0 where
  pub numbers : ℕ → ℕ
  pub used : ℕ

abbrev pub Rand {ℓ} : Type ℓ → Type ℓ
Rand A = Rng → Option (A × Rng)

infixl 5 ◌>>=◌
abbrev pub ◌>>=◌ {ℓ κ} : {A : Type ℓ} {B : Type κ} → Rand A → (A → Rand B) → Rand B
◌>>=◌ m f g = elim (m g) [ none ↦ none | some (a, g') ↦ f a g' ]

abbrev pub pure {ℓ} : {A : Type ℓ} → A → Rand A
pure a g = some (a, g)

abbrev pub panic {ℓ} : {A : Type ℓ} → Rand A
panic g = none

-- `rng.Intn(n)`; it panics at `n <= 0`.
unfoldable pub intn : ℕ → Rand ℕ
intn n g = if n == 0 then none else some (g.numbers g.used % n, record g { used = g.used + 1 })

-- A draw from a range that is not empty succeeds and stays in the range.
pub intn-some : (n : ℕ) (g : Rng) → 0 < n → (i : ℕ) × (h : Rng) × (intn n g ≡ some (i, h)) × (i < n)
unfolding intn
intn-some n g pos =
    (g.numbers g.used % n, record g { used = g.used + 1 }, ground arith, omega arith)

-- `rng.Int63()`
unfoldable pub int63 : Rand ℕ
int63 g = some (g.numbers g.used % 2 ^ 63, record g { used = g.used + 1 })

abbrev pub element {ℓ} : {A : Type ℓ} → Option A → Rand A
element none g = none
element (some x) g = some (x, g)

-- `xs[rng.Intn(len(xs))]`; it panics on no elements.
unfoldable pub pick {ℓ} : {A : Type ℓ} → List A → Rand A
unfolding intn
pick xs = intn (length xs) >>= λ i. element (get_elem? xs i)
