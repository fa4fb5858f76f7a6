-- ===== src/Prelude/Dict.antt =====
-- Dictionaries as association lists: a Go map read and written by key.
use Prim.Native.Nat.{ℕ}
use Prim.Native.String.{String}
use mathlib.Core.Path.{◌≡◌, refl, ap, ◌∙◌}
use mathlib.Core.Logic.{◌↔◌}
use mathlib.Core.Bool.{Bool, true}
use mathlib.Core.Option
use mathlib.Core.Option.{Option, none, some}
use mathlib.Core.List.{List, [], ◌∷◌, map}
use native.Mathlib.Omega.{arith}
use text.Mathlib.Text.{◌==◌ as str_eq}
use text.Mathlib.TextEquality.{eq_iff}
use pgstorm.Prelude.Tests.{◌==◌ as nat_beq, ==_iff, if◌then◌else◌}

-- Equality of keys.
pub record Eq {ℓ} (K : Type ℓ) : Type ℓ where
  pub beq : K → K → Bool
  pub beq_iff : (a b : K) → (beq a b ≡ true) ↔ (a ≡ b)

instance abbrev pub nat_eq : Eq ℕ
nat_eq = record { beq = nat_beq; beq_iff = ==_iff }

instance abbrev pub string_eq : Eq String
string_eq = record { beq = str_eq; beq_iff = eq_iff }

module _ {ℓ κ} {K : Type ℓ} {V : Type κ} ⦃e : Eq K⦄ where
  -- `v, ok := m[k]`
  unfoldable pub lookup : K → List (K × V) → Option V
  lookup k [] = none
  lookup k ((j, v) ∷ m) = if e.beq j k then some v else lookup k m

  -- `m[k] = v`
  unfoldable pub insert : K → V → List (K × V) → List (K × V)
  insert k v [] = (k, v) ∷ []
  insert k v ((j, w) ∷ m) = if e.beq j k then (k, v) ∷ m else (j, w) ∷ insert k v m

  pub lookup-insert :
      (k j : K) (v : V) (m : List (K × V))
      → lookup j (insert k v m) ≡ (if e.beq k j then some v else lookup j m)
  unfolding lookup insert
  lookup-insert k j v [] = refl
  lookup-insert k j v ((i, w) ∷ m) =
      ground (arith, e.beq_iff k j, e.beq_iff i k, e.beq_iff i j, lookup-insert k j v m)

  -- The value under a key that is there is replaced; a missing key stays missing.
  unfoldable pub adjust : K → (V → V) → List (K × V) → List (K × V)
  adjust k f [] = []
  adjust k f ((j, v) ∷ m) = if e.beq j k then (j, f v) ∷ m else (j, v) ∷ adjust k f m

  pub lookup-adjust :
      (k j : K) (f : V → V) (m : List (K × V))
      → lookup j (adjust k f m) ≡ (if e.beq k j then Option.map f (lookup j m) else lookup j m)
  unfolding lookup adjust
  lookup-adjust k j f [] = ground arith
  lookup-adjust k j f ((i, w) ∷ m) =
      ground (arith, e.beq_iff k j, e.beq_iff i k, e.beq_iff i j, lookup-adjust k j f m)

  abbrev pub keys : List (K × V) → List K
  keys = map λ e. e.0

  -- One entry for each key.
  abbrev pub DistinctKeys : List (K × V) → Type κ
  DistinctKeys [] = Unit
  DistinctKeys ((k, v) ∷ m) = (lookup k m ≡ none) × DistinctKeys m

  pub insert-DistinctKeys :
      (k : K) (v : V) (m : List (K × V)) → DistinctKeys m → DistinctKeys (insert k v m)
  unfolding lookup insert
  insert-DistinctKeys k v [] d = (refl, tt)
  insert-DistinctKeys k v ((j, w) ∷ m) d =
      ground
        (arith, e.beq_iff j k, e.beq_iff k j, lookup-insert k j v m, insert-DistinctKeys k v m d.1)

  pub adjust-DistinctKeys :
      (k : K) (f : V → V) (m : List (K × V)) → DistinctKeys m → DistinctKeys (adjust k f m)
  unfolding adjust
  adjust-DistinctKeys k f [] d = tt
  adjust-DistinctKeys k f ((j, w) ∷ m) d =
      ground (arith, lookup-adjust k j f m, adjust-DistinctKeys k f m d.1)

  -- What is read under each key, in the order of the entries.
  map-lookup_cons {μ} :
      {B : Type μ} (h : K → Option V → B) (k : K) (v : V) (m t : List (K × V))
      → lookup k t ≡ none
      → map (λ j. h j (lookup j ((k, v) ∷ m))) (keys t) ≡ map (λ j. h j (lookup j m)) (keys t)
  unfolding lookup
  map-lookup_cons h k v m [] d = refl
  map-lookup_cons h k v m ((j, w) ∷ t) d =
      ground (arith, e.beq_iff k j, e.beq_iff j k, map-lookup_cons h k v m t)

  lookup-head : (k : K) (v : V) (m : List (K × V)) → lookup k ((k, v) ∷ m) ≡ some v
  unfolding lookup
  lookup-head k v m = ground (arith, e.beq_iff k k)

  pub map-lookup {μ} :
      {B : Type μ} (h : K → Option V → B) (m : List (K × V))
      → DistinctKeys m
      → map (λ j. h j (lookup j m)) (keys m) ≡ map (λ e. h e.0 (some e.1)) m
  map-lookup h [] d = refl
  map-lookup h ((k, v) ∷ m) d =
      ap (λ o. h k o ∷ map (λ j. h j (lookup j ((k, v) ∷ m))) (keys m)) (lookup-head k v m)
      ∙ ap (λ rest. h k (some v) ∷ rest) (map-lookup_cons h k v m m d.0 ∙ map-lookup h m d.1)
