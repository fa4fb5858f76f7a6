-- ===== src/Workload/Weights/Pick.antt =====
-- What holds of every operation of a mix holds of the one that is selected.
use pgstorm.Prelude.{
  ℕ, bits, add64, lt_signed, String, Option, none, some, List, [], ◌∷◌, All, Bool-cases, inl, inr,
}
use pgstorm.Workload.Weights.{WeightedOp, select_from, selected, last_name, select_op}

module _ {ℓ} (P : String → Type ℓ) where
  abbrev HoldsOf : Option String → Type ℓ
  HoldsOf none = Unit
  HoldsOf (some name) = P name

  select_from-HoldsOf :
      (roll cum : ℕ) (os : List WeightedOp)
      → All (λ o. P o.name) os
      → HoldsOf (select_from roll cum os)
  unfolding select_from
  select_from-HoldsOf roll cum [] all = tt
  select_from-HoldsOf roll cum (o ∷ os) all =
      let next = add64 cum (bits o.weight) in
      elim (Bool-cases (lt_signed roll next)) [
        | inl e ↦ rw e (all.0)
        | inr e ↦ rw e (select_from-HoldsOf roll next os all.1)
      ]

  selected-HoldsOf : (o : Option String) (last : String) → HoldsOf o → P last → P (selected o last)
  selected-HoldsOf none last h l = l
  selected-HoldsOf (some name) last h l = h

  All-last_name :
      (o : WeightedOp) (os : List WeightedOp)
      → All (λ o. P o.name) (o ∷ os)
      → P (last_name (o ∷ os))
  All-last_name o [] all = all.0
  All-last_name o (p ∷ os) all = All-last_name p os all.1

  pub All-select_op :
      (roll : ℕ) (o : WeightedOp) (os : List WeightedOp)
      → All (λ o. P o.name) (o ∷ os)
      → P (select_op roll (o ∷ os))
  unfolding select_op
  All-select_op roll o os all =
      selected-HoldsOf (select_from roll 0 (o ∷ os)) (last_name (o ∷ os))
        (select_from-HoldsOf roll 0 (o ∷ os) all) (All-last_name o os all)
