-- ===== src/Workload/Weights/Select.antt =====
-- What an operation's weight is worth: the rolls that select it.
use pgstorm.Prelude.{
  ℕ, ◌+◌, ◌≤◌, ◌<◌, half_word, bits, pos_part, add64, sym, dec_lt, String, string_eq, Bool, false,
  Option, none, some, ◌≡◌, refl, ◌∙◌, ap, ap₂, List, [], ◌∷◌, All, arith, if◌then◌else◌,
  count_range, count_range-add, count_range_all, count_range_ext,
}
use pgstorm.Workload.Weights.{WeightedOp, select_from, select_op}
use pgstorm.Workload.Weights.Resolve.{NonNegative, total_weight, bits_nonneg}

-- The weight of all operations of a name.
abbrev pub share : String → List WeightedOp → ℕ
share name [] = 0
share name (o ∷ os) = (if string_eq.beq o.name name then pos_part o.weight else 0) + share name os

select_from_below :
    (roll cum : ℕ) (o : WeightedOp) (os : List WeightedOp)
    → NonNegative o
    → cum + pos_part o.weight < half_word
    → roll < cum + pos_part o.weight
    → select_from roll cum (o ∷ os) ≡ some o.name
unfolding select_from
select_from_below roll cum o os fine small h = ground (arith, bits_nonneg o.weight fine)

select_from_above :
    (roll cum : ℕ) (o : WeightedOp) (os : List WeightedOp)
    → NonNegative o
    → roll < half_word
    → cum + pos_part o.weight ≤ roll
    → select_from roll cum (o ∷ os) ≡ select_from roll (cum + pos_part o.weight) os
unfolding select_from
select_from_above roll cum o os fine small h = rw (advance) (ground arith)
  where
    advance : add64 cum (bits o.weight) ≡ cum + pos_part o.weight
    advance = omega (arith, bits_nonneg o.weight fine)

abbrev names : String → Option String → Bool
names name none = false
names name (some n) = string_eq.beq n name

-- From a running sum on, each name gets as many rolls as its weight.
count-select_from :
    (name : String) (cum : ℕ) (ops : List WeightedOp)
    → All NonNegative ops
    → cum + total_weight ops < half_word
    → count_range cum (total_weight ops) (λ r. names name (select_from r cum ops)) ≡ share name ops
count-select_from name cum [] fine small = refl
count-select_from name cum (o ∷ os) fine small =
    let w = pos_part o.weight in
    count_range-add w cum (total_weight os) _
    ∙ ap₂ ◌+◌
        (count_range_all w cum _ (string_eq.beq o.name name)
          (λ r lo hi. ap (names name) (select_from_below r cum o os fine.0 (omega arith) hi)))
        (count_range_ext (total_weight os) (cum + w) _ _
            (λ r lo hi. ap (names name) (select_from_above r cum o os fine.0 (omega arith) lo))
          ∙ count-select_from name (cum + w) os fine.1 (omega arith))

-- A roll below the sum of the weights meets a running sum that exceeds it.
select_from-some :
    (roll cum : ℕ) (ops : List WeightedOp)
    → All NonNegative ops
    → cum ≤ roll
    → roll < cum + total_weight ops
    → cum + total_weight ops < half_word
    → (name : String) × (select_from roll cum ops ≡ some name)
select_from-some roll cum [] fine lo hi small = absurd (omega arith)
select_from-some roll cum (o ∷ os) fine lo hi small = elim (dec_lt roll (cum + pos_part o.weight)) [
  | yes p ↦ (o.name, select_from_below roll cum o os fine.0 (omega arith) p)
  | no p ↦
      let (name, e) =
        select_from-some roll (cum + pos_part o.weight) os fine.1 (omega arith) (omega arith)
          (omega arith) in
      (name, select_from_above roll cum o os fine.0 (omega arith) (omega arith) ∙ e)
]

-- When the weights are not negative and sum to 100, the number of rolls in [0, 100) for which
-- `SelectOp` returns a name is the weight of the operations of that name.
pub count-select_op :
    (name : String) (ops : List WeightedOp)
    → All NonNegative ops
    → total_weight ops ≡ 100
    → count_range 0 100 (λ r. string_eq.beq (select_op r ops) name) ≡ share name ops
unfolding select_op
count-select_op name ops fine sum =
    ap (λ n. count_range 0 n (λ r. string_eq.beq (select_op r ops) name)) (sym sum)
    ∙ count_range_ext (total_weight ops) 0 _ _ (λ r lo hi. met r (omega arith))
    ∙ count-select_from name 0 ops fine (omega arith)
  where
    met :
        (r : ℕ)
        → r < total_weight ops
        → string_eq.beq (select_op r ops) name ≡ names name (select_from r 0 ops)
    met r hi =
        let (n, e) = select_from-some r 0 ops fine (omega arith) (omega arith) (omega arith) in rw e
