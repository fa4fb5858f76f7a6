-- ===== src/Workload/Weights.antt =====
-- workload/weights.go: the operation mix. Weights are read from the environment and must sum to
-- 100; an operation is then picked by comparing a roll with the running sum.
--
-- The sum is the bit pattern of a Go `int`, so it wraps at 2^64 as the code's does. The log line
-- that warns of a malformed value has no effect on the result and is left out.
pub mod Resolve
pub mod Select
pub mod Pick
mod Tests
use pgstorm.Prelude.{
  ℕ, ℤ, pos, bits, ltb_ℤ, add64, lt_signed, String, Option, none, some, List, [], ◌∷◌, ◌++◌, map,
  atoi, string_eq, ◌==◌, if◌then◌else◌, Result, ok, err, ◌>>=◌,
}
use pgstorm.Config.{Env}

pub record OpDef : Type 0 where
  pub name : String
  pub env_var : String
  pub default_weight : ℤ

pub record WeightedOp : Type 0 where
  pub name : String
  pub weight : ℤ

pub data WeightError : Type 0 where
  -- "%s must be >= 0, got %d"
  negative_weight : String → ℤ → WeightError
  -- "operation weights must sum to 100, got %d"
  bad_total : ℕ → WeightError

-- A malformed value falls back to the default, as an unset one does.
abbrev parsed_or : Option ℤ → ℤ → ℤ
parsed_or none d = d
parsed_or (some n) d = n

pub weight_of : Env → OpDef → ℤ
weight_of env od =
    if string_eq.beq (env od.env_var) ""
    then od.default_weight
    else parsed_or (atoi (env od.env_var)) od.default_weight

pub resolve_loop : Env → ℕ → List WeightedOp → List OpDef → Result WeightError (ℕ × List WeightedOp)
resolve_loop env total out [] = ok (total, out)
resolve_loop env total out (od ∷ ods) =
    let w = weight_of env od in
    let rest =
      resolve_loop env (add64 total (bits w)) (out ++ (record { name = od.name; weight = w } ∷ []))
        ods in
    if ltb_ℤ w (pos 0) then err (negative_weight od.env_var w) else rest

abbrev require_100 : ℕ × List WeightedOp → Result WeightError (List WeightedOp)
require_100 (total, out) = if total == 100 then ok out else err (bad_total total)

-- `ResolveWeights`
unfoldable pub resolve_weights : Env → List OpDef → Result WeightError (List WeightedOp)
unfolding resolve_loop weight_of
resolve_weights env ods = resolve_loop env 0 [] ods >>= require_100

-- `OpNames`
unfoldable pub op_names : List WeightedOp → List String
op_names = map λ o. o.name

-- The loop of `SelectOp`: `none` when no running sum exceeds the roll.
pub select_from : ℕ → ℕ → List WeightedOp → Option String
select_from roll cumulative [] = none
select_from roll cumulative (o ∷ os) =
    let next = add64 cumulative (bits o.weight) in
    let rest = select_from roll next os in if lt_signed roll next then some o.name else rest

abbrev last_name : List WeightedOp → String
last_name [] = ""
last_name (o ∷ []) = o.name
last_name (o ∷ p ∷ os) = last_name (p ∷ os)

abbrev selected : Option String → String → String
selected none last = last
selected (some name) last = name

-- `SelectOp`
unfoldable pub select_op : ℕ → List WeightedOp → String
unfolding select_from
select_op roll ops = selected (select_from roll 0 ops) (last_name ops)
