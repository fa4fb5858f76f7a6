-- ===== src/Workload/Weights/Tests.antt =====
-- The mix on concrete environments.
use pgstorm.Prelude.{
  pos, ◌≡◌, refl, List, [], ◌∷◌, ok, arith, if◌then◌else◌, string_eq, count_range, map, err, negsuc,
  atoi,
}
use pgstorm.Config.{Env}
use pgstorm.Workload.Weights.{OpDef, WeightedOp, resolve_weights, select_op, negative_weight}
use pgstorm.Workload.Weights.Resolve.{resolve_weights_iff, resolved}
use pgstorm.Workload.Weights.Select.{count-select_op}

abbrev two_ops : List OpDef
two_ops =
    record { name = "read"; env_var = "READ_PCT"; default_weight = pos 70 }
    ∷ record { name = "write"; env_var = "WRITE_PCT"; default_weight = pos 30 }
    ∷ []

abbrev mix : List WeightedOp
mix =
    record { name = "read"; weight = pos 70 }
    ∷ record { name = "idle"; weight = pos 0 }
    ∷ record { name = "write"; weight = pos 30 }
    ∷ []

abbrev unset : Env
unset _ = ""

abbrev three_ops : List OpDef
three_ops = record { name = "join"; env_var = ""; default_weight = pos 102 } ∷ two_ops

-- With the third weight, 102, these sum to 2^64 + 100.
abbrev only_huge : Env
only_huge k = if string_eq.beq k "" then "" else "9223372036854775807"

-- A mix far above 100 per cent is accepted: the sum wraps.
overflow_accepted : resolve_weights only_huge three_ops ≡ ok (map (resolved only_huge) three_ops)
unfolding resolve_weights atoi
overflow_accepted = refl

negative_refused :
    resolve_weights (λ k. if string_eq.beq k "READ_PCT" then "-5" else "") two_ops
    ≡ err (negative_weight "READ_PCT" (negsuc 4))
unfolding resolve_weights atoi
negative_refused = refl

resolve_weights_iff_example : resolve_weights unset two_ops ≡ ok (map (resolved unset) two_ops)
unfolding resolve_weights
resolve_weights_iff_example =
    (resolve_weights_iff unset two_ops (map (resolved unset) two_ops)).1 (refl, omega arith, refl)

boundary : select_op 69 mix ≡ "read"
unfolding select_op
boundary = refl

past_boundary : select_op 70 mix ≡ "write"
unfolding select_op
past_boundary = refl

count-select_op_example : count_range 0 100 (λ r. string_eq.beq (select_op r mix) "write") ≡ 30
count-select_op_example = count-select_op "write" mix (omega arith) refl
