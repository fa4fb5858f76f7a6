-- ===== src/Workload/Profile/Handled.antt =====
-- Every operation that a worker picks from an accepted mix has a handler.
use pgstorm.Prelude.{ℕ, String, string_eq, ◌≡◌, subst, sym, List, map, All, ok}
use pgstorm.Config.{Env}
use pgstorm.Workload.Weights.{WeightedOp, resolve_weights, select_op}
use pgstorm.Workload.Weights.Pick.{All-select_op}
use pgstorm.Workload.Weights.Resolve.{resolved, resolve_weights_iff}
use pgstorm.Workload.Ops.{Driver, Op}
use pgstorm.Workload.Ops.Handlers.{
  execute, do_insert, do_read_simple, do_read_join, do_update, do_delete, do_read_by_ip,
}
use pgstorm.Workload.Profile.{oltp_ops}

module _ (D : Driver) where
  -- The operations of the profile and their handlers.
  pub data Handles : String → Op D (Unit {0}) → Type 1 where
    handles_insert : Handles "insert" do_insert
    handles_read_simple : Handles "read_simple" do_read_simple
    handles_read_join : Handles "read_join" do_read_join
    handles_update : Handles "update" do_update
    handles_delete : Handles "delete" do_delete
    handles_read_by_ip : Handles "read_by_ip" do_read_by_ip

  abbrev pub Handled : String → Type 1
  Handled op = Handles op (execute op)

  each-Handled : (env : Env) → All (λ o. Handled o.name) (map (resolved env) oltp_ops)
  unfolding execute oltp_ops
  each-Handled env = (
    handles_insert,
    (
      handles_read_simple,
      (handles_read_join, (handles_update, (handles_delete, (handles_read_by_ip, tt)))),
    ),
  )

  -- Whatever mix the environment asks for, if it is accepted then every roll selects an operation
  -- that the profile has, and `Execute` runs this operation's handler: "unknown op" never occurs.
  pub select_op-Handled :
      (env : Env) (ws : List WeightedOp) (roll : ℕ)
      → resolve_weights env oltp_ops ≡ ok ws
      → Handled (select_op roll ws)
  unfolding oltp_ops
  select_op-Handled env ws roll h =
      subst (λ os. Handled (select_op roll os))
        (sym (((resolve_weights_iff env oltp_ops ws).0 h).0))
        (All-select_op Handled roll _ _ (each-Handled env))
