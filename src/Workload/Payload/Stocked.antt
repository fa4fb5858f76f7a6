-- ===== src/Workload/Payload/Stocked.antt =====
-- From stocked pools every draw of workload/payload.go and workload/actors.go succeeds.
use pgstorm.Prelude.{ℕ, ◌<◌, ◌≡◌, List, length, All, Bool, true, false, if◌then◌else◌, arith}
use pgstorm.Workload.Rng.{Rand, intn}
use pgstorm.Workload.Payload.{
  Template, Pools, is_large, mutated_payload, by_size, get_session_payload, get_event_payload,
  get_audit_diff, pick_user, pick_actor,
}
use pgstorm.Workload.Payload.Mutation.{FitsField, mutated_payload-IsMutant}
use pgstorm.Workload.Templates.Yields.{
  Yields, Anything, Yields-bind, Yields-pure, Yields-intn, Yields-pick,
}

-- Full pools of templates with room for their fields, and at least one user and one actor.
abbrev pub IsFull : List Template → Type 0
IsFull ts = (length ts ≡ 100) × All FitsField ts

pub record Stocked (p : Pools) : Type 0 where
  pub sessions : IsFull p.session_templates
  pub events : IsFull p.event_templates
  pub audits : IsFull p.audit_templates
  pub payloads : IsFull p.small_payloads
  pub small_audits : IsFull p.small_audits
  pub some_user : 0 < length p.users
  pub some_actor : 0 < length p.actors

abbrev pub Draws : {A : Type 0} → Rand A → Type 0
Draws {A} m = Yields {A = A} Anything m

mutated_payload-Draws : (ts : List Template) → IsFull ts → Draws (mutated_payload ts)
mutated_payload-Draws ts full g =
    let (out, h, e, m) = mutated_payload-IsMutant ts g full.0 full.1 in (out, h, e, tt)

is_large-Draws : (p : Pools) → Draws (is_large p)
unfolding is_large
is_large-Draws p =
    Yields-bind _ _ (Yields-intn 100 (omega arith)) (λ roll _. Yields-pure Anything _ tt)

by_size-Draws :
    (p : Pools) (large small : List Template)
    → IsFull large
    → IsFull small
    → Draws (by_size p large small)
unfolding by_size
by_size-Draws p large small l s = Yields-bind _ _ (is_large-Draws p) (λ big _. branch big)
  where
    branch : (b : Bool) → Draws (if b then mutated_payload large else mutated_payload small)
    branch true = mutated_payload-Draws large l
    branch false = mutated_payload-Draws small s

pub get_session_payload-Draws : (p : Pools) → Stocked p → Draws (get_session_payload p)
unfolding get_session_payload
get_session_payload-Draws p s =
    by_size-Draws p p.session_templates p.small_payloads s.sessions s.payloads

pub get_event_payload-Draws : (p : Pools) → Stocked p → Draws (get_event_payload p)
unfolding get_event_payload
get_event_payload-Draws p s = by_size-Draws p p.event_templates p.small_payloads s.events s.payloads

pub get_audit_diff-Draws : (p : Pools) → Stocked p → Draws (get_audit_diff p)
unfolding get_audit_diff
get_audit_diff-Draws p s = by_size-Draws p p.audit_templates p.small_audits s.audits s.small_audits

pub pick_user-Draws : (p : Pools) → Stocked p → Draws (pick_user p)
unfolding pick_user
pick_user-Draws p s = Yields-pick p.users s.some_user

pub pick_actor-Draws : (p : Pools) → Stocked p → Draws (pick_actor p)
unfolding pick_actor
pick_actor-Draws p s = Yields-pick p.actors s.some_actor

pub Draws-intn : (n : ℕ) → 0 < n → Draws (intn n)
Draws-intn n lt g = let (i, h, e, p) = Yields-intn n lt g in (i, h, e, tt)
