-- ===== src/Workload/Profile.antt =====
-- workload/profile.go: the registry of profiles; and workload/oltp.go: what the `oltp-jsonb` profile
-- declares of itself.
--
-- A profile is what it declares and the error of its `Init`, if any; `none` is a panic of it. Its executors are in
-- Workload/Ops.antt, behind the interface of Workload/Worker.antt.
pub mod Handled
pub mod Init
pub mod Follow
mod Tests
use pgstorm.Prelude.{
  ℕ, ℤ, pos, String, string_eq, Option, none, some, List, [], ◌∷◌, keys, lookup, insert,
  sort_strings, Result, ok, err,
}
use mathlib.Core.Option
use pgstorm.Config.{Config}
use pgstorm.Workload.Templates.{Encoding}
use pgstorm.Workload.Profile.Init.{init_oltp}
use pgstorm.Db.{Schema}
use pgstorm.Workload.Weights.{OpDef}

pub record Profile : Type 0 where
  pub name : String
  pub schema : Schema
  pub ops : List OpDef
  pub init : Config → Option (Option String)

-- `profileFactories`: the profile that each factory makes.
abbrev pub Profiles : Type 0
Profiles = List (String × Profile)

-- "unknown profile %q (valid: %v)"
pub record UnknownProfile : Type 0 where
  pub name : String
  pub valid : List String

-- `RegisterProfile`
unfoldable pub register_profile : String → Profile → Profiles → Profiles
unfolding insert
register_profile = insert

-- `ProfileNames`
unfoldable pub profile_names : Profiles → List String
unfolding sort_strings
profile_names ps = sort_strings (keys ps)

unfoldable pub found_profile : String → Profiles → Option Profile → Result UnknownProfile Profile
unfolding profile_names
found_profile name ps (some p) = ok p
found_profile name ps none = err (record { name = name; valid = profile_names ps })

-- `GetProfile`
unfoldable pub get_profile : String → Profiles → Result UnknownProfile Profile
unfolding found_profile lookup
get_profile name ps = found_profile name ps (lookup name ps)

abbrev op_def : String → String → ℤ → OpDef
op_def name env_var weight = record { name = name; env_var = env_var; default_weight = weight }

-- `OLTPProfile.Ops`
unfoldable pub oltp_ops : List OpDef
oltp_ops =
    op_def "insert" "WRITE_PCT" (pos 35)
    ∷ op_def "read_simple" "READ_SIMPLE_PCT" (pos 15)
    ∷ op_def "read_join" "READ_JOIN_PCT" (pos 20)
    ∷ op_def "update" "UPDATE_PCT" (pos 15)
    ∷ op_def "delete" "DELETE_PCT" (pos 10)
    ∷ op_def "read_by_ip" "READ_IP_PCT" (pos 5)
    ∷ []

unfoldable pub oltp_tables : List String
oltp_tables =
    "CREATE TABLE IF NOT EXISTS sessions (\n\t\t\tid          UUID PRIMARY KEY DEFAULT gen_random_uuid(),\n\t\t\tuser_id     UUID NOT NULL,\n\t\t\tstarted_at  TIMESTAMPTZ NOT NULL DEFAULT now(),\n\t\t\tended_at    TIMESTAMPTZ,\n\t\t\tregion      TEXT NOT NULL,\n\t\t\tmetadata    JSONB NOT NULL,\n\t\t\tstatus      TEXT NOT NULL DEFAULT 'active',\n\t\t\tcreated_at  TIMESTAMPTZ NOT NULL DEFAULT now()\n\t\t)"
    ∷ "CREATE TABLE IF NOT EXISTS events (\n\t\t\tid            UUID PRIMARY KEY DEFAULT gen_random_uuid(),\n\t\t\tsession_id    UUID NOT NULL REFERENCES sessions(id),\n\t\t\tevent_type    TEXT NOT NULL,\n\t\t\toccurred_at   TIMESTAMPTZ NOT NULL DEFAULT now(),\n\t\t\tpayload       JSONB NOT NULL,\n\t\t\tseverity      TEXT NOT NULL DEFAULT 'info',\n\t\t\ttrace_id      TEXT NOT NULL,\n\t\t\tsource_ip     INET,\n\t\t\tcreated_at    TIMESTAMPTZ NOT NULL DEFAULT now()\n\t\t)"
    ∷ "CREATE TABLE IF NOT EXISTS audit_log (\n\t\t\tid            UUID PRIMARY KEY DEFAULT gen_random_uuid(),\n\t\t\tentity_type   TEXT NOT NULL,\n\t\t\tentity_id     UUID NOT NULL,\n\t\t\taction        TEXT NOT NULL,\n\t\t\tchanged_by    UUID NOT NULL,\n\t\t\tchanged_at    TIMESTAMPTZ NOT NULL DEFAULT now(),\n\t\t\tdiff          JSONB NOT NULL,\n\t\t\tchecksum      TEXT NOT NULL\n\t\t)"
    ∷ []

unfoldable pub oltp_indexes : List String
oltp_indexes =
    "CREATE INDEX CONCURRENTLY IF NOT EXISTS idx_sessions_user_id        ON sessions (user_id)"
    ∷ "CREATE INDEX CONCURRENTLY IF NOT EXISTS idx_sessions_status_created ON sessions (status, created_at DESC)"
    ∷ "CREATE INDEX CONCURRENTLY IF NOT EXISTS idx_events_session_id          ON events (session_id)"
    ∷ "CREATE INDEX CONCURRENTLY IF NOT EXISTS idx_events_occurred_at         ON events (occurred_at DESC)"
    ∷ "CREATE INDEX CONCURRENTLY IF NOT EXISTS idx_events_severity_occurred   ON events (severity, occurred_at DESC)"
    ∷ "CREATE INDEX CONCURRENTLY IF NOT EXISTS idx_events_source_ip           ON events (source_ip)"
    ∷ "CREATE INDEX CONCURRENTLY IF NOT EXISTS idx_audit_log_entity_id  ON audit_log (entity_id, changed_at DESC)"
    ∷ "CREATE INDEX CONCURRENTLY IF NOT EXISTS idx_audit_log_changed_at ON audit_log (changed_at DESC)"
    ∷ []

-- `oltpSchema`
unfoldable pub oltp_schema : Schema
unfolding oltp_tables oltp_indexes
oltp_schema = record {
  tables = oltp_tables;
  indexes = oltp_indexes;
  tracked_tables = "sessions" ∷ "events" ∷ "audit_log" ∷ [];
  sentinel_index = "idx_audit_log_changed_at";
}

-- `OLTPProfile`, whose `Init` returns no error; the templates that the package's `init` builds are
-- counted to it.
unfoldable pub oltp_profile : Encoding → (ℕ → ℕ) → Profile
unfolding oltp_ops oltp_schema init_oltp
oltp_profile E uuids = record {
  name = "oltp-jsonb";
  schema = oltp_schema;
  ops = oltp_ops;
  init = (λ cfg. Option.map (λ pools. none) (init_oltp E uuids cfg).1);
}

-- The registry after the package's initialisation.
unfoldable pub registered_profiles : Encoding → (ℕ → ℕ) → Profiles
unfolding register_profile oltp_profile
registered_profiles E uuids = register_profile "oltp-jsonb" (oltp_profile E uuids) []
