-- ===== src/Workload/Payload.antt =====
-- workload/payload.go and workload/actors.go: drawing payloads from the template pools, and owners
-- from the bounded pools of users and actors.
--
-- A pool is a list of templates, each with the offset of its 16-character mutable field, negative
-- when it has none. The templates themselves are parameters: they are built once, from JSON, before
-- any worker starts. Bytes are numbers.
pub mod Mutation
pub mod Stocked
mod Tests
use pgstorm.Prelude.{
  ℕ, suc, zero, ◌+◌, ℤ, pos, negsuc, Bool, true, false, Option, none, some, List, [], ◌∷◌, length,
  get_elem?, set, codes, ltb, leb, if◌then◌else◌,
}
use pgstorm.Workload.Rng.{Rng, Rand, ◌>>=◌, pure, element, intn, pick}

abbrev pub Bytes : Type 0
Bytes = List ℕ

pub record Template : Type 0 where
  pub text : Bytes
  pub offset : ℤ

-- The package's variables: template pools, the share of large payloads, and the owners' pools.
pub record Pools : Type 0 where
  pub session_templates : List Template
  pub event_templates : List Template
  pub audit_templates : List Template
  pub small_payloads : List Template
  pub small_audits : List Template
  pub toast_pct : ℕ
  pub users : List ℕ
  pub actors : List ℕ

abbrev pub template_pool_size : ℕ
template_pool_size = 100

-- `isLarge`
pub is_large : Pools → Rand Bool
is_large p = intn 100 >>= λ roll. pure (ltb roll p.toast_pct)

abbrev pub hex_chars : List ℕ
hex_chars = codes "0123456789abcdef"

-- `n` bytes from position `i` on are replaced by random hex digits.
unfoldable pub rewrite_hex : ℕ → ℕ → Bytes → Rand Bytes
unfolding pick
rewrite_hex zero i buf = pure buf
rewrite_hex (suc n) i buf = pick hex_chars >>= λ c. rewrite_hex n (suc i) (set buf i c)

unfoldable pub mutate : Template → Rand Bytes
unfolding rewrite_hex
mutate t = elim t.offset [
  | pos i ↦ if leb (i + 16) (length t.text) then rewrite_hex 16 i t.text else pure t.text
  | negsuc n ↦ pure t.text
]

-- `mutatedPayload`
unfoldable pub mutated_payload : List Template → Rand Bytes
unfolding mutate intn
mutated_payload pool =
    intn template_pool_size >>= λ idx. element (get_elem? pool idx) >>= λ t. mutate t

-- A draw from the pool of large or of small templates.
pub by_size : Pools → List Template → List Template → Rand Bytes
unfolding mutated_payload is_large
by_size p large small =
    is_large p >>= λ big. if big then mutated_payload large else mutated_payload small

-- `GetSessionPayload`, `GetEventPayload`, `GetAuditDiff`
unfoldable pub get_session_payload : Pools → Rand Bytes
unfolding by_size
get_session_payload p = by_size p p.session_templates p.small_payloads

unfoldable pub get_event_payload : Pools → Rand Bytes
unfolding by_size
get_event_payload p = by_size p p.event_templates p.small_payloads

unfoldable pub get_audit_diff : Pools → Rand Bytes
unfolding by_size
get_audit_diff p = by_size p p.audit_templates p.small_audits

-- `pickUser`, `pickActor`
unfoldable pub pick_user : Pools → Rand ℕ
unfolding pick
pick_user p = pick p.users

unfoldable pub pick_actor : Pools → Rand ℕ
unfolding pick
pick_actor p = pick p.actors
