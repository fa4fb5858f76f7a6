-- ===== src/Workload/Profile/Init.antt =====
-- workload/oltp.go, `OLTPProfile.Init`, and the filling of the owners' pools in workload/actors.go:
-- the state that the workers' operations share. An id has 16 bytes; `uuid.New` gives the numbers of
-- a stream.
use pgstorm.Prelude.{
  ℕ, zero, suc, ℤ, pos, negsuc, ◌≤ℤ◌, ◌*◌, ◌≤◌, ◌≡◌, refl, ap, pos_part, Option, none, some, List,
  [], ◌∷◌, length, arith,
}
use pgstorm.Config.{Config}
use pgstorm.Config.Valid.{IsValid}
use pgstorm.Workload.Ring.{SessionRing, new_ring}
use pgstorm.Workload.Ring.Recent.{Represents, new_ring-Represents}
use pgstorm.Workload.Payload.{Template, Pools}
use pgstorm.Workload.Payload.Stocked.{Stocked}
use pgstorm.Workload.Templates.{Encoding, made}
use pgstorm.Workload.Templates.Parts.{made-some}
use pgstorm.Workload.Templates.Build.{
  session_templates, init_event_pool, audit_templates, small_payloads, small_audits,
}
use pgstorm.Workload.Templates.Field.{Laws}
use pgstorm.Workload.Templates.Fits.{templates-IsPool}

-- So many new ids.
unfoldable pub new_ids : (ℕ → ℕ) → ℕ → ℕ → List ℕ
new_ids uuids minted zero = []
new_ids uuids minted (suc n) = uuids minted ∷ new_ids uuids (suc minted) n

-- `InitActorPools`: the users and the actors.
unfoldable pub init_actor_pools : (ℕ → ℕ) → ℕ → ℕ → List ℕ × List ℕ
unfolding new_ids
init_actor_pools uuids users actors = (new_ids uuids 0 users, new_ids uuids users actors)

abbrev pub pools_of :
    Config
    → List ℕ × List ℕ
    → List Template
    → List Template
    → List Template
    → List Template
    → List Template
    → Pools
pools_of cfg owners sessions events audits payloads small = record {
  session_templates = sessions;
  event_templates = events;
  audit_templates = audits;
  small_payloads = payloads;
  small_audits = small;
  toast_pct = pos_part cfg.toast_pct;
  users = owners.0;
  actors = owners.1;
}

-- The pools, once all templates are built; `none` is a panic on the way.
abbrev pub stocked_with :
    Config
    → List ℕ × List ℕ
    → Option (List Template)
    → Option (List Template)
    → Option (List Template)
    → Option (List Template)
    → Option (List Template)
    → Option Pools
stocked_with cfg owners (some ss) (some es) (some aus) (some ps) (some ds) =
    some (pools_of cfg owners ss es aus ps ds)
stocked_with cfg owners ss es aus ps ds = none

-- The pools, once the slices of the ring, of the users and of the actors are made.
abbrev pub after_made : Option ℕ → Option ℕ → Option ℕ → Option Pools → Option Pools
after_made (some r) (some u) (some a) pools = pools
after_made r u a pools = none

module _ (E : Encoding) where
  open E use {room}

  -- The package's `init`, and then `OLTPProfile.Init`: the ring and the pools;
  -- where a slice cannot be made or a template not be built, there are no pools.
  unfoldable pub init_oltp : (ℕ → ℕ) → Config → SessionRing ℕ × Option Pools
  unfolding new_ring init_actor_pools init_event_pool session_templates audit_templates
      small_payloads small_audits
  init_oltp uuids cfg = (
    new_ring 0 (pos_part cfg.ring_size),
    after_made (made room 16 cfg.ring_size) (made room 16 cfg.user_pool_size)
        (made room 16 cfg.actor_pool_size)
        (stocked_with cfg
          (init_actor_pools uuids (pos_part cfg.user_pool_size) (pos_part cfg.actor_pool_size))
          (session_templates E)
          (init_event_pool E (pos_part cfg.min_payload_kb) (pos_part cfg.max_payload_kb))
          (audit_templates E) (small_payloads E) (small_audits E)),
  )

length-new_ids : (uuids : ℕ → ℕ) (i n : ℕ) → length (new_ids uuids i n) ≡ n
unfolding new_ids
length-new_ids uuids i zero = refl
length-new_ids uuids i (suc n) = ap suc (length-new_ids uuids (suc i) n)

-- The runtime gives what the settings ask of `make`: the ring, the owners, and the largest payload.
pub record Affordable (E : Encoding) (cfg : Config) : Type 0 where
  pub ring : pos_part cfg.ring_size * 16 ≤ E.room
  pub users : pos_part cfg.user_pool_size * 16 ≤ E.room
  pub actors : pos_part cfg.actor_pool_size * 16 ≤ E.room
  pub payload : pos_part cfg.max_payload_kb * 1024 ≤ E.room

made-positive :
    (room each : ℕ) (n : ℤ)
    → pos 1 ≤ℤ n
    → pos_part n * each ≤ room
    → made room each n ≡ some (pos_part n)
made-positive room each (pos n) low h = made-some room each n h
made-positive room each (negsuc n) low h = absurd (omega arith)

-- With encoders and a `make` that keep their laws, valid settings and sizes that `make` gives: the
-- set-up does not panic; its ring is
-- empty, its pools of templates are full, each with room for its field, and there are as many users
-- and actors as the settings say, at least one of each.
pub init_oltp-Stocked :
    (E : Encoding) (uuids : ℕ → ℕ) (cfg : Config)
    → Laws E
    → IsValid cfg
    → Affordable E cfg
    → (p : Pools) × ((init_oltp E uuids cfg).1 ≡ some p)
      × Represents (init_oltp E uuids cfg).0 []
      × Stocked p
      × (length p.users ≡ pos_part cfg.user_pool_size)
      × (length p.actors ≡ pos_part cfg.actor_pool_size)
unfolding init_oltp init_actor_pools
init_oltp-Stocked E uuids cfg laws v afford =
    let sizes : pos_part cfg.min_payload_kb ≤ pos_part cfg.max_payload_kb =
      ground (arith, v.min_payload, v.payload_range) in
    let (
      (ss, e1, n1, f1),
      (es, e2, n2, f2),
      (aus, e3, n3, f3),
      (ps, e4, n4, f4),
      (ds, e5, n5, f5),
    ) =
      templates-IsPool E laws (pos_part cfg.min_payload_kb) (pos_part cfg.max_payload_kb) sizes
        afford.payload in
    let users = length-new_ids uuids 0 (pos_part cfg.user_pool_size) in
    let actors =
      length-new_ids uuids (pos_part cfg.user_pool_size) (pos_part cfg.actor_pool_size) in
    let owners =
      init_actor_pools uuids (pos_part cfg.user_pool_size) (pos_part cfg.actor_pool_size) in
    (
      pools_of cfg owners ss es aus ps ds,
      rw
          (
            made-positive E.room 16 cfg.ring_size (omega (arith, v.ring)) afford.ring,
            made-positive E.room 16 cfg.user_pool_size (omega (arith, v.users)) afford.users,
            made-positive E.room 16 cfg.actor_pool_size (omega (arith, v.actors)) afford.actors,
            e1,
            e2,
            e3,
            e4,
            e5,
          )
          refl,
      new_ring-Represents 0 (pos_part cfg.ring_size) (omega (arith, v.ring)),
      record {
        sessions = (n1, f1);
        events = (n2, f2);
        audits = (n3, f3);
        payloads = (n4, f4);
        small_audits = (n5, f5);
        some_user = omega (arith, users, v.users);
        some_actor = omega (arith, actors, v.actors);
      },
      users,
      actors,
    )
