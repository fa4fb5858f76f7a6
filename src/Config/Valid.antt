-- ===== src/Config/Valid.antt =====
-- What `load` accepts and what its errors say.
use pgstorm.Prelude.{
  ℤ, pos, ◌≤ℤ◌, ltb_ℤ, true, false, ◌≡◌, refl, ◌↔◌, List, [], ◌∷◌, All, ok, err, arith, >>=-eq-ok,
  inl, inr, subst, err-injective, ◌||◌, >>=-eq-err, ◌>>◌, Bool,
}
use pgstorm.Config.{
  Env, Config, ConfigError, below_min, min_exceeds_max, toast_out_of_range, negative_duration,
  Bound, bounds, reject_if, check_ranges, check_bounds, validate, read_config, load, Check,
  get_env_int,
}

-- The settings are ones that a run can work with.
pub record IsValid (c : Config) : Type 0 where
  pub min_payload : pos 1 ≤ℤ c.min_payload_kb
  pub payload_range : c.min_payload_kb ≤ℤ c.max_payload_kb
  pub toast : (pos 0 ≤ℤ c.toast_pct) × (c.toast_pct ≤ℤ pos 100)
  pub duration : pos 0 ≤ℤ c.run_duration_secs
  pub workers : pos 1 ≤ℤ c.workers
  pub ring : pos 1 ≤ℤ c.ring_size
  pub batch : pos 1 ≤ℤ c.delete_batch_size
  pub users : pos 1 ≤ℤ c.user_pool_size
  pub actors : pos 1 ≤ℤ c.actor_pool_size
  pub port : pos 1 ≤ℤ c.metrics_port
  pub summary : pos 1 ≤ℤ c.summary_interval_secs
  pub index_stats : pos 1 ≤ℤ c.index_stats_interval_secs
  pub poll : pos 1 ≤ℤ c.schema_poll_ms
  pub shutdown : pos 1 ≤ℤ c.shutdown_timeout_secs

abbrev WithinBound : Bound → Type 0
WithinBound b = b.min ≤ℤ b.val

record InRange (c : Config) : Type 0 where
  min_payload : pos 1 ≤ℤ c.min_payload_kb
  payload_range : c.min_payload_kb ≤ℤ c.max_payload_kb
  toast : (pos 0 ≤ℤ c.toast_pct) × (c.toast_pct ≤ℤ pos 100)
  duration : pos 0 ≤ℤ c.run_duration_secs

check_ranges-InRange : (c : Config) → check_ranges c ≡ ok tt → InRange c
unfolding check_ranges
check_ranges-InRange c h = ground arith

InRange-check_ranges : (c : Config) → InRange c → check_ranges c ≡ ok tt
unfolding check_ranges
InRange-check_ranges c h = ground arith

check_bounds-All : (bs : List Bound) → check_bounds bs ≡ ok tt → All WithinBound bs
unfolding check_bounds
check_bounds-All [] h = tt
check_bounds-All (b ∷ bs) h = ground (arith, check_bounds-All bs)

All-check_bounds : (bs : List Bound) → All WithinBound bs → check_bounds bs ≡ ok tt
unfolding check_bounds
All-check_bounds [] h = refl
All-check_bounds (b ∷ bs) h = ground (arith, All-check_bounds bs)

-- The two groups of checks together are validity.
IsValid-validate : (c : Config) → IsValid c → validate c ≡ ok tt
unfolding validate
IsValid-validate c v =
    ground (arith, InRange-check_ranges c (ground arith), All-check_bounds (bounds c) (bounded c v))
  where
    bounded : (d : Config) → IsValid d → All WithinBound (bounds d)
    bounded d w = ground arith

validate-IsValid : (c : Config) → validate c ≡ ok tt → IsValid c
unfolding validate
validate-IsValid c h =
    let (_, p, q) = >>=-eq-ok (check_ranges c) (λ _. check_bounds (bounds c)) h in
    ground (arith, check_ranges-InRange c, check_bounds-All (bounds c))

-- `load` returns a configuration exactly when the settings read from the environment are valid,
-- and then it returns those settings unchanged.
pub load-iff_IsValid :
    (env : Env) (c : Config)
    → (load env ≡ ok c) ↔ ((c ≡ read_config env) × IsValid (read_config env))
unfolding load
load-iff_IsValid env c = (accepted, returned)
  where
    accepted : load env ≡ ok c → (c ≡ read_config env) × IsValid (read_config env)
    accepted h =
        let (_, p, q) = >>=-eq-ok (validate (read_config env)) (λ _. ok (read_config env)) h in
        (cc, validate-IsValid (read_config env) p)

    returned : (c ≡ read_config env) × IsValid (read_config env) → load env ≡ ok c
    returned (e, v) = rw (IsValid-validate (read_config env) v) (cc)

-- What an error's message states, of the environment that it was printed for: each value is the
-- one that the named variable holds, and it breaks the bound that the message names.
abbrev pub Describes : Env → ConfigError → Type 0
Describes env (below_min name min val) =
    (def : ℤ) × (get_env_int env name def ≡ val) × ¬ (min ≤ℤ val)
Describes env (min_exceeds_max lo hi) =
    (get_env_int env "MIN_PAYLOAD_KB" (pos 8) ≡ lo)
    × (get_env_int env "MAX_PAYLOAD_KB" (pos 16) ≡ hi)
    × ¬ (lo ≤ℤ hi)
Describes env (toast_out_of_range val) =
    (get_env_int env "TOAST_PCT" (pos 20) ≡ val) × ¬ ((pos 0 ≤ℤ val) × (val ≤ℤ pos 100))
Describes env (negative_duration val) =
    (get_env_int env "RUN_DURATION_SECS" (pos 0) ≡ val) × ¬ (pos 0 ≤ℤ val)

-- A row holds the value of the variable that it names.
abbrev ReadsRow : Env → Bound → Type 0
ReadsRow env b = (def : ℤ) × (get_env_int env b.name def ≡ b.val)

bounds-ReadsRow : (env : Env) → All (ReadsRow env) (bounds (read_config env))
unfolding bounds read_config
bounds-ReadsRow env = (
  (pos 20, refl),
  (
    (pos 10000, refl),
    (
      (pos 50, refl),
      (
        (pos 10000, refl),
        (
          (pos 100, refl),
          (
            (pos 9090, refl),
            ((pos 30, refl), ((pos 30, refl), ((pos 500, refl), ((pos 5, refl), tt)))),
          ),
        ),
      ),
    ),
  ),
)

-- A chain of checks fails by its first check, or past it.
reject_if-Describes :
    (env : Env) (b : Bool) (d : ConfigError) (k : Check) (e : ConfigError)
    → (b ≡ true → Describes env d)
    → (k ≡ err e → Describes env e)
    → (reject_if b d >> k) ≡ err e
    → Describes env e
unfolding reject_if
reject_if-Describes env true d k e first later h =
    subst (Describes env) (err-injective h) (first refl)
reject_if-Describes env false d k e first later h = later h

check_bounds-Describes :
    (env : Env) (bs : List Bound) (e : ConfigError)
    → All (ReadsRow env) bs
    → check_bounds bs ≡ err e
    → Describes env e
unfolding check_bounds
check_bounds-Describes env [] e r h = cc
check_bounds-Describes env (b ∷ bs) e r h =
    reject_if-Describes env _ _ (check_bounds bs) e (λ low. (r.0.0, r.0.1, ground arith))
      (check_bounds-Describes env bs e r.1) h

last_reject-Describes :
    (env : Env) (b : Bool) (d e : ConfigError)
    → (b ≡ true → Describes env d)
    → reject_if b d ≡ err e
    → Describes env e
unfolding reject_if
last_reject-Describes env true d e first h = subst (Describes env) (err-injective h) (first refl)
last_reject-Describes env false d e first h = cc

check_ranges-Describes :
    (env : Env) (e : ConfigError) → check_ranges (read_config env) ≡ err e → Describes env e
unfolding check_ranges read_config
check_ranges-Describes env e h =
    let c = read_config env in
    let lo = c.min_payload_kb in
    let hi = c.max_payload_kb in
    let pct = c.toast_pct in
    let secs = c.run_duration_secs in
    reject_if-Describes env (ltb_ℤ lo (pos 1)) (below_min "MIN_PAYLOAD_KB" (pos 1) lo) _ e
      (λ t. (pos 8, refl, ground arith))
      (reject_if-Describes env (ltb_ℤ hi (pos 1)) (below_min "MAX_PAYLOAD_KB" (pos 1) hi) _ e
        (λ t. (pos 16, refl, ground arith))
        (reject_if-Describes env (ltb_ℤ hi lo) (min_exceeds_max lo hi) _ e
          (λ t. (refl, refl, ground arith))
          (reject_if-Describes env (ltb_ℤ pct (pos 0) || ltb_ℤ (pos 100) pct)
            (toast_out_of_range pct) _ e (λ t. (refl, ground arith))
            (last_reject-Describes env (ltb_ℤ secs (pos 0)) (negative_duration secs) e
              (λ t. (refl, ground arith))))))
      h

-- A refusal of `load` tells the truth: the variable named holds the value printed, and that value
-- breaks the bound that the message states.
pub load-Describes : (env : Env) (e : ConfigError) → load env ≡ err e → Describes env e
unfolding load validate
load-Describes env e h = elim (>>=-eq-err (validate (read_config env)) _ h) [
  | inl v ↦ elim (>>=-eq-err (check_ranges (read_config env)) _ v) [
    | inl r ↦ check_ranges-Describes env e r
    | inr (_, _, b) ↦
        check_bounds-Describes env (bounds (read_config env)) e (bounds-ReadsRow env) b
  ]
  | inr (_, _, k) ↦ cc
]
