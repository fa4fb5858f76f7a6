-- ===== src/Db/Pool/Sized.antt =====
-- What a pool holds, and that a failed start leaves none open.
use pgstorm.Prelude.{
  ℕ, ◌+◌, ◌-◌, ◌/◌, ◌%◌, ◌^◌, ◌<◌, pos, ◌≤ℤ◌, add64, none, some, ◌≡◌, refl, Option-cases, inl, inr,
  List, [], ◌∷◌, Result, ok, err, arith,
}
use pgstorm.Config.{Config}
use pgstorm.Db.Pool.{
  int32, half, PoolConfig, PoolCall, parse_config, new_with_config, ping, close, Pgx, PoolError,
  pinged, created, pool_config, new_pool,
}

int32-small : (n : ℕ) → n < 2 ^ 31 → int32 n ≡ pos n
unfolding int32
int32-small n h = ground arith

module _ (V : Pgx) where
  open V use {creates}

  -- How many pools are open after these calls.
  abbrev pub open_pools : List PoolCall → ℕ
  open_pools [] = 0
  open_pools (parse_config dsn ∷ calls) = open_pools calls
  open_pools (new_with_config c ∷ calls) = elim (creates c) [
    | some e ↦ open_pools calls
    | none ↦ open_pools calls + 1
  ]
  open_pools (ping ∷ calls) = open_pools calls
  open_pools (close ∷ calls) = open_pools calls - 1

  -- A pool that has room for every worker and five connections more, and is kept half full; or an
  -- error and no open pool.
  abbrev pub Sized : ℕ → Result (PoolError V) PoolConfig × List PoolCall → Type 0
  Sized workers (err e, calls) = open_pools calls ≡ 0
  Sized workers (ok c, calls) =
      (open_pools calls ≡ 1)
      × (c.max_conns ≡ pos (workers + 5))
      × (c.min_conns ≡ pos (workers / 2))
      × (c.min_conns ≤ℤ c.max_conns)

  -- The sizes for this many workers.
  abbrev Sizes : ℕ → PoolConfig → Type 0
  Sizes workers c =
      (c.max_conns ≡ pos (workers + 5))
      × (c.min_conns ≡ pos (workers / 2))
      × (c.min_conns ≤ℤ c.max_conns)

  pool_config-Sizes :
      (cfg : Config) (workers : ℕ)
      → cfg.workers ≡ pos workers
      → workers + 5 < 2 ^ 31
      → Sizes workers (pool_config V cfg)
  unfolding pool_config half
  pool_config-Sizes cfg workers e small =
      let sum : add64 (workers % 2 ^ 64) 5 ≡ workers + 5 = omega arith in
      let low : workers / 2 % 2 ^ 64 ≡ workers / 2 = omega arith in
      rw (e, sum, low, int32-small (workers + 5) small, int32-small (workers / 2) (omega arith))
        (refl, refl, omega arith)

  pinged-Sized :
      (workers : ℕ) (c : PoolConfig) (calls : List PoolCall)
      → Sizes workers c
      → open_pools calls ≡ 1
      → Sized workers (pinged V c calls)
  unfolding pinged
  pinged-Sized workers c calls s one = elim (Option-cases (V.pings c)) [
    | inl e ↦ rw (pinged, e) (one, s.0, s.1, s.2)
    | inr (x, e) ↦ rw (pinged, e) (omega (arith, one))
  ]

  created-Sized :
      (workers : ℕ) (c : PoolConfig) (calls : List PoolCall)
      → Sizes workers c
      → open_pools calls ≡ 0
      → Sized workers (created V c calls)
  unfolding created
  created-Sized workers c calls s no_pool = elim (Option-cases (creates c)) [
    | inl e ↦
        let one : open_pools (new_with_config c ∷ calls) ≡ 1 = rw (open_pools, e, no_pool) refl in
        rw (created, e) (pinged-Sized workers c (new_with_config c ∷ calls) s one)
    | inr (x, e) ↦ rw (created, e, open_pools, e) no_pool
  ]

  -- With fewer than 2^31 - 5 workers, however the driver answers: the pool that `NewPool`
  -- returns is the one open pool, for at most five connections more than there are workers and at
  -- least half as many as workers; with an error, no pool is left open.
  pub new_pool-Sized :
      (cfg : Config) (workers : ℕ)
      → cfg.workers ≡ pos workers
      → workers + 5 < 2 ^ 31
      → Sized workers (new_pool V cfg)
  unfolding new_pool
  new_pool-Sized cfg workers e small =
      let sizes = pool_config-Sizes cfg workers e small in
      elim (Option-cases (V.parses cfg.pg_dsn)) [
        | inl none_failed ↦
            rw (new_pool, none_failed)
              (created-Sized workers (pool_config V cfg) (parse_config cfg.pg_dsn ∷ []) sizes refl)
        | inr (x, failed) ↦ rw (new_pool, failed) refl
      ]
