-- ===== src/Db/Pool.antt =====
-- db/pool.go: the pool of connections, sized by the number of workers.
--
-- The driver is a parameter: how it answers. A Go `int` is its 64-bit pattern, and the conversion to
-- `int32` keeps the low half.
pub mod Sized
mod Tests
use pgstorm.Prelude.{
  ℕ, ◌-◌, ◌/◌, ◌%◌, ◌^◌, ℤ, pos, negsuc, bits, ltb, add64, String, Option, none, some, List, [],
  ◌∷◌, if◌then◌else◌, Result, ok, err,
}
use pgstorm.Config.{Config}

-- `int32(n)`
unfoldable pub int32 : ℕ → ℤ
int32 n = let low = n % 2 ^ 32 in if ltb low (2 ^ 31) then pos low else negsuc (2 ^ 32 - 1 - low)

-- `n / 2`, which Go truncates to zero.
unfoldable pub half : ℤ → ℤ
half (pos n) = pos (n / 2)
half (negsuc n) = if ltb n 1 then pos 0 else negsuc ((n - 1) / 2)

pub record PoolConfig : Type 0 where
  pub dsn : String
  pub max_conns : ℤ
  pub min_conns : ℤ

pub data PoolCall : Type 0 where
  parse_config : String → PoolCall
  new_with_config : PoolConfig → PoolCall
  ping : PoolCall
  close : PoolCall

-- The error that each call ends with, if any.
pub record Pgx : Type 1 where
  pub Error : Type 0
  pub parses : String → Option Error
  pub creates : PoolConfig → Option Error
  pub pings : PoolConfig → Option Error

module _ (V : Pgx) where
  open V use {Error, parses, creates, pings}

  pub data PoolError : Type 0 where
    bad_dsn : Error → PoolError
    not_created : Error → PoolError
    no_answer : Error → PoolError

  -- From the ping on.
  unfoldable pub pinged : PoolConfig → List PoolCall → Result PoolError PoolConfig × List PoolCall
  pinged c calls = elim (pings c) [
    | some e ↦ (err (no_answer e), close ∷ ping ∷ calls)
    | none ↦ (ok c, ping ∷ calls)
  ]

  -- From `NewWithConfig` on.
  unfoldable pub created : PoolConfig → List PoolCall → Result PoolError PoolConfig × List PoolCall
  unfolding pinged
  created c calls = elim (creates c) [
    | some e ↦ (err (not_created e), new_with_config c ∷ calls)
    | none ↦ pinged c (new_with_config c ∷ calls)
  ]

  unfoldable pub pool_config : Config → PoolConfig
  unfolding int32 half
  pool_config cfg = record {
    dsn = cfg.pg_dsn;
    max_conns = int32 (add64 (bits cfg.workers) 5);
    min_conns = int32 (bits (half cfg.workers));
  }

  -- `NewPool`, with the calls it makes, the newest first. The pool is named by its configuration.
  unfoldable pub new_pool : Config → Result PoolError PoolConfig × List PoolCall
  unfolding created pool_config
  new_pool cfg = elim (parses cfg.pg_dsn) [
    | some e ↦ (err (bad_dsn e), parse_config cfg.pg_dsn ∷ [])
    | none ↦ created (pool_config cfg) (parse_config cfg.pg_dsn ∷ [])
  ]
