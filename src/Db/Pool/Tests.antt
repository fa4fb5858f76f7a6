-- ===== src/Db/Pool/Tests.antt =====
-- The pool of a run with 16 workers.
use pgstorm.Prelude.{◌^◌, ◌-◌, pos, negsuc, String, none, some, ◌≡◌, refl, arith}
use pgstorm.Config.{Config, read_config}
use pgstorm.Db.Pool.{Pgx, int32, new_pool}
use pgstorm.Db.Pool.Sized.{Sized, new_pool-Sized}

-- A driver that finds no server.
abbrev unreachable : Pgx
unreachable = record {
  Error = String;
  parses = (λ dsn. none);
  creates = (λ c. none);
  pings = (λ c. some "connection refused");
}

abbrev sixteen : Config
sixteen = record (read_config (λ name. "")) { workers = pos 16 }

new_pool-Sized_example : Sized unreachable 16 (new_pool unreachable sixteen)
new_pool-Sized_example = new_pool-Sized unreachable sixteen 16 refl (omega arith)

-- One worker more than the bound allows, and the conversion wraps to a negative size.
wraps : int32 (2 ^ 31) ≡ negsuc (2 ^ 31 - 1)
unfolding int32
wraps = refl
