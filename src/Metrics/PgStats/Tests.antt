-- ===== src/Metrics/PgStats/Tests.antt =====
-- The collection of the server's statistics on concrete answers, in exact arithmetic.
use pgstorm.Prelude.{
  ℕ, ◌*◌, arith, ℤ, pos, String, ◌≡◌, refl, none, List, [], ◌∷◌, All, Result, ok, err,
}
use pgstorm.Workload.Float.{exact, million}
use pgstorm.Metrics.IndexStats.{Answer}
use pgstorm.Metrics.PgStats.{
  checkpoint_write_seconds, wal_bytes_total, Checkpointer17, WalRow, WaitRow, Tick, Published,
  set_wait, major_or_16, run_pg_stats_loop, collect_wait_event_stats,
}
use pgstorm.Metrics.PgStats.Deltas.{steps, adds}
use pgstorm.Metrics.PgStats.Reads.{all_reads, adds-run_pg_stats_loop}
use pgstorm.Metrics.PgStats.Safe.{Order, Accepted, run_pg_stats_loop-Accepted}
use pgstorm.Metrics.PgStats.Waits.{Snapshot, collect_wait_event_stats-Snapshot}

abbrev checkpointer : Checkpointer17 exact
checkpointer = record {
  cp_timed = 1;
  cp_req = 2;
  buf_checkpoint = 3;
  write_time = 4000 * million;
  sync_time = 5;
}

abbrev wal : ℕ → WalRow exact
wal n = record { wal_bytes = n * million; wal_records = 1; wal_fpi = 0; wal_buffers_full = 0 }

abbrev waiting : Answer String (WaitRow exact)
waiting = ok (ok (record { event_type = "LWLock"; event = "WALWrite"; count = 3 }) ∷ [], none)

-- PostgreSQL 17 answers; a query of the WAL fails once, and the server's statistics are reset once.
abbrev tick : Result String (WalRow exact) → Tick exact String
tick w = record {
  bgwriter = err "no such column";
  checkpointer = ok checkpointer;
  clean = err "connection lost";
  wal = w;
  waits = waiting;
}

abbrev ticks : List (Tick exact String)
ticks =
    tick (ok (wal 5))
    ∷ tick (ok (wal 8))
    ∷ tick (err "timeout")
    ∷ tick (ok (wal 2))
    ∷ tick (ok (wal 9))
    ∷ []

abbrev seventeen : Result String ℤ
seventeen = ok (pos 17)

-- The increases are 3 and 7.
wal_added :
    adds exact wal_bytes_total (run_pg_stats_loop exact seventeen ticks [])
    ≡ 0 ∷ 3 * million ∷ 0 ∷ 7 * million ∷ []
unfolding run_pg_stats_loop
wal_added = refl

adds-run_pg_stats_loop_example :
    adds exact wal_bytes_total (run_pg_stats_loop exact seventeen ticks [])
    ≡ steps exact wal_bytes_total none (all_reads exact wal_bytes_total (pos 17) ticks)
unfolding major_or_16
adds-run_pg_stats_loop_example = adds-run_pg_stats_loop exact wal_bytes_total seventeen ticks

exact-Order : Order exact
exact-Order = record {
  zero_not_lt = refl;
  sub_not_lt = (λ a b h. ground arith);
  div_not_lt = (λ a h. ground arith);
}

run_pg_stats_loop-Accepted_example :
    All
      (Accepted exact exact-Order)
      (adds exact checkpoint_write_seconds (run_pg_stats_loop exact seventeen ticks []))
run_pg_stats_loop-Accepted_example =
    run_pg_stats_loop-Accepted exact exact-Order checkpoint_write_seconds seventeen ticks

-- An event that waits no more.
abbrev before : Published exact
before = record { tracker = []; log = set_wait "IO" "DataFileRead" 9 ∷ [] }

collect_wait_event_stats-Snapshot_example :
    Snapshot exact "IO" "DataFileRead" waiting (collect_wait_event_stats exact waiting before)
collect_wait_event_stats-Snapshot_example =
    collect_wait_event_stats-Snapshot exact "IO" "DataFileRead" waiting before
