-- ===== src/Metrics/PgStats.antt =====
-- metrics/pg_stats.go: the statistics of the server, published as counters that grow by what was
-- added since the last look, and its wait events, published as gauges.
--
-- The Prometheus client is a log of what is added, set and reset, the oldest first. A query of one
-- row is its error or its columns; the wait events are an answer as in Metrics/IndexStats.antt.
pub mod Columns
pub mod Deltas
pub mod Reads
pub mod Safe
pub mod Waits
mod Tests
use pgstorm.Prelude.{
  ℤ, pos, String, string_eq, Option, none, some, List, [], ◌∷◌, ◌++◌, lookup, insert, ltb_ℤ,
  if◌then◌else◌, Result, ok, err,
}
use pgstorm.Workload.Float.{Float64}
use pgstorm.Metrics.IndexStats.{Answer}

pub data Counter : Type 0 where
  checkpoints_timed : Counter
  checkpoints_req : Counter
  buffers_checkpoint : Counter
  buffers_clean : Counter
  buffers_backend : Counter
  checkpoint_write_seconds : Counter
  checkpoint_sync_seconds : Counter
  wal_bytes_total : Counter
  wal_records_total : Counter
  wal_fpi_total : Counter
  wal_buffers_full_total : Counter

module _ (F : Float64) where
  open F use {Float, ratio, sub, div, lt}

  pub data Publish : Type 0 where
    -- `Add` of a counter
    add : Counter → Float → Publish
    -- `waitEventsActive.Reset()`
    reset_waits : Publish
    -- `waitEventsActive.WithLabelValues(evType, ev).Set(count)`
    set_wait : String → String → Float → Publish

  -- `pgStatsTracker`
  abbrev pub PgTracker : Type 0
  PgTracker = List (String × Float)

  -- What `delta` returns, given the value last seen.
  unfoldable pub delta_from : Option Float → Float → Float
  delta_from none current = ratio 0 1
  delta_from (some prev) current = if lt current prev then ratio 0 1 else sub current prev

  -- `delta`
  unfoldable pub delta : String → Float → PgTracker → Float × PgTracker
  unfolding delta_from lookup insert
  delta key current t = (delta_from (lookup key t) current, insert key current t)

  pub record Published : Type 0 where
    pub tracker : PgTracker
    pub log : List Publish

  abbrev pub published : Publish → Published → Published
  published x p = record p { log = p.log ++ (x ∷ []) }

  -- `counter.Add(scale(tracker.delta(key, current)))`
  unfoldable pub follow : (Float → Float) → Counter → String → Float → Published → Published
  unfolding delta
  follow scale counter key current p =
      let (d, t) = delta key current p.tracker in
      record { tracker = t; log = p.log ++ (add counter (scale d) ∷ []) }

  -- As it is, and from milliseconds.
  abbrev pub whole : Float → Float
  whole d = d

  abbrev pub from_ms : Float → Float
  from_ms d = div d (ratio 1000 1)

  pub record Bgwriter16 : Type 0 where
    pub cp_timed : Float
    pub cp_req : Float
    pub buf_checkpoint : Float
    pub buf_clean : Float
    pub buf_backend : Float
    pub write_time : Float
    pub sync_time : Float

  pub record Checkpointer17 : Type 0 where
    pub cp_timed : Float
    pub cp_req : Float
    pub buf_checkpoint : Float
    pub write_time : Float
    pub sync_time : Float

  pub record WalRow : Type 0 where
    pub wal_bytes : Float
    pub wal_records : Float
    pub wal_fpi : Float
    pub wal_buffers_full : Float

  pub record WaitRow : Type 0 where
    pub event_type : String
    pub event : String
    pub count : Float

  unfoldable pub publish_bgwriter16 : Bgwriter16 → Published → Published
  unfolding follow
  publish_bgwriter16 r p =
      let p1 = follow whole checkpoints_timed "cp_timed" r.cp_timed p in
      let p2 = follow whole checkpoints_req "cp_req" r.cp_req p1 in
      let p3 = follow whole buffers_checkpoint "buf_checkpoint" r.buf_checkpoint p2 in
      let p4 = follow whole buffers_clean "buf_clean" r.buf_clean p3 in
      let p5 = follow whole buffers_backend "buf_backend" r.buf_backend p4 in
      let p6 = follow from_ms checkpoint_write_seconds "cp_write_ms" r.write_time p5 in
      follow from_ms checkpoint_sync_seconds "cp_sync_ms" r.sync_time p6

  unfoldable pub publish_checkpointer17 : Checkpointer17 → Published → Published
  unfolding follow
  publish_checkpointer17 r p =
      let p1 = follow whole checkpoints_timed "cp_timed" r.cp_timed p in
      let p2 = follow whole checkpoints_req "cp_req" r.cp_req p1 in
      let p3 = follow whole buffers_checkpoint "buf_checkpoint" r.buf_checkpoint p2 in
      let p4 = follow from_ms checkpoint_write_seconds "cp_write_ms" r.write_time p3 in
      follow from_ms checkpoint_sync_seconds "cp_sync_ms" r.sync_time p4

  unfoldable pub publish_wal : WalRow → Published → Published
  unfolding follow
  publish_wal r p =
      let p1 = follow whole wal_bytes_total "wal_bytes" r.wal_bytes p in
      let p2 = follow whole wal_records_total "wal_records" r.wal_records p1 in
      let p3 = follow whole wal_fpi_total "wal_fpi" r.wal_fpi p2 in
      follow whole wal_buffers_full_total "wal_buffers_full" r.wal_buffers_full p3

  module _ (E : Type 0) where
    -- What the server would answer at one tick.
    pub record Tick : Type 0 where
      pub bgwriter : Result E Bgwriter16
      pub checkpointer : Result E Checkpointer17
      pub clean : Result E Float
      pub wal : Result E WalRow
      pub waits : Answer E WaitRow

  module _ {E : Type 0} where
    -- `collectBgwriterStatsPG16`
    unfoldable pub collect_bgwriter_stats_pg16 :
        Result E Bgwriter16 → Published → Option E × Published
    unfolding publish_bgwriter16
    collect_bgwriter_stats_pg16 (err e) p = (some e, p)
    collect_bgwriter_stats_pg16 (ok r) p = (none, publish_bgwriter16 r p)

    -- The second query of `collectBgwriterStatsPG17`.
    unfoldable pub collect_buffers_clean : Result E Float → Published → Option E × Published
    unfolding follow
    collect_buffers_clean (err e) p = (some e, p)
    collect_buffers_clean (ok clean) p = (none, follow whole buffers_clean "buf_clean" clean p)

    -- `collectBgwriterStatsPG17`
    unfoldable pub collect_bgwriter_stats_pg17 :
        Result E Checkpointer17 → Result E Float → Published → Option E × Published
    unfolding publish_checkpointer17 collect_buffers_clean
    collect_bgwriter_stats_pg17 (err e) clean p = (some e, p)
    collect_bgwriter_stats_pg17 (ok r) clean p =
        collect_buffers_clean clean (publish_checkpointer17 r p)

    -- `collectWALStats`
    unfoldable pub collect_wal_stats : Result E WalRow → Published → Option E × Published
    unfolding publish_wal
    collect_wal_stats (err e) p = (some e, p)
    collect_wal_stats (ok r) p = (none, publish_wal r p)

    -- The loop over the wait events.
    unfoldable pub publish_waits :
        List (Result E WaitRow) → Option E → Published → Option E × Published
    publish_waits [] rows_err p = (rows_err, p)
    publish_waits (err e ∷ rows) rows_err p = (some e, p)
    publish_waits (ok r ∷ rows) rows_err p =
        publish_waits rows rows_err (published (set_wait r.event_type r.event r.count) p)

    -- `collectWaitEventStats`
    unfoldable pub collect_wait_event_stats : Answer E WaitRow → Published → Option E × Published
    unfolding publish_waits
    collect_wait_event_stats (err e) p = (some e, p)
    collect_wait_event_stats (ok (rows, rows_err)) p =
        publish_waits rows rows_err (published reset_waits p)

    -- `collectBgwriterStats`
    unfoldable pub collect_bgwriter_stats : ℤ → Tick E → Published → Option E × Published
    unfolding collect_bgwriter_stats_pg16 collect_bgwriter_stats_pg17
    collect_bgwriter_stats pg_major t p =
        if ltb_ℤ pg_major (pos 17)
        then collect_bgwriter_stats_pg16 t.bgwriter p
        else collect_bgwriter_stats_pg17 t.checkpointer t.clean p

    -- A turn of the loop; errors are logged.
    unfoldable pub collect_all : ℤ → Tick E → Published → Published
    unfolding collect_bgwriter_stats collect_wal_stats collect_wait_event_stats
    collect_all pg_major t p =
        let p1 = (collect_bgwriter_stats pg_major t p).1 in
        let p2 = (collect_wal_stats t.wal p1).1 in (collect_wait_event_stats t.waits p2).1

    unfoldable pub collect_ticks : ℤ → List (Tick E) → Published → Published
    unfolding collect_all
    collect_ticks pg_major [] p = p
    collect_ticks pg_major (t ∷ ts) p = collect_ticks pg_major ts (collect_all pg_major t p)

    -- The version that `RunPGStatsLoop` works with.
    unfoldable pub major_or_16 : Result E ℤ → ℤ
    major_or_16 (err e) = pos 16
    major_or_16 (ok n) = n

    -- `RunPGStatsLoop`, over the ticks before the context is done, from a log on.
    unfoldable pub run_pg_stats_loop : Result E ℤ → List (Tick E) → List Publish → List Publish
    unfolding collect_ticks major_or_16
    run_pg_stats_loop detected ts log =
        (collect_ticks (major_or_16 detected) ts (record { tracker = []; log = log })).log
