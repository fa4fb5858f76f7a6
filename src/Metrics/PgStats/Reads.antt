-- ===== src/Metrics/PgStats/Reads.antt =====
-- What the counters of the server's statistics are told to add, from the values that the queries
-- read.
use pgstorm.Prelude.{
  ℤ, pos, ltb_ℤ, string_eq, ◌≡◌, refl, ap, subst, ◌∙◌, Option, none, List, [], ◌∷◌, ◌++◌,
  Bool-cases, inl, inr, if◌then◌else◌, Result, ok, err,
}
use mathlib.Core.List.{append-nil}
use pgstorm.Workload.Float.{Float64}
use pgstorm.Metrics.IndexStats.{Answer}
use pgstorm.Metrics.PgStats.{
  Counter, Publish, reset_waits, set_wait, Published, published, Bgwriter16, Checkpointer17, WalRow,
  WaitRow, publish_bgwriter16, publish_checkpointer17, publish_wal, collect_bgwriter_stats_pg16,
  collect_buffers_clean, collect_bgwriter_stats_pg17, collect_wal_stats, publish_waits,
  collect_wait_event_stats, Tick, collect_bgwriter_stats, collect_all, collect_ticks, major_or_16,
  run_pg_stats_loop,
}
use pgstorm.Metrics.PgStats.Deltas.{
  steps, adds, adds-append, Follows, Follows-none, Follows-then, lift_all, picked, Follows-lift_all,
}
use pgstorm.Metrics.PgStats.Columns.{
  columns_of_bgwriter16, columns_of_checkpointer17, columns_of_clean, columns_of_wal, of_bgwriter16,
  of_checkpointer17, of_clean, of_wal, picked-of_bgwriter16, picked-of_checkpointer17,
  picked-of_clean, picked-of_wal,
}

module _ (F : Float64) where
  open F use {Float}

  Follows-row :
      {R : Type 0} (c : Counter) (columns : R → List (Counter × Float)) (read : R → List Float)
      (r : R) (p : Published F)
      → picked F c (columns r) ≡ read r
      → Follows F c (read r) p (lift_all F (columns r) p)
  Follows-row c columns read r p e =
      subst (λ vs. Follows F c vs p (lift_all F (columns r) p)) e
        (Follows-lift_all F c (columns r) p)

  -- The wait events leave the counters alone.
  Follows-published :
      (c : Counter) (x : Publish F) (p : Published F)
      → adds F c (x ∷ []) ≡ []
      → Follows F c [] p (published F x p)
  Follows-published c x p e =
      (adds-append F c p.log (x ∷ []) ∙ ap (λ l. adds F c p.log ++ l) e, refl)

  module _ {E : Type 0} where
    abbrev of_answer : {R : Type 0} → (R → List Float) → Result E R → List Float
    of_answer read (err e) = []
    of_answer read (ok r) = read r

    -- From PostgreSQL 17 on, the second query is made only if the first has answered.
    abbrev of_bgwriter17 : Counter → Result E (Checkpointer17 F) → Result E Float → List Float
    of_bgwriter17 c (err e) clean = []
    of_bgwriter17 c (ok r) clean = of_checkpointer17 F c r ++ of_answer (of_clean F c) clean

    abbrev of_bgwriter : Counter → ℤ → Tick F E → List Float
    of_bgwriter c pg_major t =
        if ltb_ℤ pg_major (pos 17)
        then of_answer (of_bgwriter16 F c) t.bgwriter
        else of_bgwriter17 c t.checkpointer t.clean

    -- What a tick reads of a counter: at most one value.
    abbrev pub reads : Counter → ℤ → Tick F E → List Float
    reads c pg_major t = of_bgwriter c pg_major t ++ of_answer (of_wal F c) t.wal

    abbrev pub all_reads : Counter → ℤ → List (Tick F E) → List Float
    all_reads c pg_major [] = []
    all_reads c pg_major (t ∷ ts) = reads c pg_major t ++ all_reads c pg_major ts

    Follows-pg16 :
        (c : Counter) (a : Result E (Bgwriter16 F)) (p : Published F)
        → Follows F c (of_answer (of_bgwriter16 F c) a) p (collect_bgwriter_stats_pg16 F a p).1
    unfolding collect_bgwriter_stats_pg16 publish_bgwriter16
    Follows-pg16 c (err e) p = Follows-none F c p
    Follows-pg16 c (ok r) p =
        Follows-row c (columns_of_bgwriter16 F) (of_bgwriter16 F c) r p (picked-of_bgwriter16 F c r)

    Follows-clean :
        (c : Counter) (a : Result E Float) (p : Published F)
        → Follows F c (of_answer (of_clean F c) a) p (collect_buffers_clean F a p).1
    unfolding collect_buffers_clean
    Follows-clean c (err e) p = Follows-none F c p
    Follows-clean c (ok r) p =
        Follows-row c (columns_of_clean F) (of_clean F c) r p (picked-of_clean F c r)

    Follows-pg17 :
        (c : Counter) (a : Result E (Checkpointer17 F)) (clean : Result E Float) (p : Published F)
        → Follows F c (of_bgwriter17 c a clean) p (collect_bgwriter_stats_pg17 F a clean p).1
    unfolding collect_bgwriter_stats_pg17 publish_checkpointer17
    Follows-pg17 c (err e) clean p = Follows-none F c p
    Follows-pg17 c (ok r) clean p =
        Follows-then F c (of_checkpointer17 F c r) (of_answer (of_clean F c) clean) p
          (publish_checkpointer17 F r p)
          (collect_buffers_clean F clean (publish_checkpointer17 F r p)).1
          (Follows-row c (columns_of_checkpointer17 F) (of_checkpointer17 F c) r p
            (picked-of_checkpointer17 F c r))
          (Follows-clean c clean (publish_checkpointer17 F r p))

    Follows-bgwriter :
        (c : Counter) (pg_major : ℤ) (t : Tick F E) (p : Published F)
        → Follows F c (of_bgwriter c pg_major t) p (collect_bgwriter_stats F pg_major t p).1
    unfolding collect_bgwriter_stats
    Follows-bgwriter c pg_major t p = elim (Bool-cases (ltb_ℤ pg_major (pos 17))) [
      | inl e ↦ rw e (Follows-pg16 c t.bgwriter p)
      | inr e ↦ rw e (Follows-pg17 c t.checkpointer t.clean p)
    ]

    Follows-wal :
        (c : Counter) (a : Result E (WalRow F)) (p : Published F)
        → Follows F c (of_answer (of_wal F c) a) p (collect_wal_stats F a p).1
    unfolding collect_wal_stats publish_wal
    Follows-wal c (err e) p = Follows-none F c p
    Follows-wal c (ok r) p = Follows-row c (columns_of_wal F) (of_wal F c) r p (picked-of_wal F c r)

    Follows-publish_waits :
        (c : Counter) (rows : List (Result E (WaitRow F))) (rows_err : Option E) (p : Published F)
        → Follows F c [] p (publish_waits F rows rows_err p).1
    unfolding publish_waits
    Follows-publish_waits c [] rows_err p = Follows-none F c p
    Follows-publish_waits c (err e ∷ rows) rows_err p = Follows-none F c p
    Follows-publish_waits c (ok r ∷ rows) rows_err p =
        let q = published F (set_wait r.event_type r.event r.count) p in
        Follows-then F c [] [] p q (publish_waits F rows rows_err q).1
          (Follows-published c (set_wait r.event_type r.event r.count) p refl)
          (Follows-publish_waits c rows rows_err q)

    Follows-waits :
        (c : Counter) (a : Answer E (WaitRow F)) (p : Published F)
        → Follows F c [] p (collect_wait_event_stats F a p).1
    unfolding collect_wait_event_stats
    Follows-waits c (err e) p = Follows-none F c p
    Follows-waits c (ok (rows, rows_err)) p =
        let q = published F reset_waits p in
        Follows-then F c [] [] p q (publish_waits F rows rows_err q).1
          (Follows-published c reset_waits p refl) (Follows-publish_waits c rows rows_err q)

    Follows-collect_all :
        (c : Counter) (pg_major : ℤ) (t : Tick F E) (p : Published F)
        → Follows F c (reads c pg_major t) p (collect_all F pg_major t p)
    unfolding collect_all
    Follows-collect_all c pg_major t p =
        let p1 = (collect_bgwriter_stats F pg_major t p).1 in
        let p2 = (collect_wal_stats F t.wal p1).1 in
        let p3 = (collect_wait_event_stats F t.waits p2).1 in
        Follows-then F c (of_bgwriter c pg_major t) (of_answer (of_wal F c) t.wal) p p1 p3
          (Follows-bgwriter c pg_major t p)
          (subst (λ vs. Follows F c vs p1 p3) (append-nil (of_answer (of_wal F c) t.wal))
            (Follows-then F c (of_answer (of_wal F c) t.wal) [] p1 p2 p3 (Follows-wal c t.wal p1)
              (Follows-waits c t.waits p2)))

    Follows-collect_ticks :
        (c : Counter) (pg_major : ℤ) (ts : List (Tick F E)) (p : Published F)
        → Follows F c (all_reads c pg_major ts) p (collect_ticks F pg_major ts p)
    unfolding collect_ticks
    Follows-collect_ticks c pg_major [] p = Follows-none F c p
    Follows-collect_ticks c pg_major (t ∷ ts) p =
        let q = collect_all F pg_major t p in
        Follows-then F c (reads c pg_major t) (all_reads c pg_major ts) p q
          (collect_ticks F pg_major ts q) (Follows-collect_all c pg_major t p)
          (Follows-collect_ticks c pg_major ts q)

    -- Whatever the server answers over a run of the loop, errors included, on every version: a
    -- counter is told to add, in order, one amount for each value that was read of it, 0 for the
    -- first and after a decrease and else the difference to the value read before, the checkpoint
    -- times divided by 1000; no value read of another counter makes a difference.
    pub adds-run_pg_stats_loop :
        (c : Counter) (detected : Result E ℤ) (ts : List (Tick F E))
        → adds F c (run_pg_stats_loop F detected ts [])
          ≡ steps F c none (all_reads c (major_or_16 F detected) ts)
    unfolding run_pg_stats_loop
    adds-run_pg_stats_loop c detected ts =
        (Follows-collect_ticks c (major_or_16 F detected) ts (record { tracker = []; log = [] })).0
