-- ===== src/Metrics/PgStats/Waits.antt =====
-- The gauges of the wait events are a snapshot.
use pgstorm.Prelude.{
  ◌&&◌, String, string_eq, ◌≡◌, refl, ap, ap₂, ◌∙◌, Option, none, some, List, [], ◌∷◌, ◌++◌, map,
  if◌then◌else◌, Result, ok, err,
}
use pgstorm.Workload.Float.{Float64}
use pgstorm.Metrics.IndexStats.{Answer}
use pgstorm.Metrics.PgStats.{
  Publish, add, reset_waits, set_wait, Published, published, WaitRow, publish_waits,
  collect_wait_event_stats,
}

module _ (F : Float64) where
  open F use {Float}

  -- The gauge of a wait event after a log, from what it was before; `none` when there is none.
  abbrev pub gauge : String → String → Option Float → List (Publish F) → Option Float
  gauge type event before [] = before
  gauge type event before (add k v ∷ log) = gauge type event before log
  gauge type event before (reset_waits ∷ log) = gauge type event none log
  gauge type event before (set_wait t e v ∷ log) =
      gauge type event (if string_eq.beq t type && string_eq.beq e event then some v else before)
        log

  gauge-append :
      (type event : String) (before : Option Float) (l m : List (Publish F))
      → gauge type event before (l ++ m) ≡ gauge type event (gauge type event before l) m
  gauge-append type event before [] m = refl
  gauge-append type event before (add k v ∷ l) m = gauge-append type event before l m
  gauge-append type event before (reset_waits ∷ l) m = gauge-append type event none l m
  gauge-append type event before (set_wait t e v ∷ l) m = gauge-append type event _ l m

  -- The count of the last row of a wait event, else what is given.
  abbrev pub last_count : String → String → Option Float → List (WaitRow F) → Option Float
  last_count type event before [] = before
  last_count type event before (r ∷ rows) =
      last_count type event
        (if string_eq.beq r.event_type type && string_eq.beq r.event event
          then some r.count
          else before)
        rows

  -- What has been collected with no error, and the gauge that this leaves.
  abbrev pub Snapshot :
      {E : Type 0} → String → String → Answer E (WaitRow F) → Option E × Published F → Type 0
  Snapshot type event answer (some e, q) = Unit
  Snapshot {E} type event answer (none, q) =
      (rows : List (WaitRow F)) × (answer ≡ ok (map ok rows, none))
      × (gauge type event none q.log ≡ last_count type event none rows)

  abbrev Rest :
      {E : Type 0}
      → String
      → String
      → List (Result E (WaitRow F))
      → Option E
      → Published F
      → Option E × Published F
      → Type 0
  Rest type event rows rows_err p (some e, q) = Unit
  Rest type event rows rows_err p (none, q) =
      (rs : List (WaitRow F)) × (rows ≡ map ok rs)
      × (rows_err ≡ none)
      × (gauge type event none q.log ≡ last_count type event (gauge type event none p.log) rs)

  Rest-more :
      {E : Type 0} (type event : String) (r : WaitRow F) (rows : List (Result E (WaitRow F)))
      (rows_err : Option E) (p : Published F) (o : Option E × Published F)
      → Rest type event rows rows_err (published F (set_wait r.event_type r.event r.count) p) o
      → Rest type event (ok r ∷ rows) rows_err p o
  Rest-more type event r rows rows_err p (some e, q) h = tt
  Rest-more type event r rows rows_err p (none, q) (rs, all, end, now) = (
    r ∷ rs,
    ap (λ rows. ok r ∷ rows) all,
    end,
    now
        ∙ ap (λ b. last_count type event b rs)
            (gauge-append type event none p.log (set_wait r.event_type r.event r.count ∷ [])),
  )

  publish_waits-Rest :
      {E : Type 0} (type event : String) (rows : List (Result E (WaitRow F))) (rows_err : Option E)
      (p : Published F)
      → Rest type event rows rows_err p (publish_waits F rows rows_err p)
  unfolding publish_waits
  publish_waits-Rest type event [] none p = ([], refl, refl, refl)
  publish_waits-Rest type event [] (some e) p = tt
  publish_waits-Rest type event (err e ∷ rows) rows_err p = tt
  publish_waits-Rest type event (ok r ∷ rows) rows_err p =
      let q = published F (set_wait r.event_type r.event r.count) p in
      Rest-more type event r rows rows_err p (publish_waits F rows rows_err q)
        (publish_waits-Rest type event rows rows_err q)

  Rest-Snapshot :
      {E : Type 0} (type event : String) (rows : List (Result E (WaitRow F))) (rows_err : Option E)
      (p : Published F) (o : Option E × Published F)
      → gauge type event none p.log ≡ none
      → Rest type event rows rows_err p o
      → Snapshot type event (ok (rows, rows_err)) o
  Rest-Snapshot type event rows rows_err p (some e, q) empty h = tt
  Rest-Snapshot type event rows rows_err p (none, q) empty (rs, all, end, now) =
      (rs, ap₂ (λ r e. ok (r, e)) all end, now ∙ ap (λ b. last_count type event b rs) empty)

  -- When the collection of the wait events returns no error, whatever was published before, all rows
  -- of the answer were read and a gauge shows the count of the last row of its wait event; the gauge
  -- of an event that no row is about is gone.
  pub collect_wait_event_stats-Snapshot :
      {E : Type 0} (type event : String) (answer : Answer E (WaitRow F)) (p : Published F)
      → Snapshot type event answer (collect_wait_event_stats F answer p)
  unfolding collect_wait_event_stats
  collect_wait_event_stats-Snapshot type event (err e) p = tt
  collect_wait_event_stats-Snapshot type event (ok (rows, rows_err)) p =
      let q = published F reset_waits p in
      Rest-Snapshot type event rows rows_err q (publish_waits F rows rows_err q)
        (gauge-append type event none p.log (reset_waits ∷ []))
        (publish_waits-Rest type event rows rows_err q)
