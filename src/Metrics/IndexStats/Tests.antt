-- ===== src/Metrics/IndexStats/Tests.antt =====
-- The tracker and the collectors on concrete answers.
use pgstorm.Prelude.{ℕ, String, string_eq, ◌≡◌, refl, none, some, List, [], ◌∷◌, Result, ok, err}
use pgstorm.Metrics.IndexStats.{
  new_tracker, delta, table_size_bytes, table_live_tuples, table_dead_tuples,
  table_mod_since_analyze, table_autovacuum_total, set, add, IndexRow, Published, publish_table,
  Answer, run_index_stats_loop,
}
use pgstorm.Metrics.IndexStats.Growth.{growth, added, all_answered, added-run_index_stats_loop}

abbrev row : String → ℕ → Result ℕ IndexRow
row index scans = ok (record { index = index; table = "events"; size_bytes = 8192; scans = scans })

-- Four ticks: index "i" goes from 5 to 9, is reset to 2 and goes to 3; one query fails.
abbrev answers : List (Answer ℕ IndexRow)
answers =
    ok (row "i" 5 ∷ row "j" 1 ∷ [], none)
    ∷ ok (row "i" 9 ∷ err 7 ∷ row "i" 100 ∷ [], none)
    ∷ err 8
    ∷ ok (row "i" 2 ∷ [], some 9)
    ∷ ok (row "j" 1 ∷ row "i" 3 ∷ [], none)
    ∷ []

abbrev start : Published
start = record { tracker = new_tracker; log = [] }

growth-answers : growth none (all_answered ℕ "i" answers) ≡ 5
growth-answers = refl

added-answers : added "i" (run_index_stats_loop ℕ answers start).log ≡ 5
unfolding run_index_stats_loop
added-answers = refl

delta-reset : delta "i" 2 (("i", 9) ∷ []) ≡ (0, ("i", 2) ∷ [])
unfolding delta
delta-reset = refl

publish_table-start :
    (publish_table
      (record {
        table = "t";
        size_bytes = 1;
        live_tuples = 2;
        dead_tuples = 3;
        mod_since_analyze = 4;
        autovacuum_count = 5;
        autoanalyze_count = 6;
      })
      (record { tracker = ("t:autovacuum", 3) ∷ []; log = [] })).log
    ≡ add (table_autovacuum_total "t") 2
      ∷ set (table_mod_since_analyze "t") 4
      ∷ set (table_dead_tuples "t") 3
      ∷ set (table_live_tuples "t") 2
      ∷ set (table_size_bytes "t") 1
      ∷ []
unfolding publish_table
publish_table-start = refl

added-run_index_stats_loop_example :
    added "i" (run_index_stats_loop ℕ answers start).log ≡ growth none (all_answered ℕ "i" answers)
added-run_index_stats_loop_example = added-run_index_stats_loop ℕ "i" answers
