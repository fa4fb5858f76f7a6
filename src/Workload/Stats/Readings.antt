-- ===== src/Workload/Stats/Readings.antt =====
-- Readings of an operation's statistics that every step adds up: its count, its errors, its
-- observations of one latency, and all its observations.
use pgstorm.Prelude.{
  ℕ, ◌+◌, ◌%◌, ℤ, Bool, string_eq, nat_eq, ◌≡◌, refl, List, [], ◌∷◌, map, word, sum64, lookup,
  insert, ◌==◌, if◌then◌else◌, arith,
}
use pgstorm.Workload.Stats.Window.{OpStats, no_stats, samples, add_at, pinned, record_us}
use pgstorm.Workload.Stats.Collector.{merge_into, merge_latencies}

-- A reading, what one recorded operation adds to it, and the laws: modulo 2^64, empty statistics
-- read 0, recording adds that much and merging adds up.
pub record Reading : Type 0 where
  pub read : OpStats → ℕ
  pub gain : ℤ → Bool → ℕ
  pub read-no_stats : read no_stats ≡ 0
  pub read-record_us :
      (us : ℤ) (failed : Bool) (s : OpStats)
      → read (record_us us failed s) % word ≡ (read s + gain us failed) % word
  pub read-merge_into : (d s : OpStats) → read (merge_into d s) % word ≡ (read d + read s) % word

count-record_us :
    (us : ℤ) (failed : Bool) (s : OpStats)
    → (record_us us failed s).count % word ≡ (s.count + 1) % word
unfolding record_us
count-record_us us failed s = ground arith

errors-record_us :
    (us : ℤ) (failed : Bool) (s : OpStats)
    → (record_us us failed s).errors % word ≡ (s.errors + (if failed then 1 else 0)) % word
unfolding record_us
errors-record_us us failed s = ground arith

unfoldable pub reading_count : Reading
unfolding record_us merge_into count-record_us
reading_count = record {
  read = λ s. s.count;
  gain = λ us failed. 1;
  read-no_stats = refl;
  read-record_us = count-record_us;
  read-merge_into = λ d s. omega arith;
}

-- The observations of one latency, and of all.
abbrev pub observed_at : ℕ → List (ℕ × ℕ) → ℕ
observed_at u [] = 0
observed_at u ((us, n) ∷ m) = (if us == u then n else 0) + observed_at u m

observed_at-add_at :
    (u us n : ℕ) (m : List (ℕ × ℕ))
    → observed_at u (add_at us n m) % word ≡ (observed_at u m + (if us == u then n else 0)) % word
unfolding add_at lookup insert
observed_at-add_at u us n [] = ground arith
observed_at-add_at u us n ((k, v) ∷ m) = ground (arith, observed_at-add_at u us n m)

observed_at-merge_latencies :
    (u : ℕ) (d m : List (ℕ × ℕ))
    → observed_at u (merge_latencies d m) % word ≡ (observed_at u d + observed_at u m) % word
unfolding merge_latencies
observed_at-merge_latencies u d [] = omega arith
observed_at-merge_latencies u d ((us, n) ∷ m) =
    omega (arith, observed_at-merge_latencies u (add_at us n d) m, observed_at-add_at u us n d)

abbrev total_of : List (ℕ × ℕ) → ℕ
total_of m = sum64 (map (λ e. e.1) m)

total_of-add_at :
    (us n : ℕ) (m : List (ℕ × ℕ)) → total_of (add_at us n m) % word ≡ (total_of m + n) % word
unfolding add_at lookup insert
total_of-add_at us n [] = ground arith
total_of-add_at us n ((k, v) ∷ m) = ground (arith, total_of-add_at us n m)

total_of-merge_latencies :
    (d m : List (ℕ × ℕ)) → total_of (merge_latencies d m) % word ≡ (total_of d + total_of m) % word
unfolding merge_latencies
total_of-merge_latencies d [] = omega arith
total_of-merge_latencies d ((us, n) ∷ m) =
    omega (arith, total_of-merge_latencies (add_at us n d) m, total_of-add_at us n d)

unfoldable pub reading_errors : Reading
unfolding record_us merge_into errors-record_us
reading_errors = record {
  read = λ s. s.errors;
  gain = λ us failed. if failed then 1 else 0;
  read-no_stats = refl;
  read-record_us = errors-record_us;
  read-merge_into = λ d s. omega arith;
}

pub reading_latency : ℕ → Reading
unfolding record_us merge_into
reading_latency u = record {
  read = λ s. observed_at u s.latencies;
  gain = λ us failed. if failed then 0 else if pinned us == u then 1 else 0;
  read-no_stats = refl;
  read-record_us = λ us failed s. ground (arith, observed_at-add_at u (pinned us) 1 s.latencies);
  read-merge_into = λ d s. observed_at-merge_latencies u d.latencies s.latencies;
}

pub samples-record_us :
    (us : ℤ) (failed : Bool) (s : OpStats)
    → samples (record_us us failed s) % word ≡ (samples s + (if failed then 0 else 1)) % word
unfolding record_us samples
samples-record_us us failed s = ground (arith, total_of-add_at (pinned us) 1 s.latencies)

pub samples-merge_into :
    (d s : OpStats) → samples (merge_into d s) % word ≡ (samples d + samples s) % word
unfolding merge_into samples
samples-merge_into d s = total_of-merge_latencies d.latencies s.latencies

unfoldable pub reading_samples : Reading
unfolding samples
reading_samples = record {
  read = samples;
  gain = λ us failed. if failed then 0 else 1;
  read-no_stats = refl;
  read-record_us = samples-record_us;
  read-merge_into = samples-merge_into;
}

-- The samples and the errors make up the count.
abbrev pub Adds : OpStats → Type 0
Adds s = (samples s + s.errors) % word ≡ s.count % word

-- Recording an operation keeps samples + errors = count, modulo 2^64.
pub record_us-Adds : (us : ℤ) (failed : Bool) (s : OpStats) → Adds s → Adds (record_us us failed s)
unfolding record_us samples
record_us-Adds us failed s h = ground (arith, total_of-add_at (pinned us) 1 s.latencies)

-- Merging two windows keeps samples + errors = count, modulo 2^64.
pub merge_into-Adds : (d s : OpStats) → Adds d → Adds s → Adds (merge_into d s)
unfolding merge_into samples
merge_into-Adds d s h k = ground (arith, total_of-merge_latencies d.latencies s.latencies)
