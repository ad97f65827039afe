-- ===== src/Metrics.antt =====
-- InMemMetricsRecorder of aspect/builtin/metrics.go: durations, errors and totals per operation.
-- The counters are Go ints.
pub mod Counts
pub mod Recording
mod Tests
use ddd_qce.Common.{
  ℕ, String, Option, none, some, List, [], ◌∷◌, ◌++◌, length, Dict, lookup, insert, or_nil,
}
use ddd_qce.Common.Int.{ℤ, pos, add64}
use ddd_qce.Statistics.{quot, total_from}

pub record MetricsData : Type 0 where
  pub durations : Dict (List ℤ)
  pub error_counts : Dict ℤ
  pub total_counts : Dict ℤ

unfoldable pub new_metrics : MetricsData
new_metrics = record { durations = []; error_counts = []; total_counts = [] }

-- A missing key of a map of ints reads as 0.
abbrev pub or_zero : Option ℤ → ℤ
or_zero none = pos 0
or_zero (some n) = n

-- `counts[name]++`.
unfoldable pub count_up : String → Dict ℤ → Dict ℤ
count_up name counts = insert name (add64 (or_zero (lookup name counts)) (pos 1)) counts

unfoldable pub record_duration : MetricsData → String → ℤ → MetricsData
unfolding count_up
record_duration m name d = record m {
  durations = insert name (or_nil (lookup name m.durations) ++ d ∷ []) m.durations;
  total_counts = count_up name m.total_counts;
}

unfoldable pub record_error : MetricsData → String → MetricsData
unfolding count_up
record_error m name = record m {
  error_counts = count_up name m.error_counts;
  total_counts = count_up name m.total_counts;
}

unfoldable pub get_durations : MetricsData → String → List ℤ
get_durations m name = or_nil (lookup name m.durations)

unfoldable pub get_error_count : MetricsData → String → ℤ
get_error_count m name = or_zero (lookup name m.error_counts)

unfoldable pub get_total_count : MetricsData → String → ℤ
get_total_count m name = or_zero (lookup name m.total_counts)

-- The mean of the durations, 0 without any.
unfoldable pub average_of : List ℤ → ℤ
unfolding total_from
average_of [] = pos 0
average_of (d ∷ ds) = quot (total_from (pos 0) (d ∷ ds)) (length (d ∷ ds))

unfoldable pub get_average_duration : MetricsData → String → ℤ
unfolding average_of get_durations
get_average_duration m name = average_of (get_durations m name)

unfoldable pub reset : MetricsData → MetricsData
reset m = record { durations = []; error_counts = []; total_counts = [] }
