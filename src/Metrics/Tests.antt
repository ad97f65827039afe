-- ===== src/Metrics/Tests.antt =====
-- A run of the recorder of metrics.
use ddd_qce.Errors.{Err, err_not_found}
use ddd_qce.Aspect.{run_command_aspects}
use ddd_qce.Metrics.Recording.{
  metrics_command, in_memory_recorder, seen_after, metrics_command-Shows,
}
use ddd_qce.Metrics.{get_durations, get_error_count, get_total_count}
use ddd_qce.Metrics.Counts.{Agree}
use ddd_qce.Common.{◌-◌, Option, none, some, ℕ, lookup}
use ddd_qce.Common.{◌≡◌, refl, List, [], ◌∷◌, arith}
use ddd_qce.Common.Int.{pos}
use ddd_qce.Metrics.{new_metrics, MetricsData}
use ddd_qce.Metrics.Counts.{
  MetricsOp, duration, failure, reset_all, run_metrics, replay, Shows, run_metrics-new_metrics,
}

abbrev some_ops : List MetricsOp
some_ops =
    failure "Pay"
    ∷ reset_all
    ∷ duration "Pay" (pos 3)
    ∷ failure "Pay"
    ∷ duration "Ship" (pos 9)
    ∷ duration "Pay" (pos 4)
    ∷ []

replay_pay :
    replay "Pay" (record { durations = []; errors = 0 }) some_ops
    ≡ record { durations = pos 3 ∷ pos 4 ∷ []; errors = 1 }
unfolding replay
replay_pay = refl

run_metrics-new_metrics_example :
    Shows "Pay"
      (run_metrics new_metrics some_ops)
      (replay "Pay" (record { durations = []; errors = 0 }) some_ops)
run_metrics-new_metrics_example = run_metrics-new_metrics some_ops "Pay" (omega arith)

abbrev no_metrics : MetricsData × ℕ
no_metrics = (new_metrics, 0)

abbrev fails : MetricsData × ℕ → ℕ → (MetricsData × ℕ) × Option ℕ × Option Err
fails s ctx = (s, none, some err_not_found)

nothing_seen :
    Shows "Command/Pay"
      (run_command_aspects {Msg = ℕ} (λ s. 7) no_metrics 0 0 fails []).0.0
      (record { durations = []; errors = 0 })
unfolding run_command_aspects new_metrics Agree get_durations get_error_count get_total_count lookup
nothing_seen = (refl, refl, refl)

metrics_command-Shows_example :
    let (s', result, err) = run_command_aspects {Msg = ℕ} (λ s. 7) no_metrics 0 0 fails [] in
    (m : MetricsData) × (run_command_aspects {Msg = ℕ}
        (λ s. 7)
        no_metrics
        0
        0
        fails
        (metrics_command in_memory_recorder (λ c. "Command/Pay") ∷ [])
      ≡ ((m, s'.1), result, err))
    × Shows "Command/Pay" m (seen_after (record { durations = []; errors = 0 }) err (pos (7 - 7)))
metrics_command-Shows_example =
    metrics_command-Shows {Msg = ℕ} (λ c. "Command/Pay") (λ s. 7) fails [] no_metrics 0 0
      (record { durations = []; errors = 0 }) (omega arith) nothing_seen
