-- ===== src/Statistics/Tests.antt =====
-- Runs of the collector of statistics.
use ddd_qce.Statistics.{DurationRecord, count_duration, evict, count_old, is_before_cutoff}
use ddd_qce.Common.{ℕ, ◌≢◌, String, List, ◌++◌, insert}
use ddd_qce.Common.{◌≡◌, refl, [], ◌∷◌, lookup, some, arith}
use ddd_qce.Common.Int.{pos, negsuc}
use ddd_qce.Errors.{returns}
use ddd_qce.Statistics.{
  OperationRecord, OperationStats, StatsCollector, build_stats, record_of, durs, record_duration,
  seconds, classify_op_type, percentile,
}
use ddd_qce.Statistics.Percentiles.{InOrder, build_stats-InOrder}
use ddd_qce.Statistics.Window.{Ascending, AllFresh, record_duration-IsCut, IsCut}

abbrev orders : OperationRecord
orders = record {
  name = "Command:Place";
  op_type = "command";
  count = pos 3;
  error_count = pos 0;
  durations =
      record { dur = pos 30; time = 1 }
      ∷ record { dur = pos 10; time = 2 }
      ∷ record { dur = pos 20; time = 3 }
      ∷ [];
  last_error = "";
  last_at = some 3;
}

command_type : classify_op_type "Command:Place" ≡ "command"
unfolding classify_op_type
command_type = refl

-- The window of the default size in nanoseconds, and a negative one.
hour : seconds (pos 3600) ≡ pos 3600000000000
unfolding seconds
hour = refl

minus_second : seconds (negsuc 0) ≡ negsuc 999999999
unfolding seconds
minus_second = refl

middle : percentile 50 (durs orders.durations) ≡ some (pos 20)
unfolding percentile
middle = refl

build_stats-InOrder_example :
    (st : OperationStats) × (build_stats orders ≡ returns st) × InOrder (durs orders.durations) st
build_stats-InOrder_example = build_stats-InOrder orders (omega arith)

abbrev no_records : StatsCollector
no_records = record { records = []; window_sec = pos 60 }

-- A call that read its time before another's comes to the lock after it.
abbrev out_of_order : StatsCollector
out_of_order =
    record_duration (record_duration no_records "Query:Get" (pos 5) 100000000000) "Query:Get"
      (pos 6) 20000000000

both_kept :
    (record_of out_of_order "Query:Get").durations
    ≡ record { dur = pos 5; time = 100000000000 } ∷ record { dur = pos 6; time = 20000000000 } ∷ []
unfolding record_duration count_duration evict count_old is_before_cutoff record_of lookup seconds
    insert
both_kept = refl

record_duration-IsCut_example :
    let s' = record_duration out_of_order "Query:Get" (pos 7) 200000000000 in
    let all =
      (record_of out_of_order "Query:Get").durations
      ++ record { dur = pos 7; time = 200000000000 } ∷ [] in
    let kept = (record_of s' "Query:Get").durations in
    let window = seconds (pos 60) in
    ((gone : List DurationRecord) × IsCut window 200000000000 all gone kept)
    × ((j : String) → "Query:Get" ≢ j → record_of s' j ≡ record_of out_of_order j)
    × ((n : ℕ)
        → window ≡ pos n
        → (others : List DurationRecord) × (kept
            ≡ others ++ record { dur = pos 7; time = 200000000000 } ∷ []))
    × (Ascending all → AllFresh window 200000000000 kept)
unfolding record_duration count_duration
record_duration-IsCut_example = record_duration-IsCut out_of_order "Query:Get" (pos 7) 200000000000
