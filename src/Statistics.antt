-- ===== src/Statistics.antt =====
-- observability/stats.go: the collector of durations and errors per operation, and the statistics
-- that are built from a window of durations. Times are numbers of nanoseconds and durations
-- integers. Each call is the section under its lock, and `time.Now()`, which it reads before the lock,
-- is an argument.
pub mod Percentiles
pub mod Window
pub mod Ordered
mod Tests
use Prim.Native.String.{len, slice}
use ddd_qce.Common.{
  ℕ, suc, ◌+◌, ◌-◌, ◌*◌, ◌/◌, ◌%◌, String, Bool, true, false, ◌&&◌, Option, none, some, List, [],
  ◌∷◌, ◌++◌, length, drop, get_elem?, map, ltb, leb, if◌then◌else◌, str_eq, Dict, lookup, insert,
}
use ddd_qce.Common.Int.{
  ℤ, pos, negsuc, pos_part, neg_part, ltb_ℤ, add64, sub_ℕ, int64_half, int64_mod,
}
use ddd_qce.Common.Sort.{sort_by, str_less}
use ddd_qce.Errors.{Run, returns, panics}

pub record DurationRecord : Type 0 where
  pub dur : ℤ
  pub time : ℕ

-- `lastAt` is none until it is set.
pub record OperationRecord : Type 0 where
  pub name : String
  pub op_type : String
  pub count : ℤ
  pub error_count : ℤ
  pub durations : List DurationRecord
  pub last_error : String
  pub last_at : Option ℕ

pub record OperationStats : Type 0 where
  pub name : String
  pub op_type : String
  pub count : ℤ
  pub error_count : ℤ
  pub avg_duration : ℤ
  pub max_duration : ℤ
  pub min_duration : ℤ
  pub p50_duration : ℤ
  pub p99_duration : ℤ
  pub last_error : String
  pub last_at : Option ℕ

pub record StatsCollector : Type 0 where
  pub records : Dict OperationRecord
  pub window_sec : ℤ

unfoldable pub classify_op_type : String → String
classify_op_type name =
    if leb 7 (len name) && str_eq (slice name 0 7) "Command"
    then "command"
    else if leb 5 (len name) && str_eq (slice name 0 5) "Query"
    then "query"
    else if leb 5 (len name) && str_eq (slice name 0 5) "Event"
    then "event"
    else "unknown"

-- `time.Duration(windowSec) * time.Second`, which wraps around at 64 bits.
unfoldable pub seconds : ℤ → ℤ
seconds (pos n) = sub_ℕ ((n * 1000000000 + int64_half) % int64_mod) int64_half
seconds (negsuc n) =
    sub_ℕ ((int64_mod - (suc n * 1000000000) % int64_mod + int64_half) % int64_mod) int64_half

-- `time.Before(now.Add(-window))`.
unfoldable pub is_before_cutoff : ℤ → ℕ → DurationRecord → Bool
is_before_cutoff window now d = ltb (d.time + pos_part window) (now + neg_part window)

-- The loop of evict: how many durations at the front are before the cutoff.
unfoldable pub count_old : ℤ → ℕ → List DurationRecord → ℕ
unfolding is_before_cutoff
count_old window now [] = 0
count_old window now (d ∷ ds) =
    let n = count_old window now ds in if is_before_cutoff window now d then suc n else 0

unfoldable pub evict : ℤ → OperationRecord → ℕ → OperationRecord
unfolding count_old seconds
evict window_sec rec now =
    let i = count_old (seconds window_sec) now rec.durations in
    if ltb 0 i then record rec { durations = drop i rec.durations } else rec

-- The record of a name, or a new one.
abbrev pub or_new : String → Option OperationRecord → OperationRecord
or_new name (some rec) = rec
or_new name none = record {
  name = name;
  op_type = classify_op_type name;
  count = pos 0;
  error_count = pos 0;
  durations = [];
  last_error = "";
  last_at = none;
}

unfoldable pub record_of : StatsCollector → String → OperationRecord
record_of s name = or_new name (lookup name s.records)

unfoldable pub count_duration : OperationRecord → ℤ → ℕ → OperationRecord
count_duration rec d now = record rec {
  count = add64 rec.count (pos 1);
  durations = rec.durations ++ record { dur = d; time = now } ∷ [];
  last_at = some now;
}

-- The error is given by its text; none is nil.
unfoldable pub count_error : OperationRecord → Option String → ℕ → OperationRecord
count_error rec err now = record rec {
  error_count = add64 rec.error_count (pos 1);
  last_error = elim err [ none ↦ rec.last_error | some e ↦ e ];
  last_at = some now;
}

abbrev pub put_record : StatsCollector → String → OperationRecord → StatsCollector
put_record s name rec = record s { records = insert name rec s.records }

unfoldable pub record_duration : StatsCollector → String → ℤ → ℕ → StatsCollector
unfolding count_duration
record_duration s name d now =
    put_record s name (evict s.window_sec (count_duration (record_of s name) d now) now)

unfoldable pub record_error : StatsCollector → String → Option String → ℕ → StatsCollector
unfolding count_error
record_error s name err now =
    put_record s name (evict s.window_sec (count_error (record_of s name) err now) now)

-- Go's `/` by a number above 0, which rounds towards 0.
abbrev pub quot : ℤ → ℕ → ℤ
quot (pos n) k = pos (n / k)
quot (negsuc n) k = sub_ℕ 0 (suc n / k)

abbrev pub durs : List DurationRecord → List ℤ
durs ds = map (λ d. d.dur) ds

-- The three accumulators of the loop of buildStats.
unfoldable pub min_from : ℤ → List ℤ → ℤ
min_from m [] = m
min_from m (d ∷ ds) = min_from (if ltb_ℤ d m then d else m) ds

unfoldable pub max_from : ℤ → List ℤ → ℤ
max_from m [] = m
max_from m (d ∷ ds) = max_from (if ltb_ℤ m d then d else m) ds

unfoldable pub total_from : ℤ → List ℤ → ℤ
total_from t [] = t
total_from t (d ∷ ds) = total_from (add64 t d) ds

-- `durations[len(durations)*p/100]` of the sorted durations, none out of range.
unfoldable pub percentile : ℕ → List ℤ → Option ℤ
percentile p ds = get_elem? (sort_by ltb_ℤ ds) (length ds * p / 100)

-- The statistics of a record without its window.
abbrev pub base_stats : OperationRecord → OperationStats
base_stats rec = record {
  name = rec.name;
  op_type = rec.op_type;
  count = rec.count;
  error_count = rec.error_count;
  avg_duration = pos 0;
  max_duration = pos 0;
  min_duration = pos 0;
  p50_duration = pos 0;
  p99_duration = pos 0;
  last_error = rec.last_error;
  last_at = rec.last_at;
}

-- buildStats over the durations of the record.
unfoldable pub stats_of : OperationRecord → List ℤ → Run OperationStats
unfolding min_from max_from total_from percentile
stats_of rec [] = returns (base_stats rec)
stats_of rec (d ∷ ds) = elim (percentile 50 (d ∷ ds)) [
  | none ↦ panics
  | some p50 ↦ elim (percentile 99 (d ∷ ds)) [
    | none ↦ panics
    | some p99 ↦ returns (record (base_stats rec) {
      avg_duration = quot (total_from (pos 0) (d ∷ ds)) (length (d ∷ ds));
      max_duration = max_from d (d ∷ ds);
      min_duration = min_from d (d ∷ ds);
      p50_duration = p50;
      p99_duration = p99;
    })
  ]
]

unfoldable pub build_stats : OperationRecord → Run OperationStats
unfolding stats_of
build_stats rec = stats_of rec (durs rec.durations)

-- none where no such operation is recorded.
unfoldable pub get_stats : StatsCollector → String → Run (Option OperationStats)
unfolding build_stats
get_stats s name = elim (lookup name s.records) [
  | none ↦ returns none
  | some rec ↦ elim (build_stats rec) [ panics ↦ panics | returns st ↦ returns (some st) ]
]

-- The loop of GetAllStats and GetStatsByType over the records that pass.
unfoldable pub collect_stats :
    (OperationRecord → Bool) → Dict OperationRecord → Run (List OperationStats)
unfolding build_stats
collect_stats wanted [] = returns []
collect_stats wanted ((name, rec) ∷ rest) =
    let others = collect_stats wanted rest in
    if wanted rec
    then elim (build_stats rec) [
      | panics ↦ panics
      | returns st ↦ elim others [ panics ↦ panics | returns sts ↦ returns (st ∷ sts) ]
    ]
    else others

abbrev by_name : Run (List OperationStats) → Run (List OperationStats)
by_name panics = panics
by_name (returns sts) = returns (sort_by (λ a b. str_less a.name b.name) sts)

unfoldable pub get_all_stats : StatsCollector → Run (List OperationStats)
unfolding collect_stats
get_all_stats s = by_name (collect_stats (λ rec. true) s.records)

unfoldable pub get_stats_by_type : StatsCollector → String → Run (List OperationStats)
unfolding collect_stats
get_stats_by_type s op_type = by_name (collect_stats (λ rec. str_eq rec.op_type op_type) s.records)
