-- ===== src/Metrics/Counts.antt =====
-- What the recorder of aspect/builtin/metrics.go holds after any sequence of calls.
use ddd_qce.Common.{
  ℕ, suc, ◌+◌, ◌<◌, ◌≡◌, refl, sym, ap, ◌∙◌, String, Bool, true, false, List, [], ◌∷◌, ◌++◌, length,
  length-append, arith, str_eq_iff, str_eq, if◌then◌else◌, lookup, lookup-insert, or_nil, Dict,
}
use ddd_qce.Common.Int.{ℤ, pos, add64, add64-small}
use ddd_qce.Metrics.{
  MetricsData, new_metrics, or_zero, count_up, record_duration, record_error, reset, get_durations,
  get_error_count, get_total_count,
}

pub data MetricsOp : Type 0 where
  duration : String → ℤ → MetricsOp
  failure : String → MetricsOp
  reset_all : MetricsOp

unfoldable pub run_metrics : MetricsData → List MetricsOp → MetricsData
unfolding record_duration record_error reset
run_metrics m [] = m
run_metrics m (duration name d ∷ ops) = run_metrics (record_duration m name d) ops
run_metrics m (failure name ∷ ops) = run_metrics (record_error m name) ops
run_metrics m (reset_all ∷ ops) = run_metrics (reset m) ops

-- The abstract view of one operation: its durations and the number of its errors.
pub record Seen : Type 0 where
  pub durations : List ℤ
  pub errors : ℕ

-- The three answers of the recorder against the view: the total is the sum of both.
unfoldable pub Agree : Seen → List ℤ → ℤ → ℤ → Type 0
Agree v durations errors total =
    (durations ≡ v.durations)
    × (errors ≡ pos v.errors)
    × (total ≡ pos (length v.durations + v.errors))

abbrev pub Shows : String → MetricsData → Seen → Type 0
Shows j m v = Agree v (get_durations m j) (get_error_count m j) (get_total_count m j)

abbrev pub with_duration : Bool → ℤ → Seen → Seen
with_duration b d v = if b then record v { durations = v.durations ++ d ∷ [] } else v

abbrev pub with_error : Bool → Seen → Seen
with_error b v = if b then record v { errors = suc v.errors } else v

unfoldable pub replay : String → Seen → List MetricsOp → Seen
replay j v [] = v
replay j v (duration name d ∷ ops) = replay j (with_duration (str_eq name j) d v) ops
replay j v (failure name ∷ ops) = replay j (with_error (str_eq name j) v) ops
replay j v (reset_all ∷ ops) = replay j (record { durations = []; errors = 0 }) ops

-- The calls are too few for a counter to wrap around.
abbrev InRange : Seen → List MetricsOp → Type 0
InRange v ops = length v.durations + v.errors + length ops < 9223372036854775808

lookup-count_up :
    (name j : String) (counts : Dict ℤ)
    → or_zero (lookup j (count_up name counts)) ≡ (
        if str_eq name j
        then add64 (or_zero (lookup j counts)) (pos 1)
        else or_zero (lookup j counts))
unfolding count_up
lookup-count_up name j counts = ground (
  arith,
  str_eq_iff name j,
  lookup-insert name j (add64 (or_zero (lookup name counts)) (pos 1)) counts,
)

get_durations-record_duration :
    (m : MetricsData) (name j : String) (d : ℤ)
    → get_durations (record_duration m name d) j
      ≡ (if str_eq name j then get_durations m j ++ d ∷ [] else get_durations m j)
unfolding get_durations record_duration
get_durations-record_duration m name j d = ground (
  arith,
  str_eq_iff name j,
  lookup-insert name j (or_nil (lookup name m.durations) ++ d ∷ []) m.durations,
)

Agree-duration :
    (b : Bool) (v : Seen) (d : ℤ) (xs : List ℤ) (e t : ℤ)
    → length v.durations + v.errors + 1 < 9223372036854775808
    → Agree v xs e t
    → Agree
        (with_duration b d v)
        (if b then xs ++ d ∷ [] else xs)
        e
        (if b then add64 t (pos 1) else t)
unfolding Agree
Agree-duration false v d xs e t h k = k
Agree-duration true v d xs e t h k = (
  ap (λ ys. ys ++ d ∷ []) k.0,
  k.1,
  ap (λ n. add64 n (pos 1)) k.2
      ∙ add64-small (length v.durations + v.errors) 1 (omega (arith, h))
      ∙ ap pos (omega (arith, length-append v.durations (d ∷ []))),
)

Agree-error :
    (b : Bool) (v : Seen) (xs : List ℤ) (e t : ℤ)
    → length v.durations + v.errors + 1 < 9223372036854775808
    → Agree v xs e t
    → Agree
        (with_error b v)
        xs
        (if b then add64 e (pos 1) else e)
        (if b then add64 t (pos 1) else t)
unfolding Agree
Agree-error false v xs e t h k = k
Agree-error true v xs e t h k = (
  k.0,
  ap (λ n. add64 n (pos 1)) k.1 ∙ add64-small v.errors 1 (omega (arith, h)) ∙ ap pos (omega arith),
  ap (λ n. add64 n (pos 1)) k.2
      ∙ add64-small (length v.durations + v.errors) 1 (omega (arith, h))
      ∙ ap pos (omega arith),
)

Agree-along :
    (v : Seen) {xs ys : List ℤ} {e f t u : ℤ}
    → xs ≡ ys
    → e ≡ f
    → t ≡ u
    → Agree v xs e t
    → Agree v ys f u
unfolding Agree
Agree-along v a b c k = (sym a ∙ k.0, sym b ∙ k.1, sym c ∙ k.2)

pub record_duration-Shows :
    (m : MetricsData) (name j : String) (d : ℤ) (v : Seen)
    → length v.durations + v.errors + 1 < 9223372036854775808
    → Shows j m v
    → Shows j (record_duration m name d) (with_duration (str_eq name j) d v)
unfolding record_duration get_error_count get_total_count
record_duration-Shows m name j d v h k =
    Agree-along (with_duration (str_eq name j) d v) (sym (get_durations-record_duration m name j d))
      refl (sym (lookup-count_up name j m.total_counts))
      (Agree-duration (str_eq name j) v d (get_durations m j) (get_error_count m j)
        (get_total_count m j) h k)

pub record_error-Shows :
    (m : MetricsData) (name j : String) (v : Seen)
    → length v.durations + v.errors + 1 < 9223372036854775808
    → Shows j m v
    → Shows j (record_error m name) (with_error (str_eq name j) v)
unfolding record_error get_error_count get_total_count get_durations
record_error-Shows m name j v h k =
    Agree-along (with_error (str_eq name j) v) refl (sym (lookup-count_up name j m.error_counts))
      (sym (lookup-count_up name j m.total_counts))
      (Agree-error (str_eq name j) v (get_durations m j) (get_error_count m j) (get_total_count m j)
        h k)

-- A call adds at most one observation.
with_duration-InRange :
    (b : Bool) (d : ℤ) (v : Seen) (op : MetricsOp) (ops : List MetricsOp)
    → InRange v (op ∷ ops)
    → InRange (with_duration b d v) ops
with_duration-InRange false d v op ops h = omega (arith, h)
with_duration-InRange true d v op ops h = omega (arith, h, length-append v.durations (d ∷ []))

with_error-InRange :
    (b : Bool) (v : Seen) (op : MetricsOp) (ops : List MetricsOp)
    → InRange v (op ∷ ops)
    → InRange (with_error b v) ops
with_error-InRange false v op ops h = omega (arith, h)
with_error-InRange true v op ops h = omega (arith, h)

reset-Shows :
    (m : MetricsData) (j : String) → Shows j (reset m) (record { durations = []; errors = 0 })
unfolding Agree reset get_durations get_error_count get_total_count lookup
reset-Shows m j = (refl, refl, refl)

run_metrics-Shows :
    (ops : List MetricsOp) (m : MetricsData) (j : String) (v : Seen)
    → InRange v ops
    → Shows j m v
    → Shows j (run_metrics m ops) (replay j v ops)
unfolding run_metrics replay
run_metrics-Shows [] m j v h k = k
run_metrics-Shows (duration name d ∷ ops) m j v h k =
    run_metrics-Shows ops (record_duration m name d) j (with_duration (str_eq name j) d v)
      (with_duration-InRange (str_eq name j) d v (duration name d) ops h)
      (record_duration-Shows m name j d v (omega (arith, h)) k)
run_metrics-Shows (failure name ∷ ops) m j v h k =
    run_metrics-Shows ops (record_error m name) j (with_error (str_eq name j) v)
      (with_error-InRange (str_eq name j) v (failure name) ops h)
      (record_error-Shows m name j v (omega (arith, h)) k)
run_metrics-Shows (reset_all ∷ ops) m j v h k =
    run_metrics-Shows ops (reset m) j (record { durations = []; errors = 0 }) (omega (arith, h))
      (reset-Shows m j)

-- After any sequence of calls on a new recorder, the three answers for an operation are those of the
-- calls with its name since the last reset: its durations in order, the number of its errors, and
-- the sum of both as the total, if the calls are fewer than 2^63.
pub run_metrics-new_metrics :
    (ops : List MetricsOp) (j : String)
    → length ops < 9223372036854775808
    → Shows j (run_metrics new_metrics ops) (replay j (record { durations = []; errors = 0 }) ops)
unfolding new_metrics reset
run_metrics-new_metrics ops j h =
    run_metrics-Shows ops new_metrics j (record { durations = []; errors = 0 }) (omega (arith, h))
      (reset-Shows new_metrics j)
