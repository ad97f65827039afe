-- ===== src/Statistics/Ordered.antt =====
-- The order of the durations that RecordDuration and RecordError of observability/stats.go keep.
use ddd_qce.Common.{
  ℕ, zero, suc, ◌≤◌, sym, subst, String, Bool, true, false, Option, List, [], ◌∷◌, ◌++◌, drop, All,
  All-append, arith, if◌then◌else◌, str_eq,
}
use ddd_qce.Common.Int.{ℤ}
use ddd_qce.Statistics.{
  DurationRecord, OperationRecord, StatsCollector, count_old, evict, seconds, record_of,
  record_duration, count_duration, record_error, count_error, put_record,
}
use ddd_qce.Statistics.Window.{
  Ascending, AllFresh, All-weaken, drop-count_old, evict-durations, record_of-put_record,
  record_of-put_record_self,
}

-- In order, and none later than now.
unfoldable pub UpTo : ℕ → List DurationRecord → Type 0
unfolding Ascending
UpTo now ds = Ascending ds × All (λ d. d.time ≤ now) ds

module _ (P : DurationRecord → Type 0) where
  All-drop : (n : ℕ) (ds : List DurationRecord) → All P ds → All P (drop n ds)
  All-drop zero ds h = h
  All-drop (suc n) [] h = tt
  All-drop (suc n) (d ∷ ds) h = All-drop n ds h.1

drop-UpTo : (now n : ℕ) (ds : List DurationRecord) → UpTo now ds → UpTo now (drop n ds)
unfolding UpTo Ascending
drop-UpTo now zero ds h = h
drop-UpTo now (suc n) [] h = h
drop-UpTo now (suc n) (d ∷ ds) h = drop-UpTo now n ds (h.0.1, h.1.1)

append-Ascending :
    (ds : List DurationRecord) (e : DurationRecord)
    → Ascending ds
    → All (λ d. d.time ≤ e.time) ds
    → Ascending (ds ++ e ∷ [])
unfolding Ascending
append-Ascending [] e h k = (tt, tt)
append-Ascending (d ∷ ds) e h k =
    (All-append (λ x. d.time ≤ x.time) ds (e ∷ []) h.0 (k.0, tt), append-Ascending ds e h.1 k.1)

append-UpTo :
    (now : ℕ) (ds : List DurationRecord) (e : DurationRecord)
    → UpTo now ds
    → now ≤ e.time
    → UpTo e.time (ds ++ e ∷ [])
unfolding UpTo
append-UpTo now ds e h k =
    let before : All (λ d. d.time ≤ e.time) ds = All-weaken (λ d q. omega (arith, q, k)) ds h.1 in
    (
      append-Ascending ds e h.0 before,
      All-append (λ d. d.time ≤ e.time) ds (e ∷ []) before (omega arith, tt),
    )

UpTo-le : (now now' : ℕ) (ds : List DurationRecord) → now ≤ now' → UpTo now ds → UpTo now' ds
unfolding UpTo
UpTo-le now now' ds k h = (h.0, All-weaken (λ d q. omega (arith, q, k)) ds h.1)

-- The windows of all operations.
unfoldable pub IsOrdered : StatsCollector → ℕ → Type 0
unfolding UpTo
IsOrdered s now = (name : String) → UpTo now (record_of s name).durations

put_record-IsOrdered :
    (s : StatsCollector) (now now' : ℕ) (name : String) (rec : OperationRecord)
    → IsOrdered s now
    → now ≤ now'
    → UpTo now' rec.durations
    → IsOrdered (put_record s name rec) now'
unfolding IsOrdered
put_record-IsOrdered s now now' name rec h k u j =
    subst (λ r. UpTo now' r.durations) (sym (record_of-put_record s name j rec))
      (Bool-elim_UpTo (str_eq name j))
  where
    Bool-elim_UpTo : (b : Bool) → UpTo now' (if b then rec else record_of s j).durations
    Bool-elim_UpTo true = u
    Bool-elim_UpTo false = UpTo-le now now' (record_of s j).durations k (h j)

evict-IsWindow :
    (w : ℤ) (rec : OperationRecord) (now : ℕ)
    → UpTo now rec.durations
    → UpTo now (evict w rec now).durations × AllFresh (seconds w) now (evict w rec now).durations
unfolding UpTo AllFresh
evict-IsWindow w rec now h =
    subst (λ ds. UpTo now ds × AllFresh (seconds w) now ds) (sym (evict-durations w rec now))
      (
        drop-UpTo now (count_old (seconds w) now rec.durations) rec.durations h,
        drop-count_old (seconds w) now rec.durations h.0,
      )

-- Where the calls of RecordDuration come to the lock in the order of the times that they read before
-- it, the durations of every operation stay in the order of their times, none after the last call,
-- and no duration of the operation that is before the cutoff is left.
record_duration-IsOrdered :
    (s : StatsCollector) (name : String) (d : ℤ) (now now' : ℕ)
    → IsOrdered s now
    → now ≤ now'
    → IsOrdered (record_duration s name d now') now'
      × AllFresh
          (seconds s.window_sec)
          now'
          (record_of (record_duration s name d now') name).durations
unfolding IsOrdered record_duration count_duration
record_duration-IsOrdered s name d now now' h k =
    let rec = count_duration (record_of s name) d now' in
    let e =
      evict-IsWindow s.window_sec rec now' (
        append-UpTo now (record_of s name).durations (record { dur = d; time = now' }) (h name)
          k) in
    (
      put_record-IsOrdered s now now' name (evict s.window_sec rec now') h k e.0,
      subst (λ r. AllFresh (seconds s.window_sec) now' r.durations)
          (sym (record_of-put_record_self s name (evict s.window_sec rec now'))) e.1,
    )

-- RecordError keeps the same order.
pub record_error-IsOrdered :
    (s : StatsCollector) (name : String) (err : Option String) (now now' : ℕ)
    → IsOrdered s now
    → now ≤ now'
    → IsOrdered (record_error s name err now') now'
unfolding IsOrdered record_error count_error
record_error-IsOrdered s name err now now' h k =
    let rec = count_error (record_of s name) err now' in
    let e =
      evict-IsWindow s.window_sec rec now'
        (UpTo-le now now' (record_of s name).durations k (h name)) in
    put_record-IsOrdered s now now' name (evict s.window_sec rec now') h k e.0
