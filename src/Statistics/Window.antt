-- ===== src/Statistics/Window.antt =====
-- evict of observability/stats.go: the window of durations of an operation.
use ddd_qce.Common.Int.{pos}
use ddd_qce.Common.{◌≢◌, str_eq_ne}
use ddd_qce.Common.{
  ℕ, ◌≤◌, ◌≡◌, refl, sym, ap, ◌∙◌, subst, String, Bool, true, false, some, List, [], ◌∷◌, ◌++◌,
  drop, All, arith, Bool-cases, inl, inr, if◌then◌else◌, ltb, str_eq, str_eq_refl, lookup,
  lookup-insert,
}
use ddd_qce.Common.Int.{ℤ}
use ddd_qce.Statistics.{
  DurationRecord, OperationRecord, StatsCollector, is_before_cutoff, count_old, evict, seconds,
  record_of, record_duration, count_duration, or_new, put_record,
}

-- The durations are in the order of their times.
unfoldable pub Ascending : List DurationRecord → Type 0
Ascending [] = Unit
Ascending (d ∷ ds) = All (λ e. d.time ≤ e.time) ds × Ascending ds

module _ {P Q : DurationRecord → Type 0} where
  pub All-weaken :
      ((d : DurationRecord) → P d → Q d) → (ds : List DurationRecord) → All P ds → All Q ds
  All-weaken w [] h = tt
  All-weaken w (d ∷ ds) h = (w d h.0, All-weaken w ds h.1)

is_before_cutoff-later :
    (window : ℤ) (now : ℕ) (d : DurationRecord)
    → is_before_cutoff window now d ≡ false
    → (x : DurationRecord) → d.time ≤ x.time
    → is_before_cutoff window now x ≡ false
unfolding is_before_cutoff
is_before_cutoff-later window now d e x h = ground (arith, e, h)

-- After the loop, nothing before the cutoff is left.
pub drop-count_old :
    (window : ℤ) (now : ℕ) (ds : List DurationRecord)
    → Ascending ds
    → All (λ d. is_before_cutoff window now d ≡ false) (drop (count_old window now ds) ds)
unfolding Ascending count_old
drop-count_old window now [] h = tt
drop-count_old window now (d ∷ ds) h = elim (Bool-cases (is_before_cutoff window now d)) [
  | inl e ↦ rw (e) (drop-count_old window now ds h.1)
  | inr e ↦ rw (e) (e, All-weaken (is_before_cutoff-later window now d e) ds h.0)
]

pub evict-durations :
    (w : ℤ) (rec : OperationRecord) (now : ℕ)
    → (evict w rec now).durations ≡ drop (count_old (seconds w) now rec.durations) rec.durations
unfolding evict
evict-durations w rec now = elim (Bool-cases (ltb 0 (count_old (seconds w) now rec.durations))) [
  | inl e ↦ ground (arith, e)
  | inr e ↦
      let none_old : count_old (seconds w) now rec.durations ≡ 0 = ground (arith, e) in
      ground (arith, e, ap (λ n. drop n rec.durations) none_old)
]

pub record_of-put_record :
    (s : StatsCollector) (name j : String) (rec : OperationRecord)
    → record_of (put_record s name rec) j ≡ (if str_eq name j then rec else record_of s j)
unfolding record_of
record_of-put_record s name j rec =
    ap (or_new j) (lookup-insert name j rec s.records) ∙ or_new-if (str_eq name j)
  where
    or_new-if :
        (b : Bool)
        → or_new j (if b then some rec else lookup j s.records)
          ≡ (if b then rec else or_new j (lookup j s.records))
    or_new-if true = refl
    or_new-if false = refl

-- Nothing in the list is before the cutoff.
unfoldable pub AllFresh : ℤ → ℕ → List DurationRecord → Type 0
AllFresh window now ds = All (λ d. is_before_cutoff window now d ≡ false) ds

pub record_of-put_record_self :
    (s : StatsCollector) (name : String) (rec : OperationRecord)
    → record_of (put_record s name rec) name ≡ rec
record_of-put_record_self s name rec =
    record_of-put_record s name name rec
    ∙ ap (λ b. if b then rec else record_of s name) (str_eq_refl name)

-- The first of a list, if any, is not before the cutoff.
unfoldable pub StartsFresh : ℤ → ℕ → List DurationRecord → Type 0
StartsFresh window now [] = Unit
StartsFresh window now (d ∷ ds) = is_before_cutoff window now d ≡ false

-- How a list of durations is cut at the cutoff: what is dropped from the front is before it, and
-- what is kept does not start before it.
abbrev pub IsCut : ℤ → ℕ → List DurationRecord → List DurationRecord → List DurationRecord → Type 0
IsCut window now ds gone kept =
    (ds ≡ gone ++ kept)
    × All (λ d. is_before_cutoff window now d ≡ true) gone
    × StartsFresh window now kept

count_old-IsCut :
    (window : ℤ) (now : ℕ) (ds : List DurationRecord)
    → (gone : List DurationRecord) × IsCut window now ds gone (drop (count_old window now ds) ds)
unfolding count_old StartsFresh
count_old-IsCut window now [] = ([], (refl, tt, tt))
count_old-IsCut window now (d ∷ ds) = elim (Bool-cases (is_before_cutoff window now d)) [
  | inl e ↦
      let (gone, (split, old, fresh)) = count_old-IsCut window now ds in
      rw (e) (d ∷ gone, (ap (◌∷◌ d) split, (e, old), fresh))
  | inr e ↦ rw (e) ([], (refl, tt, e))
]

-- A last duration that is not before the cutoff is kept.
drop-count_old_last :
    (window : ℤ) (now : ℕ) (ds : List DurationRecord) (e : DurationRecord)
    → is_before_cutoff window now e ≡ false
    → (kept : List DurationRecord) × (drop (count_old window now (ds ++ e ∷ [])) (ds ++ e ∷ [])
        ≡ kept ++ e ∷ [])
unfolding count_old
drop-count_old_last window now [] e h = ([], rw (h) refl)
drop-count_old_last window now (d ∷ ds) e h = elim (Bool-cases (is_before_cutoff window now d)) [
  | inl q ↦ rw (q) (drop-count_old_last window now ds e h)
  | inr q ↦ rw (q) (d ∷ ds, refl)
]

now-fresh :
    (window : ℤ) (n now : ℕ) (d : ℤ)
    → window ≡ pos n
    → is_before_cutoff window now (record { dur = d; time = now }) ≡ false
unfolding is_before_cutoff
now-fresh window n now d h = ground (arith, h)

record_of-other :
    (s : StatsCollector) (name j : String) (rec : OperationRecord)
    → name ≢ j
    → record_of (put_record s name rec) j ≡ record_of s j
record_of-other s name j rec h =
    record_of-put_record s name j rec
    ∙ ap (λ b. if b then rec else record_of s j) (str_eq_ne name j h)

-- RecordDuration in whatever order the calls come to the lock with the times that they read before
-- it: it adds the duration at the end of its operation's, drops from the front durations that are
-- before the cutoff of the call, up to the first that is not, and drops nothing else; the other
-- operations stay as they are. With a window that is not negative the new duration is kept. If the
-- durations and the new one are in the order of their times, none before the cutoff is left.
pub record_duration-IsCut :
    (s : StatsCollector) (name : String) (d : ℤ) (now : ℕ)
    → let s' = record_duration s name d now in
      let all = (record_of s name).durations ++ record { dur = d; time = now } ∷ [] in
      let kept = (record_of s' name).durations in
      let window = seconds s.window_sec in
      ((gone : List DurationRecord) × IsCut window now all gone kept)
      × ((j : String) → name ≢ j → record_of s' j ≡ record_of s j)
      × ((n : ℕ)
          → window ≡ pos n
          → (others : List DurationRecord) × (kept ≡ others ++ record { dur = d; time = now } ∷ []))
      × (Ascending all → AllFresh window now kept)
unfolding record_duration count_duration AllFresh
record_duration-IsCut s name d now =
    let new : DurationRecord = record { dur = d; time = now } in
    let rec = count_duration (record_of s name) d now in
    let window = seconds s.window_sec in
    let all = (record_of s name).durations ++ new ∷ [] in
    let left : (record_of (record_duration s name d now) name).durations
        ≡ drop (count_old window now all) all =
      ap (λ r. r.durations) (record_of-put_record_self s name (evict s.window_sec rec now))
      ∙ evict-durations s.window_sec rec now in
    let (gone, cut) = count_old-IsCut window now all in
    (
      (gone, subst (IsCut window now all gone) (sym left) cut),
      λ j h. record_of-other s name j (evict s.window_sec rec now) h,
      λ n h.
          let (others, e) =
            drop-count_old_last window now (record_of s name).durations new
              (now-fresh window n now d h) in
          (others, left ∙ e),
      λ h.
          subst (All (λ x. is_before_cutoff window now x ≡ false)) (sym left)
            (drop-count_old window now all h),
    )
