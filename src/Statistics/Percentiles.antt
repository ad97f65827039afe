-- ===== src/Statistics/Percentiles.antt =====
-- buildStats of observability/stats.go: the percentiles are elements of the window and in order.
use ddd_qce.Common.{
  ℕ, zero, suc, ◌*◌, ◌/◌, ◌≤◌, ◌<◌, ◌≡◌, refl, sym, ap, ◌∙◌, subst, none, some, List, [], ◌∷◌,
  length, get_elem?, All, arith, Bool-cases, inl, inr, if◌then◌else◌,
}
use ddd_qce.Common.Int.{ℤ, pos, ltb_ℤ, ◌≤ℤ◌}
use ddd_qce.Common.Sort.{insert_by, sort_by, All-insert_by, All-sort_by, length-sort_by}
use ddd_qce.Errors.{returns}
use ddd_qce.Statistics.{
  OperationRecord, OperationStats, build_stats, stats_of, percentile, min_from, max_from,
  total_from, durs, quot, base_stats,
}

pub Sorted : List ℤ → Type 0
Sorted [] = Unit
Sorted (x ∷ xs) = All (λ y. x ≤ℤ y) xs × Sorted xs

-- Moving the bound down.
All-lower : (x y : ℤ) (xs : List ℤ) → x ≤ℤ y → All (λ z. y ≤ℤ z) xs → All (λ z. x ≤ℤ z) xs
All-lower x y [] h k = tt
All-lower x y (z ∷ zs) h k = (omega (arith, h, k.0), All-lower x y zs h k.1)

some_inj : {x y : ℤ} → some x ≡ some y → x ≡ y
some_inj {x} h = ap (λ o. elim o [ none ↦ x | some z ↦ z ]) h

insert_by-Sorted : (x : ℤ) (xs : List ℤ) → Sorted xs → Sorted (insert_by ltb_ℤ x xs)
unfolding Sorted
insert_by-Sorted x [] h = (tt, tt)
insert_by-Sorted x (y ∷ ys) h = elim (Bool-cases (ltb_ℤ y x)) [
  | inl e ↦
      rw (e)
        (All-insert_by ltb_ℤ (λ z. y ≤ℤ z) x ys (ground (arith, e)) h.0, insert_by-Sorted x ys h.1)
  | inr e ↦ rw (e) ((ground (arith, e), All-lower x y ys (ground (arith, e)) h.0), h)
]

sort_by-Sorted : (xs : List ℤ) → Sorted (sort_by ltb_ℤ xs)
unfolding Sorted
sort_by-Sorted [] = tt
sort_by-Sorted (x ∷ xs) = insert_by-Sorted x (sort_by ltb_ℤ xs) (sort_by-Sorted xs)

module _ (P : ℤ → Type 0) where
  -- An index in range has an element, with what all elements have.
  get_elem?-All :
      (xs : List ℤ) (i : ℕ) → All P xs → i < length xs → (x : ℤ) × (get_elem? xs i ≡ some x) × P x
  get_elem?-All [] i h k = absurd (omega arith)
  get_elem?-All (x ∷ xs) zero h k = (x, refl, h.0)
  get_elem?-All (x ∷ xs) (suc i) h k = get_elem?-All xs i h.1 (omega arith)

  All-get_elem? : (xs : List ℤ) (i : ℕ) (x : ℤ) → All P xs → get_elem? xs i ≡ some x → P x
  All-get_elem? [] i x h k = absurd (ground (arith, k))
  All-get_elem? (y ∷ ys) zero x h k = subst P (some_inj k) h.0
  All-get_elem? (y ∷ ys) (suc i) x h k = All-get_elem? ys i x h.1 k

get_elem?-Sorted :
    (xs : List ℤ) (i j : ℕ) (x y : ℤ)
    → Sorted xs
    → i ≤ j
    → get_elem? xs i ≡ some x
    → get_elem? xs j ≡ some y
    → x ≤ℤ y
unfolding Sorted
get_elem?-Sorted [] i j x y s h k l = absurd (ground (arith, k))
get_elem?-Sorted (z ∷ zs) zero zero x y s h k l =
    subst (λ w. x ≤ℤ w) (sym (some_inj k) ∙ some_inj l) (omega arith)
get_elem?-Sorted (z ∷ zs) zero (suc j) x y s h k l =
    subst (λ w. w ≤ℤ y) (some_inj k) (All-get_elem? (λ w. z ≤ℤ w) zs j y s.0 l)
get_elem?-Sorted (z ∷ zs) (suc i) zero x y s h k l = absurd (omega arith)
get_elem?-Sorted (z ∷ zs) (suc i) (suc j) x y s h k l =
    get_elem?-Sorted zs i j x y s.1 (omega arith) k l

-- The loop's minimum and maximum bound what it has seen.
min_from-le : (m : ℤ) (xs : List ℤ) → min_from m xs ≤ℤ m × All (λ x. min_from m xs ≤ℤ x) xs
unfolding min_from
min_from-le m [] = (omega arith, tt)
min_from-le m (x ∷ xs) =
    let h = min_from-le (if ltb_ℤ x m then x else m) xs in
    (ground (arith, h.0), (ground (arith, h.0), h.1))

max_from-le : (m : ℤ) (xs : List ℤ) → m ≤ℤ max_from m xs × All (λ x. x ≤ℤ max_from m xs) xs
unfolding max_from
max_from-le m [] = (omega arith, tt)
max_from-le m (x ∷ xs) =
    let h = max_from-le (if ltb_ℤ m x then x else m) xs in
    (ground (arith, h.0), (ground (arith, h.0), h.1))

-- The percentile of a window that is not empty is in range, has what all durations have and is an
-- element of the sorted window.
percentile-All :
    (P : ℤ → Type 0) (p : ℕ) (ds : List ℤ)
    → All P ds
    → length ds * p / 100 < length ds
    → (x : ℤ) × (percentile p ds ≡ some x) × P x
unfolding percentile
percentile-All P p ds h k =
    get_elem?-All P (sort_by ltb_ℤ ds) (length ds * p / 100) (All-sort_by ltb_ℤ P ds h)
      (omega (arith, k, length-sort_by ltb_ℤ ds))

percentile-le :
    (p q : ℕ) (ds : List ℤ) (x y : ℤ)
    → length ds * p / 100 ≤ length ds * q / 100
    → percentile p ds ≡ some x
    → percentile q ds ≡ some y
    → x ≤ℤ y
unfolding percentile
percentile-le p q ds x y h =
    get_elem?-Sorted (sort_by ltb_ℤ ds) (length ds * p / 100) (length ds * q / 100) x y
      (sort_by-Sorted ds) h

-- The statistics are in order, and their minimum and maximum bound the durations.
pub InOrder : List ℤ → OperationStats → Type 0
InOrder ds st =
    st.min_duration ≤ℤ st.p50_duration
    × st.p50_duration ≤ℤ st.p99_duration
    × st.p99_duration ≤ℤ st.max_duration
    × All (λ d. st.min_duration ≤ℤ d) ds
    × All (λ d. d ≤ℤ st.max_duration) ds

stats_of-InOrder :
    (rec : OperationRecord) (d : ℤ) (ds : List ℤ)
    → (st : OperationStats) × (stats_of rec (d ∷ ds) ≡ returns st) × InOrder (d ∷ ds) st
unfolding InOrder stats_of
stats_of-InOrder rec d ds =
    let low = min_from-le d (d ∷ ds) in
    let high = max_from-le d (d ∷ ds) in
    let (x, ex, lx) =
      percentile-All (λ z. min_from d (d ∷ ds) ≤ℤ z) 50 (d ∷ ds) low.1 (omega arith) in
    let (y, ey, ly) =
      percentile-All (λ z. z ≤ℤ max_from d (d ∷ ds)) 99 (d ∷ ds) high.1 (omega arith) in
    (
      record (base_stats rec) {
        avg_duration = quot (total_from (pos 0) (d ∷ ds)) (length (d ∷ ds));
        max_duration = max_from d (d ∷ ds);
        min_duration = min_from d (d ∷ ds);
        p50_duration = x;
        p99_duration = y;
      },
      ground (arith, ex, ey),
      (lx, percentile-le 50 99 (d ∷ ds) x y (omega arith) ex ey, ly, low.1, high.1),
    )

-- The statistics of a record whose window is not empty are built without a panic, and
-- min <= p50 <= p99 <= max, where min and max bound every duration of the window. The average is
-- left open, since its sum may wrap around.
pub build_stats-InOrder :
    (rec : OperationRecord)
    → 0 < length (durs rec.durations)
    → (st : OperationStats) × (build_stats rec ≡ returns st) × InOrder (durs rec.durations) st
unfolding build_stats
build_stats-InOrder rec h = go (durs rec.durations) h
  where
    go :
        (ds : List ℤ)
        → 0 < length ds
        → (st : OperationStats) × (stats_of rec ds ≡ returns st) × InOrder ds st
    go [] k = absurd (omega arith)
    go (d ∷ ds) k = stats_of-InOrder rec d ds
