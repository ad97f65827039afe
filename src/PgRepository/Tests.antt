-- ===== src/PgRepository/Tests.antt =====
-- A table in memory that keeps the laws of Snapshots, and runs of both repositories over it. The
-- serializer keeps the aggregate as it is.
use ddd_qce.PgRepository.Snapshots.{FitsInt}
use ddd_qce.Common.{◌<◌, ◌&&◌, str_eq, str_eq_refl}
use ddd_qce.Common.{
  ℕ, ◌+◌, ◌≡◌, refl, ap, ◌∙◌, String, true, Option, none, some, List, [], ◌∷◌, drop, arith, inr,
  if◌then◌else◌, Dict, lookup, insert, lookup-insert_self,
}
use ddd_qce.Common.Int.{ℤ, pos, negsuc, pos_part, eqb_ℤ, eqb_ℤ_self, eqb_ℤ_ne, add64}
use ddd_qce.Errors.{Err, ok, text, errors_is, concurrency_code}
use ddd_qce.Aggregate.{Aggregate, load_from_history, apply_history}
use ddd_qce.Repository.{SnapshotSerializer}
use ddd_qce.PgRepository.{
  SqlAnswer, rows, unique_violation, RowAnswer, row, no_rows, SnapshotTable, AggregateEventStore,
  lock_error, save, with_snapshot, load_aggregate,
}
use ddd_qce.PgRepository.Snapshots.{Stores, IsCurrent, save-second_writer}
use ddd_qce.PgRepository.Reload.{load_aggregate-snapshot}

abbrev Counter : Type 0
Counter = Aggregate ℕ ℕ

-- The rows by their id: the type name, the data and the version.
abbrev Rows : Type 0
Rows = Dict (String × Counter × ℤ)

abbrev row_at : Rows → String → Option (String × Counter × ℤ)
row_at w id = lookup id w

abbrev to_row : String → Option (String × Counter × ℤ) → RowAnswer Counter
to_row kind none = no_rows
to_row kind (some (k, b, v)) = if str_eq k kind then row b v else no_rows

abbrev insert_at :
    Option (String × Counter × ℤ) → Rows → String → String → Counter → ℤ → Rows × SqlAnswer
insert_at none w id kind b v = (insert id (kind, b, v) w, rows 1)
insert_at (some r) w id kind b v = (w, unique_violation (text "duplicate key" []))

abbrev update_at :
    Option (String × Counter × ℤ) → Rows → String → String → Counter → ℤ → ℤ → Rows × SqlAnswer
update_at none w id kind b v old = (w, rows 0)
update_at (some (k, b0, v0)) w id kind b v old =
    if str_eq k kind && eqb_ℤ old v0 then (insert id (kind, b, v) w, rows 1) else (w, rows 0)

abbrev in_memory : SnapshotTable Rows Counter
in_memory = record {
  insert_row = λ w id kind b v. insert_at (lookup id w) w id kind b v;
  update_row = λ w id kind b v old. update_at (lookup id w) w id kind b v old;
  select_row = λ w id kind. to_row kind (lookup id w);
  delete_row = λ w id kind. (w, rows 0);
}

-- Every value is taken.
abbrev Any : Counter → Type 0
Any b = Unit {0}

-- Every state is live.
abbrev Always : Rows → Type 0
Always w = Unit {0}

in_memory-Stores : Stores in_memory Always Any row_at
in_memory-Stores = record {
  insert_new = λ w id kind b v live json fits h. (
    insert id (kind, b, v) w,
    b,
    tt,
    ap (λ o. insert_at o w id kind b v) h,
    lookup-insert_self id (kind, b, v) w,
  );
  update_match = λ w id kind b0 b old v live json fits fits' h. (
    insert id (kind, b, v) w,
    b,
    tt,
    ap (λ o. update_at o w id kind b v old) h
        ∙ ap (λ c. if c && eqb_ℤ old old then (insert id (kind, b, v) w, rows 1) else (w, rows 0))
            (str_eq_refl kind)
        ∙ ap (λ c. if c then (insert id (kind, b, v) w, rows 1) else (w, rows 0)) (eqb_ℤ_self old),
    lookup-insert_self id (kind, b, v) w,
  );
  update_stale = λ w id kind b0 b stored v old live json fits fits' h ne.
      ap (λ o. update_at o w id kind b v old) h
      ∙ ap (λ c. if c && eqb_ℤ old stored then (insert id (kind, b, v) w, rows 1) else (w, rows 0))
          (str_eq_refl kind)
      ∙ ap (λ c. if c then (insert id (kind, b, v) w, rows 1) else (w, rows 0))
          (eqb_ℤ_ne old stored ne);
}

abbrev as_it_is : SnapshotSerializer Counter ℕ ℕ
as_it_is = record { serialize = λ a. ok a; deserialize = λ b. ok b }

-- A counter that is at a version, read at another.
abbrev counter : ℤ → ℤ → List ℕ → ℕ → Counter
counter version snapshot_version evts st = record {
  root = record {
    id = "c1";
    version = version;
    snapshot_version = snapshot_version;
    uncommitted_events = evts;
  };
  state = st;
}

abbrev one_row : Rows
one_row = ("c1", ("Counter", counter (pos 2) (pos 2) [] 7, pos 2)) ∷ []

fits : (n : ℕ) → n < 2147483648 → FitsInt (pos n)
fits n h = (n, refl, h)

is_current : IsCurrent in_memory "Counter" row_at one_row (counter (pos 3) (pos 2) (1 ∷ []) 8).root
unfolding IsCurrent lookup
is_current = inr (counter (pos 2) (pos 2) [] 7, fits 2 (omega arith), refl)

save-second_writer_example :
    let c = counter (pos 3) (pos 2) (1 ∷ []) 8 in
    let d = counter (pos 4) (pos 2) (5 ∷ 5 ∷ []) 17 in
    (w' : Rows) × (save in_memory "Counter" as_it_is one_row c
      ≡ (w', with_snapshot (pos 3) c, none))
    × (save in_memory "Counter" as_it_is w' d ≡ (w', d, some (lock_error "c1" (pos 2))))
    × (errors_is (lock_error "c1" (pos 2)) concurrency_code ≡ true)
save-second_writer_example =
    save-second_writer in_memory "Counter" as_it_is Always Any row_at in_memory-Stores one_row
      (counter (pos 3) (pos 2) (1 ∷ []) 8) (counter (pos 4) (pos 2) (5 ∷ 5 ∷ []) 17)
      (counter (pos 3) (pos 2) (1 ∷ []) 8) (counter (pos 4) (pos 2) (5 ∷ 5 ∷ []) 17) refl refl tt tt
      tt (fits 3 (omega arith)) (fits 4 (omega arith)) (fits 2 (omega arith)) is_current refl
      (λ q. absurd (ground (arith, ap pos_part q)))

-- The events add to the counter; the store has 3, 4 and 5, and the snapshot is after the second.
abbrev adds : ℕ → ℕ → ℕ × Option Err
adds st e = (st + e, none)

abbrev three_events : AggregateEventStore (Rows) ℕ
three_events = record {
  append = λ w id v es. (w, none);
  load = λ w id v. ok (drop (pos_part v) (3 ∷ 4 ∷ 5 ∷ []));
}

stored : in_memory.select_row one_row "c1" "Counter" ≡ row (counter (pos 2) (pos 2) [] 7) (pos 2)
unfolding lookup
stored = refl

before :
    load_from_history (λ e. "Added") adds (counter (pos 0) (negsuc 0) [] 0) (3 ∷ 4 ∷ [])
    ≡ (counter (pos 2) (negsuc 0) [] 7, none)
unfolding load_from_history apply_history add64
before = refl

whole :
    load_from_history (λ e. "Added") adds (counter (pos 0) (negsuc 0) [] 0) (3 ∷ 4 ∷ 5 ∷ [])
    ≡ (counter (pos 3) (negsuc 0) [] 12, none)
unfolding load_from_history apply_history add64
whole = refl

load_aggregate-snapshot_example :
    (agg : Counter) × (load_aggregate in_memory "Counter" as_it_is three_events
        (λ e. "Added")
        adds
        one_row
        (λ id. counter (pos 0) (negsuc 0) [] 0)
        "c1"
      ≡ ok agg)
    × (agg.state ≡ 12)
    × (agg.root.version ≡ pos 3)
load_aggregate-snapshot_example =
    load_aggregate-snapshot in_memory "Counter" as_it_is three_events (λ e. "Added") adds one_row
      (λ id. counter (pos 0) (negsuc 0) [] 0) "c1" (counter (pos 2) (pos 2) [] 7) 2
      (counter (pos 2) (pos 2) [] 7) (counter (pos 2) (negsuc 0) [] 7)
      (counter (pos 3) (negsuc 0) [] 12) (3 ∷ 4 ∷ 5 ∷ []) stored refl refl before refl refl whole
