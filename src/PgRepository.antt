-- ===== src/PgRepository.antt =====
-- infra/repository/pg/repository.go: the snapshot repository and the event-sourced one over
-- PostgreSQL. The statements on ddd_aggregate_snapshots and the event store act on a world `W`, a
-- parameter, and so are the serializer and the reconstructor; `time.Now()` does not matter.
pub mod Snapshots
pub mod Reload
mod Tests
use ddd_qce.Common.{
  ℕ, zero, suc, ◌+◌, ◌%◌, ◌==◌, String, Bool, true, false, not, ◌&&◌, Option, none, some, List, [],
  ◌∷◌, length, if◌then◌else◌, ltb,
}
use ddd_qce.Common.Int.{ℤ, pos, negsuc, pos_part, neg_part, ltb_ℤ}
use ddd_qce.Errors.{Err, Result, ok, error, Arg, wrap, optimistic_lock, err_not_found}
use ddd_qce.Aggregate.{
  Aggregate, AggregateRoot, expected_version, mark_events_as_committed, set_snapshot_version,
  load_from_history,
}
use ddd_qce.Repository.{SnapshotSerializer, aggregate_not_found}

-- What a statement answers: the rows that it changed, or an error; `rows_unknown` is an error of
-- RowsAffected, and `unique_violation` one that IsUniqueViolation knows.
pub data SqlAnswer : Type 0 where
  rows : ℕ → SqlAnswer
  rows_unknown : Err → SqlAnswer
  unique_violation : Err → SqlAnswer
  failed : Err → SqlAnswer

-- What the SELECT answers.
pub data RowAnswer (Bytes : Type 0) : Type 0 where
  row : Bytes → ℤ → RowAnswer Bytes
  no_rows : RowAnswer Bytes
  row_error : Err → RowAnswer Bytes

-- The statements, with the id, the type name, the data, the version and, for UPDATE, the version
-- that the row must have.
pub record SnapshotTable (W Bytes : Type 0) : Type 0 where
  pub insert_row : W → String → String → Bytes → ℤ → W × SqlAnswer
  pub update_row : W → String → String → Bytes → ℤ → ℤ → W × SqlAnswer
  pub select_row : W → String → String → RowAnswer Bytes
  pub delete_row : W → String → String → W × SqlAnswer

-- The event store that the event-sourced repository calls.
pub record AggregateEventStore (W E : Type 0) : Type 0 where
  pub append : W → String → ℤ → List E → W × Option Err
  pub load : W → String → ℤ → Result (List E)

abbrev pub lock_error : String → ℤ → Err
lock_error id version = optimistic_lock id version false

-- The answer to the INSERT: an error of RowsAffected reads as no rows.
unfoldable pub insert_error : String → ℤ → SqlAnswer → Option Err
insert_error id version (rows zero) = some (lock_error id version)
insert_error id version (rows (suc n)) = none
insert_error id version (rows_unknown e) = some (lock_error id version)
insert_error id version (unique_violation e) = some (lock_error id version)
insert_error id version (failed e) = some e

unfoldable pub update_error : String → ℤ → SqlAnswer → Option Err
update_error id version (rows zero) = some (lock_error id version)
update_error id version (rows (suc n)) = none
update_error id version (rows_unknown e) = some (wrap "check rows affected: %w" [] e)
update_error id version (unique_violation e) = some e
update_error id version (failed e) = some e

-- The error of a statement's answer.
abbrev pub answered : {W : Type 0} → (SqlAnswer → Option Err) → W × SqlAnswer → W × Option Err
answered f (w, answer) = (w, f answer)

unfoldable pub delete_error : String → SqlAnswer → Option Err
delete_error id (rows zero) = some (aggregate_not_found id)
delete_error id (rows (suc n)) = none
delete_error id (rows_unknown e) = some (wrap "check rows affected: %w" [] e)
delete_error id (unique_violation e) = some e
delete_error id (failed e) = some e

module _ {E St : Type 0} where
  -- The aggregate of a row.
  abbrev pub with_snapshot : ℤ → Aggregate E St → Aggregate E St
  with_snapshot version agg = record agg { root = set_snapshot_version agg.root version }

module _ {W E St : Type 0} where
  -- The end of both: SetSnapshotVersion unless there was an error.
  abbrev pub settled : Aggregate E St → W × Option Err → W × Aggregate E St × Option Err
  settled agg (w, some e) = (w, agg, some e)
  settled agg (w, none) =
      (w, record agg { root = set_snapshot_version agg.root agg.root.version }, none)

module _ {W Bytes : Type 0} (table : SnapshotTable W Bytes) (type_name : String) where
  unfoldable pub delete_aggregate : W → String → W × Option Err
  unfolding delete_error
  delete_aggregate w id = answered (delete_error id) (table.delete_row w id type_name)

module _ {W Bytes E : Type 0} (table : SnapshotTable W Bytes) (type_name : String) where
  abbrev pub inserted : W → AggregateRoot E → Bytes → W × Option Err
  inserted w root data_bytes =
      answered (insert_error root.id root.snapshot_version)
        (table.insert_row w root.id type_name data_bytes root.version)

  abbrev pub updated : W → AggregateRoot E → Bytes → W × Option Err
  updated w root data_bytes =
      answered (update_error root.id root.snapshot_version)
        (table.update_row w root.id type_name data_bytes root.version root.snapshot_version)

  -- What Save and saveSnapshot do with the serialized aggregate: INSERT or UPDATE, and the error.
  unfoldable pub write_row : W → AggregateRoot E → Bytes → W × Option Err
  unfolding insert_error update_error
  write_row w root data_bytes =
      if ltb_ℤ root.snapshot_version (pos 0)
      then inserted w root data_bytes
      else updated w root data_bytes

module _ {W Bytes E St : Type 0} (table : SnapshotTable W Bytes) (type_name : String) where
  unfoldable pub write_snapshot : W → Aggregate E St → Bytes → W × Aggregate E St × Option Err
  unfolding write_row
  write_snapshot w agg data_bytes = settled agg (write_row table type_name w agg.root data_bytes)

  module _ (serializer : SnapshotSerializer Bytes E St) where
    unfoldable pub save : W → Aggregate E St → W × Aggregate E St × Option Err
    unfolding write_snapshot
    save w agg = elim (serializer.serialize agg) [
      | error e ↦ (w, agg, some (wrap "serialize aggregate: %w" [] e))
      | ok data_bytes ↦ write_snapshot w agg data_bytes
    ]

    unfoldable pub find_by_id : W → String → Result (Aggregate E St)
    find_by_id w id = elim (table.select_row w id type_name) [
      | no_rows ↦ error (aggregate_not_found id)
      | row_error e ↦ error e
      | row data_bytes version ↦ elim (serializer.deserialize data_bytes) [
        | error e ↦ error (wrap "deserialize aggregate: %w" [] e)
        | ok agg ↦ ok (with_snapshot version agg)
      ]
    ]

    unfoldable pub save_snapshot : W → Aggregate E St → W × Aggregate E St × Option Err
    unfolding write_snapshot
    save_snapshot w agg = elim (serializer.serialize agg) [
      | error e ↦ (w, agg, some e)
      | ok data_bytes ↦ write_snapshot w agg data_bytes
    ]

    module _ (events : AggregateEventStore W E) where
      -- `snapshotEvery > 0 && Version() % snapshotEvery == 0`.
      unfoldable pub is_snapshot_due : ℤ → ℤ → Bool
      is_snapshot_due version snapshot_every =
          ltb_ℤ (pos 0) snapshot_every
          && (((pos_part version + neg_part version) % pos_part snapshot_every) == 0)

      -- Save after the events are appended.
      unfoldable pub after_append : ℤ → W → Aggregate E St → W × Aggregate E St × Option Err
      unfolding is_snapshot_due save_snapshot
      after_append snapshot_every w agg =
          if is_snapshot_due agg.root.version snapshot_every
          then (let (w', agg', err) = save_snapshot w agg in
              elim err [
                | some e ↦ (w', agg', some (wrap "save snapshot: %w" [] e))
                | none ↦ (w', record agg' { root = mark_events_as_committed agg'.root }, none)
              ])
          else (w, record agg { root = mark_events_as_committed agg.root }, none)

      unfoldable pub save_events : ℤ → W → Aggregate E St → W × Aggregate E St × Option Err
      unfolding after_append
      save_events snapshot_every w agg =
          if length agg.root.uncommitted_events == 0
          then (w, agg, none)
          else (let (w', err) =
                events.append w agg.root.id (expected_version agg.root)
                  agg.root.uncommitted_events in
              elim err [
                | some e ↦ (w', agg, some (wrap "append events: %w" [] e))
                | none ↦ after_append snapshot_every w' agg
              ])

      module _ (event_type : E → String) (when : St → E → St × Option Err) where
        -- Load after the snapshot: the aggregate and the version that it stands at.
        unfoldable pub load_rest : W → String → Aggregate E St → ℤ → Result (Aggregate E St)
        load_rest w id agg snapshot_version = elim (events.load w id snapshot_version) [
          | error e ↦ error (wrap "load events for aggregate %s: %w" (Arg.str id ∷ []) e)
          | ok evts ↦
              if (length evts == 0) && ltb_ℤ snapshot_version (pos 0)
              then error (aggregate_not_found id)
              else elim (load_from_history event_type when agg evts).1 [
                | some e ↦ error (wrap "load from history for aggregate %s: %w" (Arg.str id ∷ []) e)
                | none ↦ ok (load_from_history event_type when agg evts).0
              ]
        ]

        -- Any error of the SELECT reads as no snapshot.
        unfoldable pub load_aggregate :
            W → (String → Aggregate E St) → String → Result (Aggregate E St)
        unfolding load_rest
        load_aggregate w reconstructor id = elim (table.select_row w id type_name) [
          | no_rows ↦ load_rest w id (reconstructor id) (negsuc 0)
          | row_error e ↦ load_rest w id (reconstructor id) (negsuc 0)
          | row data_bytes version ↦ elim (serializer.deserialize data_bytes) [
            | error e ↦ error (wrap "deserialize snapshot for aggregate %s: %w" (Arg.str id ∷ []) e)
            | ok agg ↦ load_rest w id (with_snapshot version agg) version
          ]
        ]
