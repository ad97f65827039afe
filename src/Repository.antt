-- ===== src/Repository.antt =====
-- infra/repository/memory/repository.go: the snapshot repository and the event-sourced one, with
-- optimistic locking. The serializer is outside, a parameter, and so is the type of
-- its bytes.
pub mod Locking
pub mod Snapshot
mod Tests
use ddd_qce.Common.{
  ℕ, ◌==◌, String, Bool, true, false, not, ◌&&◌, Option, none, some, List, [], ◌∷◌, length,
  if◌then◌else◌, Dict, lookup, insert, delete, is_some,
}
use ddd_qce.Common.Int.{ℤ, eqb_ℤ}
use ddd_qce.Errors.{Err, Result, ok, error, Arg, wrap, optimistic_lock, err_not_found}
use ddd_qce.Aggregate.{Aggregate, AggregateRoot, expected_version, mark_events_as_committed}

pub record AggregateRecord (E St : Type 0) : Type 0 where
  pub agg : Aggregate E St
  pub version : ℤ

pub record InMemoryRepository (E St : Type 0) : Type 0 where
  pub store : Dict (AggregateRecord E St)

pub record InMemoryEventSourcedRepository (E St : Type 0) : Type 0 where
  pub store : Dict (AggregateRecord E St)

pub record SnapshotSerializer (Bytes E St : Type 0) : Type 0 where
  pub serialize : Aggregate E St → Result (Bytes)
  pub deserialize : Bytes → Result (Aggregate E St)

abbrev pub aggregate_not_found : String → Err
aggregate_not_found id = wrap "aggregate %s: %w" (Arg.str id ∷ []) err_not_found

module _ {E St : Type 0} where
  -- The check of Save against what is stored.
  unfoldable pub snapshot_conflict : AggregateRoot E → Option (AggregateRecord E St) → Option Err
  snapshot_conflict root none = none
  snapshot_conflict root (some existing) =
      if not (eqb_ℤ (expected_version root) existing.version)
      then some (optimistic_lock root.id (expected_version root) false)
      else if eqb_ℤ root.version existing.version && (length root.uncommitted_events == 0)
      then some (optimistic_lock root.id (expected_version root) true)
      else none

  unfoldable pub event_sourced_conflict :
      AggregateRoot E → Option (AggregateRecord E St) → Option Err
  event_sourced_conflict root none = none
  event_sourced_conflict root (some existing) =
      if not (eqb_ℤ (expected_version root) existing.version)
      then some (optimistic_lock root.id (expected_version root) false)
      else if eqb_ℤ root.version existing.version
      then some (optimistic_lock root.id (expected_version root) true)
      else none

  unfoldable pub delete_aggregate :
      InMemoryRepository E St → String → InMemoryRepository E St × Option Err
  delete_aggregate r id =
      if is_some (lookup id r.store)
      then (record { store = delete id r.store }, none)
      else (r, some (aggregate_not_found id))

module _ {Bytes E St : Type 0} (serializer : SnapshotSerializer Bytes E St) where
  unfoldable pub deep_copy : Aggregate E St → Result (Aggregate E St)
  deep_copy agg = elim (serializer.serialize agg) [
    | error e ↦ error (wrap "serialize aggregate: %w" [] e)
    | ok data_bytes ↦ elim (serializer.deserialize data_bytes) [
      | error e ↦ error (wrap "deserialize aggregate: %w" [] e)
      | ok copied ↦ ok copied
    ]
  ]

  unfoldable pub save :
      InMemoryRepository E St → Aggregate E St → InMemoryRepository E St × Option Err
  unfolding deep_copy snapshot_conflict
  save r agg = elim (snapshot_conflict agg.root (lookup agg.root.id r.store)) [
    | some e ↦ (r, some e)
    | none ↦ elim (deep_copy agg) [
      | error e ↦ (r, some e)
      | ok copied ↦ (
        record {
          store = insert agg.root.id (record { agg = copied; version = agg.root.version }) r.store;
        },
        none,
      )
    ]
  ]

  unfoldable pub find_by_id : InMemoryRepository E St → String → Result (Aggregate E St)
  unfolding deep_copy
  find_by_id r id = elim (lookup id r.store) [
    | none ↦ error (aggregate_not_found id)
    | some rec ↦ deep_copy rec.agg
  ]

  -- Save past its check. It returns the aggregate too, whose events it marks as committed.
  unfoldable pub store_events :
      InMemoryEventSourcedRepository E St
      → Aggregate E St
      → InMemoryEventSourcedRepository E St × Aggregate E St × Option Err
  unfolding deep_copy
  store_events r agg = elim (deep_copy agg) [
    | error e ↦ (r, agg, some e)
    | ok copied ↦ (
      record {
        store = insert agg.root.id (record { agg = copied; version = agg.root.version }) r.store;
      },
      record agg { root = mark_events_as_committed agg.root },
      none,
    )
  ]

  unfoldable pub save_events :
      InMemoryEventSourcedRepository E St
      → Aggregate E St
      → InMemoryEventSourcedRepository E St × Aggregate E St × Option Err
  unfolding event_sourced_conflict store_events
  save_events r agg =
      if length agg.root.uncommitted_events == 0
      then (r, agg, none)
      else elim (event_sourced_conflict agg.root (lookup agg.root.id r.store)) [
        | some e ↦ (r, agg, some e)
        | none ↦ store_events r agg
      ]

  unfoldable pub load_aggregate :
      InMemoryEventSourcedRepository E St → String → Result (Aggregate E St)
  unfolding deep_copy
  load_aggregate r id = elim (lookup id r.store) [
    | none ↦ error (aggregate_not_found id)
    | some rec ↦ deep_copy rec.agg
  ]
