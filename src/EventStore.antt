-- ===== src/EventStore.antt =====
-- cqrs/impl/memory/event_store.go over the event metadata of cqrs/event/event.go: the in-memory
-- event store with optimistic concurrency and a global stream.
-- `Metadata()` of an event and the allocation of a copy (a `sync.Pool` or the factory) are outside:
-- the first is a parameter, and so is, for each call, how its allocations end, by their number. An int is an
-- integer; `add64` is its sum of 64 bits.
pub mod Append
pub mod Global
pub mod Consistency
mod Tests
use ddd_qce.Common.{
  ℕ, suc, ◌+◌, ◌-◌, String, Bool, true, false, ◌||◌, Option, none, some, List, [], ◌∷◌, ◌++◌,
  length, drop, take, if◌then◌else◌, Dict, lookup, insert, or_nil, not, is_some, map,
}
use ddd_qce.Common.Int.{ℤ, pos, negsuc, pos_part, ltb_ℤ, eqb_ℤ, add64}
use ddd_qce.Errors.{Err, Result, ok, error, wrap, Arg, err_concurrency, Run, returns, panics}

pub record BaseEvent : Type 0 where
  pub aggregate_id : String
  pub occurred_at : ℕ
  pub correlation_id : String
  pub causation_id : String

-- The zero BaseEvent where the value has no metadata.
unfoldable pub metadata_of : Option BaseEvent → BaseEvent
metadata_of (some b) = b
metadata_of none = record {
  aggregate_id = "";
  occurred_at = 0;
  correlation_id = "";
  causation_id = "";
}

pub record GlobalEntry (T : Type 0) : Type 0 where
  pub position : ℕ
  pub event : T

pub record EventSourceStore (T : Type 0) : Type 0 where
  pub events : Dict (List T)
  pub global_events : List (GlobalEntry T)
  pub next_position : ℕ
  pub shallow_copy : Bool

-- Where a page of the global stream ends.
unfoldable pub end_index : ℕ → ℤ → ℕ → ℤ
end_index start limit count =
    if ltb_ℤ (pos 0) limit
    then if ltb_ℤ (add64 (pos start) limit) (pos count) then add64 (pos start) limit else pos count
    else pos count

module _ {T : Type 0} where
  unfoldable pub stream : EventSourceStore T → String → List T
  stream s id = or_nil (lookup id s.events)

  -- The copy of an event, by the error of its allocation, if any.
  unfoldable pub copy_event : Option Err → T → Result T
  copy_event alloc_error src = elim alloc_error [ none ↦ ok src | some e ↦ error e ]

  -- The event as it is stored or handed out.
  unfoldable pub copied : EventSourceStore T → Option Err → T → Result T
  unfolding copy_event
  copied s alloc_error evt = if s.shallow_copy then ok evt else copy_event alloc_error evt

  -- One event goes to the end of its own aggregate's stream and of the global stream.
  unfoldable pub store_event : EventSourceStore T → String → T → EventSourceStore T
  unfolding stream
  store_event s id evt = record s {
    events = insert id (stream s id ++ evt ∷ []) s.events;
    next_position = s.next_position + 1;
    global_events = s.global_events ++ record { position = s.next_position + 1; event = evt } ∷ [];
  }

  -- The index of the first entry past a position, or the length.
  unfoldable pub start_index : List (GlobalEntry T) → ℤ → ℕ
  start_index [] after_position = 0
  start_index (e ∷ es) after_position =
      let later = start_index es after_position in
      if ltb_ℤ after_position (pos e.position) then 0 else suc later

-- Load and LoadAll; `allocs` says how the allocations of the call end.
module _ {T : Type 0} (allocs : ℕ → Option Err) where
  unfoldable pub load_copies : EventSourceStore T → ℕ → List T → Result (List T)
  load_copies s i [] = ok []
  load_copies s i (e ∷ es) =
      let rest = load_copies s (suc i) es in
      elim (copied s (allocs i) e) [
        | error x ↦ error (wrap "copy event at index %d: %w" (Arg.num (pos i) ∷ []) x)
        | ok c ↦ elim rest [ error x ↦ error x | ok cs ↦ ok (c ∷ cs) ]
      ]

  -- `events[afterVersion:]` panics on a negative index.
  unfoldable pub load_from : EventSourceStore T → List T → ℤ → Run (Result (List T))
  load_from s events after_version =
      if not (ltb_ℤ after_version (pos (length events)))
      then returns (ok [])
      else if ltb_ℤ after_version (pos 0)
      then panics
      else returns (load_copies s 0 (drop (pos_part after_version) events))

  unfoldable pub load : EventSourceStore T → String → ℤ → Run (Result (List T))
  unfolding load_from
  load s aggregate_id after_version = elim (lookup aggregate_id s.events) [
    | none ↦ returns (ok [])
    | some events ↦ load_from s events after_version
  ]

  unfoldable pub global_copies :
      EventSourceStore T → ℕ → List (GlobalEntry T) → Result (List (GlobalEntry T))
  global_copies s i [] = ok []
  global_copies s i (e ∷ es) =
      let rest = global_copies s (suc i) es in
      elim (copied s (allocs i) e.event) [
        | error x ↦ error (wrap "copy event at position %d: %w" (Arg.num (pos e.position) ∷ []) x)
        | ok c ↦ elim rest [ error x ↦ error x | ok cs ↦ ok (record e { event = c } ∷ cs) ]
      ]

  -- `make([]GlobalEvent, endIdx-startIdx)` panics if the end lies before the start.
  unfoldable pub load_range : EventSourceStore T → ℕ → ℤ → Run (Result (List (GlobalEntry T)))
  load_range s start end =
      if ltb_ℤ end (pos start)
      then panics
      else returns (global_copies s 0 (take (pos_part end - start) (drop start s.global_events)))

  -- LoadAll from its start index on.
  unfoldable pub load_at : EventSourceStore T → ℕ → ℤ → Run (Result (List (GlobalEntry T)))
  load_at s start limit =
      let count = length s.global_events in
      if not (ltb_ℤ (pos start) (pos count))
      then returns (ok [])
      else load_range s start (end_index start limit count)

  unfoldable pub load_all : EventSourceStore T → ℤ → ℤ → Run (Result (List (GlobalEntry T)))
  load_all s after_position limit = load_at s (start_index s.global_events after_position) limit

abbrev pub conflict_error : String → ℤ → ℕ → Err
conflict_error aggregate_id expected_version current =
    wrap "concurrency conflict: expected version %d but got %d for aggregate %s: %w"
      (Arg.num expected_version ∷ Arg.num (pos current) ∷ Arg.str aggregate_id ∷ []) err_concurrency

module _ {T : Type 0} (metadata : T → Option BaseEvent) where
  unfoldable pub aggregate_of : T → String
  unfolding metadata_of
  aggregate_of evt = (metadata_of (metadata evt)).aggregate_id

module _ {T : Type 0} (metadata : T → Option BaseEvent) (allocs : ℕ → Option Err) where
  -- The loop of Append: a failing copy ends it with the events before it already stored.
  unfoldable pub append_all : EventSourceStore T → ℕ → List T → EventSourceStore T × Option Err
  append_all s i [] = (s, none)
  append_all s i (evt ∷ evts) = elim (copied s (allocs i) evt) [
    | error e ↦ (s, some (wrap "copy event: %w" [] e))
    | ok evt' ↦ append_all (store_event s (aggregate_of metadata evt) evt') (suc i) evts
  ]

  unfoldable pub append : EventSourceStore T → String → ℤ → List T → EventSourceStore T × Option Err
  append s aggregate_id expected_version evts =
      let current = length (stream s aggregate_id) in
      if not (eqb_ℤ (pos current) expected_version)
      then (s, some (conflict_error aggregate_id expected_version current))
      else append_all s 0 evts
