-- ===== src/EventStore/Tests.antt =====
-- Runs of the event store on concrete events: an event is the id of its aggregate and a number.
use ddd_qce.EventStore.{append_all, copied, store_event}
use ddd_qce.EventStore.Consistency.{Stored}
use ddd_qce.EventStore.Append.{NeverFails}
use ddd_qce.Errors.{err_not_found}
use ddd_qce.Common.{if◌then◌else◌, ◌==◌}
use ddd_qce.Common.{
  ℕ, ◌≡◌, refl, String, true, false, Option, none, some, [], ◌∷◌, ◌++◌, length, drop, arith, lookup,
}
use ddd_qce.Common.Int.{pos}
use ddd_qce.Errors.{Err, ok, errors_is, concurrency_code, returns}
use ddd_qce.EventStore.{BaseEvent, EventSourceStore, stream, load, load_all, append, aggregate_of}
use ddd_qce.EventStore.Append.{Appended, append-Appended, append-second_writer, load-append}
use ddd_qce.EventStore.Global.{page, load_all-page}
use ddd_qce.EventStore.Consistency.{IsConsistent, append-IsConsistent}

abbrev Event : Type 0
Event = String × ℕ

abbrev base : Event → Option BaseEvent
base e =
    some (record { aggregate_id = e.0; occurred_at = 0; correlation_id = ""; causation_id = "" })

-- Allocations that all work.
abbrev works : ℕ → Option Err
works i = none

works-NeverFails : NeverFails works
works-NeverFails i = refl

abbrev empty_store : EventSourceStore Event
empty_store = record { events = []; global_events = []; next_position = 0; shallow_copy = false }

abbrev two_events : EventSourceStore Event
two_events = record {
  events = ("a", ("a", 1) ∷ ("a", 2) ∷ []) ∷ [];
  global_events =
      record { position = 1; event = ("a", 1) } ∷ record { position = 2; event = ("a", 2) } ∷ [];
  next_position = 2;
  shallow_copy = false;
}

append-Appended_example :
    Appended base two_events "a"
      (("a", 3) ∷ [])
      (append base works two_events "a" (pos (length (stream two_events "a"))) (("a", 3) ∷ []))
unfolding aggregate_of
append-Appended_example =
    append-Appended base works two_events "a" (("a", 3) ∷ []) works-NeverFails (refl, tt)

append-second_writer_example :
    let v = pos (length (stream two_events "a")) in
    let s' = (append base works two_events "a" v (("a", 3) ∷ [])).0 in
    ((append base works s' "a" v (("a", 4) ∷ [])).0 ≡ s')
    × ((x : Err) × ((append base works s' "a" v (("a", 4) ∷ [])).1 ≡ some x)
        × (errors_is x concurrency_code ≡ true))
unfolding aggregate_of
append-second_writer_example =
    append-second_writer base works works two_events "a" ("a", 3) [] (("a", 4) ∷ [])
      works-NeverFails (refl, tt)

two_events-stream : length (stream two_events "a") ≡ 2
unfolding stream lookup
two_events-stream = refl

load-append_example :
    let v = length (stream two_events "a") in
    let s' = (append base works two_events "a" (pos v) (("a", 3) ∷ [])).0 in
    (load works s' "a" (pos v) ≡ returns (ok (("a", 3) ∷ [])))
    × (load works s' "a" (pos 0) ≡ returns (ok (stream two_events "a" ++ ("a", 3) ∷ [])))
unfolding aggregate_of
load-append_example =
    load-append base works works two_events "a" (("a", 3) ∷ []) works-NeverFails works-NeverFails
      (refl, tt)

load_all-page_example :
    load_all works two_events (pos 1) (pos 5)
    ≡ returns (ok (page 5 (drop 1 two_events.global_events)))
load_all-page_example =
    load_all-page works two_events 1 5 (refl, (refl, tt)) works-NeverFails (omega arith)

empty_store-IsConsistent : IsConsistent base empty_store
unfolding stream lookup
empty_store-IsConsistent = record { numbered = tt; counted = refl; projects = λ id. refl }

-- The second copy of the call fails, and the first event is stored.
abbrev second_fails : ℕ → Option Err
second_fails i = if i == 1 then some err_not_found else none

one_stored :
    (append base second_fails empty_store "a" (pos 0) (("a", 1) ∷ ("b", 2) ∷ [])).0.global_events
    ≡ record { position = 1; event = ("a", 1) } ∷ []
unfolding append append_all copied store_event aggregate_of lookup stream
one_stored = refl

append-IsConsistent_example :
    let r = append base second_fails empty_store "a" (pos 0) (("a", 1) ∷ ("b", 2) ∷ []) in
    IsConsistent base r.0 × Stored empty_store (("a", 1) ∷ ("b", 2) ∷ []) r
append-IsConsistent_example =
    append-IsConsistent base second_fails empty_store "a" (pos 0) (("a", 1) ∷ ("b", 2) ∷ [])
      empty_store-IsConsistent
