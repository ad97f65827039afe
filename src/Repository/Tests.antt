-- ===== src/Repository/Tests.antt =====
-- Runs of the repositories, with a serializer whose bytes are aggregates without their events.
use ddd_qce.Common.{ℕ, ◌≡◌, refl, true, some, [], ◌∷◌, arith, inl, lookup-nil}
use ddd_qce.Common.Int.{pos, negsuc}
use ddd_qce.Errors.{Err, ok, errors_is, concurrency_code}
use ddd_qce.Aggregate.{Aggregate, expected_version}
use ddd_qce.Repository.{
  InMemoryRepository, InMemoryEventSourcedRepository, SnapshotSerializer, save_events,
}
use ddd_qce.Repository.Locking.{committed, RoundTrips, HasNews, save_events-second_writer}

-- An aggregate of the empty state, with one event that led to version 1.
abbrev changed_to : ℕ → Aggregate ℕ Unit
changed_to e = record {
  root = record {
    id = "a";
    version = pos 1;
    snapshot_version = negsuc 0;
    uncommitted_events = e ∷ [];
  };
  state = tt;
}

abbrev drop_events : SnapshotSerializer (Aggregate ℕ Unit) ℕ Unit
drop_events = record { serialize = λ agg. ok (committed agg); deserialize = λ b. ok b }

drop_events-RoundTrips : RoundTrips drop_events
drop_events-RoundTrips agg = (committed agg, refl, refl)

abbrev empty_snapshots : InMemoryRepository ℕ Unit
empty_snapshots = record { store = [] }

abbrev empty_streams : InMemoryEventSourcedRepository ℕ Unit
empty_streams = record { store = [] }

changed_to-HasNews : (e : ℕ) → HasNews (changed_to e).root
changed_to-HasNews e = record {
  some_events = λ q. absurd (omega (arith, q));
  counted = (1, refl, omega arith, omega arith);
}

save_events-second_writer_example :
    let r' = (save_events drop_events empty_streams (changed_to 5)).0 in
    let (r'', second', e) = save_events drop_events r' (changed_to 6) in
    (r'' ≡ r')
    × (second' ≡ changed_to 6)
    × ((x : Err) × (e ≡ some x) × (errors_is x concurrency_code ≡ true))
unfolding expected_version
save_events-second_writer_example =
    save_events-second_writer drop_events drop_events-RoundTrips empty_streams (changed_to 5)
      (changed_to 6) (changed_to-HasNews 5) (inl (lookup-nil "a")) (changed_to-HasNews 6) refl refl
