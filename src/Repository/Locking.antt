-- ===== src/Repository/Locking.antt =====
-- The event-sourced repository of infra/repository/memory/repository.go: what Save stores, and
-- optimistic locking between two writers.
use ddd_qce.Common.{
  ℕ, ◌≤◌, ◌<◌, ◌≡◌, ◌≢◌, refl, sym, ap, ◌∙◌, String, true, false, none, some, length, arith, ◌⊎◌,
  inl, inr, lookup, insert, lookup-insert_self, lookup-insert_ne,
}
use ddd_qce.Common.Int.{pos, pos_part, eqb_ℤ, eqb_ℤ_self, eqb_ℤ_ne, add64, sub_ℕ}
use ddd_qce.Errors.{Err, ok, errors_is, concurrency_code, optimistic_lock}
use ddd_qce.Aggregate.{Aggregate, AggregateRoot, expected_version, mark_events_as_committed}
use ddd_qce.Aggregate.Replay.{add64-sub}
use ddd_qce.Repository.{
  AggregateRecord, InMemoryEventSourcedRepository, SnapshotSerializer, deep_copy,
  event_sourced_conflict, store_events, save_events, load_aggregate,
}

module _ {E St : Type 0} where
  abbrev pub committed : Aggregate E St → Aggregate E St
  committed agg = record agg { root = mark_events_as_committed agg.root }

module _ {Bytes E St : Type 0} where
  -- Serializing an aggregate and deserializing it gives it back, but for its uncommitted events.
  abbrev pub RoundTrips : SnapshotSerializer Bytes E St → Type 0
  RoundTrips serializer =
      (agg : Aggregate E St)
      → (bytes : Bytes) × (serializer.serialize agg ≡ ok bytes)
        × (serializer.deserialize bytes ≡ ok (committed agg))

module _ {E : Type 0} where
  -- The uncommitted events led up to the version, and there are some.
  pub record HasNews (root : AggregateRoot E) : Type 0 where
    pub some_events : length root.uncommitted_events ≢ 0
    pub counted :
        (v : ℕ) × (root.version ≡ pos v)
        × (length root.uncommitted_events ≤ v)
        × (v < 9223372036854775808)

  pub expected_version-HasNews :
      (root : AggregateRoot E) → HasNews root → expected_version root ≢ root.version
  unfolding expected_version
  expected_version-HasNews root h e =
      let (v, q, le, small) = h.counted in
      absurd (
        omega (
          arith,
          h.some_events,
          ap pos_part (
              sym (
                ap (λ x. add64 x (sub_ℕ 0 (length root.uncommitted_events))) q
                ∙ add64-sub v (length root.uncommitted_events) le small)
              ∙ e
              ∙ q),
        ))

module _ {E St : Type 0} where
  -- Nothing is stored under the id, or what is stored has the version before the events.
  abbrev pub IsCurrent : InMemoryEventSourcedRepository E St → AggregateRoot E → Type 0
  IsCurrent r root =
      (lookup root.id r.store ≡ none)
      ⊎ ((rec : AggregateRecord E St) × (lookup root.id r.store ≡ some rec)
          × (rec.version ≡ expected_version root))

  no_conflict :
      (r : InMemoryEventSourcedRepository E St) (root : AggregateRoot E)
      → HasNews root
      → IsCurrent r root
      → event_sourced_conflict root (lookup root.id r.store) ≡ none
  unfolding event_sourced_conflict
  no_conflict r root h (inl e) = ground arith
  no_conflict r root h (inr (rec, e, v)) =
      let ne =
        eqb_ℤ_ne root.version rec.version (λ q. expected_version-HasNews root h (sym (q ∙ v))) in
      ground
        (arith, ap (λ x. eqb_ℤ (expected_version root) x) v ∙ eqb_ℤ_self (expected_version root))

module _ {Bytes E St : Type 0} (serializer : SnapshotSerializer Bytes E St)
    (round_trips : RoundTrips serializer) where
  pub deep_copy-committed : (agg : Aggregate E St) → deep_copy serializer agg ≡ ok (committed agg)
  unfolding deep_copy
  deep_copy-committed agg = let (bytes, s, d) = round_trips agg in ground arith

  abbrev pub saved :
      InMemoryEventSourcedRepository E St → Aggregate E St → InMemoryEventSourcedRepository E St
  saved r agg = record {
    store = insert agg.root.id (record { agg = committed agg; version = agg.root.version }) r.store;
  }

  pub save_events-eq :
      (r : InMemoryEventSourcedRepository E St) (agg : Aggregate E St)
      → HasNews agg.root
      → IsCurrent r agg.root
      → save_events serializer r agg ≡ (saved r agg, committed agg, none)
  unfolding save_events store_events
  save_events-eq r agg h c =
      let n = no_conflict r agg.root h c in
      let some_events = h.some_events in let d = deep_copy-committed agg in ground arith

  -- With a serializer that gives back all but the uncommitted events: Save of an aggregate with
  -- uncommitted events that led up to its version, on a repository that has nothing under its id or
  -- has the version from before the events, succeeds and marks the events as committed; Load then
  -- returns the aggregate as it now is, and every other id loads as before.
  pub load_aggregate-save_events :
      (r : InMemoryEventSourcedRepository E St) (agg : Aggregate E St)
      → HasNews agg.root
      → IsCurrent r agg.root
      → let (r', agg', e) = save_events serializer r agg in
        (e ≡ none)
        × (agg' ≡ committed agg)
        × (load_aggregate serializer r' agg.root.id ≡ ok agg')
        × ((id : String)
            → agg.root.id ≢ id
            → load_aggregate serializer r' id ≡ load_aggregate serializer r id)
  unfolding load_aggregate mark_events_as_committed
  load_aggregate-save_events r agg h c =
      let d : deep_copy serializer (committed agg) ≡ ok (committed agg) =
        deep_copy-committed (committed agg) in
      let l =
        lookup-insert_self agg.root.id (record { agg = committed agg; version = agg.root.version })
          r.store in
      rw (save_events-eq r agg h c) (
        refl,
        refl,
        ground arith,
        λ id ne. ground (
          arith,
          lookup-insert_ne agg.root.id id
              (record { agg = committed agg; version = agg.root.version }) r.store ne,
        ),
      )

  refused :
      (r : InMemoryEventSourcedRepository E St) (agg : Aggregate E St) (rec : AggregateRecord E St)
      → length agg.root.uncommitted_events ≢ 0
      → lookup agg.root.id r.store ≡ some rec
      → expected_version agg.root ≢ rec.version
      → save_events serializer r agg
        ≡ (r, agg, some (optimistic_lock agg.root.id (expected_version agg.root) false))
  unfolding save_events event_sourced_conflict
  refused r agg rec h l ne =
      let q = eqb_ℤ_ne (expected_version agg.root) rec.version ne in ground arith

  -- With a serializer that gives back all but the uncommitted events: of two writers that changed
  -- an aggregate from the same version, which the repository has or which is the first, the one
  -- whose Save comes second is refused with ErrConcurrency, and neither the repository nor its
  -- aggregate changes.
  pub save_events-second_writer :
      (r : InMemoryEventSourcedRepository E St) (first second : Aggregate E St)
      → HasNews first.root
      → IsCurrent r first.root
      → HasNews second.root
      → second.root.id ≡ first.root.id
      → expected_version second.root ≡ expected_version first.root
      → let r' = (save_events serializer r first).0 in
        let (r'', second', e) = save_events serializer r' second in
        (r'' ≡ r')
        × (second' ≡ second)
        × ((x : Err) × (e ≡ some x) × (errors_is x concurrency_code ≡ true))
  unfolding errors_is
  save_events-second_writer r first second h c k same v =
      let rec : AggregateRecord E St = record {
        agg = committed first;
        version = first.root.version;
      } in
      rw
        (
          save_events-eq r first h c,
          refused (saved r first) second rec k.some_events
              (ap (λ i. lookup i (saved r first).store) same
                ∙ lookup-insert_self first.root.id rec r.store)
              (λ q. expected_version-HasNews first.root h (sym v ∙ q)),
        )
        (
          refl,
          refl,
          (optimistic_lock second.root.id (expected_version second.root) false, refl, refl),
        )
