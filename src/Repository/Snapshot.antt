-- ===== src/Repository/Snapshot.antt =====
-- The snapshot repository of infra/repository/memory/repository.go: Save, FindByID and Delete.
use ddd_qce.Common.{
  ◌≡◌, ◌≢◌, refl, sym, ap, ◌∙◌, String, true, false, none, some, arith, ◌⊎◌, inl, inr, lookup,
  insert, delete, lookup-insert_self, lookup-insert_ne, lookup-delete_self,
}
use ddd_qce.Common.Int.{eqb_ℤ, eqb_ℤ_self, eqb_ℤ_ne}
use ddd_qce.Errors.{Err, ok, error, errors_is, concurrency_code, optimistic_lock}
use ddd_qce.Aggregate.{Aggregate, AggregateRoot, expected_version, mark_events_as_committed}
use ddd_qce.Repository.{
  AggregateRecord, InMemoryRepository, SnapshotSerializer, deep_copy, snapshot_conflict, save,
  find_by_id, delete_aggregate, aggregate_not_found,
}
use ddd_qce.Repository.Locking.{
  committed, RoundTrips, HasNews, expected_version-HasNews, deep_copy-committed,
}

module _ {E St : Type 0} where
  -- Nothing is stored under the id, or what is stored has the version before the events.
  abbrev pub IsCurrentSnapshot : InMemoryRepository E St → AggregateRoot E → Type 0
  IsCurrentSnapshot r root =
      (lookup root.id r.store ≡ none)
      ⊎ ((rec : AggregateRecord E St) × (lookup root.id r.store ≡ some rec)
          × (rec.version ≡ expected_version root))

  no_conflict :
      (r : InMemoryRepository E St) (root : AggregateRoot E)
      → HasNews root
      → IsCurrentSnapshot r root
      → snapshot_conflict root (lookup root.id r.store) ≡ none
  unfolding snapshot_conflict
  no_conflict r root h (inl e) = ground arith
  no_conflict r root h (inr (rec, e, v)) =
      let some_events = h.some_events in
      ground
        (arith, ap (λ x. eqb_ℤ (expected_version root) x) v ∙ eqb_ℤ_self (expected_version root))

  delete-present :
      (r : InMemoryRepository E St) (id : String) (rec : AggregateRecord E St)
      → lookup id r.store ≡ some rec
      → delete_aggregate r id ≡ (record { store = delete id r.store }, none)
  unfolding delete_aggregate
  delete-present r id rec h = ground arith

module _ {Bytes E St : Type 0} (serializer : SnapshotSerializer Bytes E St)
    (round_trips : RoundTrips serializer) where
  abbrev pub kept : InMemoryRepository E St → Aggregate E St → InMemoryRepository E St
  kept r agg = record {
    store = insert agg.root.id (record { agg = committed agg; version = agg.root.version }) r.store;
  }

  save-eq :
      (r : InMemoryRepository E St) (agg : Aggregate E St)
      → HasNews agg.root
      → IsCurrentSnapshot r agg.root
      → save serializer r agg ≡ (kept r agg, none)
  unfolding save
  save-eq r agg h c =
      let n = no_conflict r agg.root h c in
      let d = deep_copy-committed serializer round_trips agg in ground arith

  find_by_id-none :
      (r : InMemoryRepository E St) (id : String)
      → lookup id r.store ≡ none
      → find_by_id serializer r id ≡ error (aggregate_not_found id)
  unfolding find_by_id
  find_by_id-none r id h = ground arith

  -- With a serializer that gives back all but the uncommitted events: Save of an aggregate with
  -- uncommitted events that led up to its version, on a repository that has nothing under its id or
  -- has the version from before the events, succeeds; FindByID then returns the aggregate with its
  -- events committed, and every other id reads as before. A Delete after it succeeds, after which
  -- FindByID reports ErrNotFound and a second Delete does too.
  pub find_by_id-save :
      (r : InMemoryRepository E St) (agg : Aggregate E St)
      → HasNews agg.root
      → IsCurrentSnapshot r agg.root
      → let id = agg.root.id in
        let (r', e) = save serializer r agg in
        let (r'', e') = delete_aggregate r' id in
        (e ≡ none)
        × (find_by_id serializer r' id ≡ ok (committed agg))
        × ((k : String) → id ≢ k → find_by_id serializer r' k ≡ find_by_id serializer r k)
        × (e' ≡ none)
        × (find_by_id serializer r'' id ≡ error (aggregate_not_found id))
        × (delete_aggregate r'' id ≡ (r'', some (aggregate_not_found id)))
  unfolding find_by_id delete_aggregate mark_events_as_committed
  find_by_id-save r agg h c =
      let rec : AggregateRecord E St = record { agg = committed agg; version = agg.root.version } in
      let d : deep_copy serializer (committed agg) ≡ ok (committed agg) =
        deep_copy-committed serializer round_trips (committed agg) in
      let id = agg.root.id in
      let l = lookup-insert_self id rec r.store in
      let gone = lookup-delete_self id (kept r agg).store in
      rw (save-eq r agg h c, delete-present (kept r agg) id rec l)
        (
          refl,
          ground arith,
          λ k ne. ground (arith, lookup-insert_ne id k rec r.store ne),
          refl,
          ground arith,
          ground arith,
        )

  refused :
      (r : InMemoryRepository E St) (agg : Aggregate E St) (rec : AggregateRecord E St)
      → lookup agg.root.id r.store ≡ some rec
      → expected_version agg.root ≢ rec.version
      → save serializer r agg
        ≡ (r, some (optimistic_lock agg.root.id (expected_version agg.root) false))
  unfolding save snapshot_conflict
  refused r agg rec l ne =
      let q = eqb_ℤ_ne (expected_version agg.root) rec.version ne in ground arith

  -- This Save, unlike that of the event-sourced repository, leaves the events of the aggregate
  -- uncommitted: after a Save of an aggregate with uncommitted events that is current, through a
  -- serializer that gives back all but those events, a Save of the same aggregate, or of any other
  -- with its id and expected version, is refused with ErrConcurrency and changes nothing.
  pub save-again_refused :
      (r : InMemoryRepository E St) (agg other : Aggregate E St)
      → HasNews agg.root
      → IsCurrentSnapshot r agg.root
      → other.root.id ≡ agg.root.id
      → expected_version other.root ≡ expected_version agg.root
      → let r' = (save serializer r agg).0 in
        ((save serializer r' other).0 ≡ r')
        × ((x : Err) × ((save serializer r' other).1 ≡ some x)
            × (errors_is x concurrency_code ≡ true))
  unfolding errors_is
  save-again_refused r agg other h c same v =
      let rec : AggregateRecord E St = record { agg = committed agg; version = agg.root.version } in
      rw
        (
          save-eq r agg h c,
          refused (kept r agg) other rec
              (ap (λ i. lookup i (kept r agg).store) same
                ∙ lookup-insert_self agg.root.id rec r.store)
              (λ q. expected_version-HasNews agg.root h (sym v ∙ q)),
        )
        (refl, (optimistic_lock other.root.id (expected_version other.root) false, refl, refl))
