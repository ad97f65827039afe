-- ===== src/PgRepository/Reload.antt =====
-- Load of the event-sourced repository of infra/repository/pg/repository.go, with and without a
-- snapshot.
use ddd_qce.Common.{
  ℕ, ◌≡◌, refl, sym, ap, ◌∙◌, String, false, Option, none, some, List, [], ◌∷◌, length, take, drop,
  take-drop, arith, inl, inr, Option-cases, ◌==◌, ◌&&◌,
}
use ddd_qce.Common.Int.{ℤ, pos, add64, ltb_ℤ}
use ddd_qce.Errors.{Err, ok, Arg, wrap}
use ddd_qce.Aggregate.{
  Aggregate, AggregateRoot, apply_history, load_from_history, set_snapshot_version,
}
use ddd_qce.Aggregate.Replay.{load_from_history-append, load_from_history-step}
use ddd_qce.Repository.{SnapshotSerializer}
use ddd_qce.PgRepository.{
  row, SnapshotTable, AggregateEventStore, with_snapshot, load_rest, load_aggregate,
}

module _ {E St : Type 0} (event_type : E → String) (when : St → E → St × Option Err) where
  abbrev at_root : St → AggregateRoot E → Aggregate E St
  at_root st r = record { root = r; state = st }

  abbrev next : AggregateRoot E → AggregateRoot E
  next r = record r { version = add64 r.version (pos 1) }

  apply_history-ok :
      (st : St) (r : AggregateRoot E) (e : E)
      → (when st e).1 ≡ none
      → apply_history event_type when (at_root st r) e ≡ (at_root (when st e).0 (next r), none)
  unfolding apply_history
  apply_history-ok st r e h = ground (arith, h)

  apply_history-error :
      (st : St) (r : AggregateRoot E) (e : E) (err : Err)
      → (when st e).1 ≡ some err
      → apply_history event_type when (at_root st r) e ≡ (
        at_root (when st e).0 r,
        some (wrap "apply event %T: %w" (Arg.str (event_type e) ∷ []) err),
      )
  unfolding apply_history
  apply_history-error st r e err h = ground (arith, h)

  -- The same state, version and error.
  Same : Aggregate E St × Option Err → Aggregate E St × Option Err → Type 0
  Same x y = (x.0.state ≡ y.0.state) × (x.0.root.version ≡ y.0.root.version) × (x.1 ≡ y.1)

  -- A replay looks at the state and the version alone.
  load_from_history-Same :
      (es : List E) (st : St) (r q : AggregateRoot E)
      → r.version ≡ q.version
      → Same
          (load_from_history event_type when (at_root st r) es)
          (load_from_history event_type when (at_root st q) es)
  unfolding Same load_from_history
  load_from_history-Same [] st r q h = (refl, h, refl)
  load_from_history-Same (e ∷ es) st r q h = elim (Option-cases (when st e).1) [
    | inl k ↦
        let ih =
          load_from_history-Same es (when st e).0 (next r) (next q) (ap (λ v. add64 v (pos 1)) h) in
        rw
          (
            load_from_history-step event_type when (at_root st r) (at_root (when st e).0 (next r))
                none e es (apply_history-ok st r e k),
            load_from_history-step event_type when (at_root st q) (at_root (when st e).0 (next q))
                none e es (apply_history-ok st q e k),
          )
          ih
    | inr (err, k) ↦
        let failure = wrap "apply event %T: %w" (Arg.str (event_type e) ∷ []) err in
        rw
          (
            load_from_history-step event_type when (at_root st r) (at_root (when st e).0 r)
                (some failure) e es (apply_history-error st r e err k),
            load_from_history-step event_type when (at_root st q) (at_root (when st e).0 q)
                (some failure) e es (apply_history-error st q e err k),
          )
          (refl, h, refl)
  ]

module _ {W Bytes E St : Type 0} (table : SnapshotTable W Bytes) (kind : String)
    (serializer : SnapshotSerializer Bytes E St) (events : AggregateEventStore W E)
    (event_type : E → String) (when : St → E → St × Option Err) where
  load_rest-replayed :
      (w : W) (id : String) (agg full : Aggregate E St) (v : ℤ) (es : List E)
      → events.load w id v ≡ ok es
      → (length es == 0) && ltb_ℤ v (pos 0) ≡ false
      → (load_from_history event_type when agg es).1 ≡ none
      → load_rest table kind serializer events event_type when w id agg v
        ≡ ok (load_from_history event_type when agg es).0
  unfolding load_rest
  load_rest-replayed w id agg full v es h k l = ground (arith, h, k, l)

  load_aggregate-row :
      (w : W) (reconstructor : String → Aggregate E St) (id : String) (b : Bytes) (v : ℤ)
      → (d : Aggregate E St) → table.select_row w id kind ≡ row b v
      → serializer.deserialize b ≡ ok d
      → load_aggregate table kind serializer events event_type when w reconstructor id
        ≡ load_rest table kind serializer events event_type when w id (with_snapshot v d) v
  unfolding load_aggregate
  load_aggregate-row w reconstructor id b v d h k = ground (arith, h, k)

  -- A snapshot saves the replay of the events before it and changes nothing else: if the snapshot at
  -- version k deserializes to the state after the first k events, the event store returns the events
  -- after a version, and the replay of all events has no error, then Load succeeds, with
  -- the state and the version of the replay of all events on the reconstructed aggregate.
  pub load_aggregate-snapshot :
      (w : W) (reconstructor : String → Aggregate E St) (id : String) (b : Bytes) (k : ℕ)
      → (d mid full : Aggregate E St) (all : List E) → table.select_row w id kind ≡ row b (pos k)
      → serializer.deserialize b ≡ ok d
      → events.load w id (pos k) ≡ ok (drop k all)
      → load_from_history event_type when (reconstructor id) (take k all) ≡ (mid, none)
      → d.state ≡ mid.state
      → mid.root.version ≡ pos k
      → load_from_history event_type when (reconstructor id) all ≡ (full, none)
      → (agg : Aggregate E St) × (load_aggregate table kind serializer events event_type when w
            reconstructor id
          ≡ ok agg)
        × (agg.state ≡ full.state)
        × (agg.root.version ≡ full.root.version)
  unfolding Same set_snapshot_version
  load_aggregate-snapshot w reconstructor id b k d mid full all found parsed rest first state
        version whole =
      let start = with_snapshot (pos k) d in
      let loaded = load_from_history event_type when start (drop k all) in
      let split : load_from_history event_type when mid (drop k all) ≡ (full, none) =
        sym (
          load_from_history-append event_type when (reconstructor id) mid (take k all) (drop k all)
            first)
        ∙ ap (load_from_history event_type when (reconstructor id)) (take-drop k all)
        ∙ whole in
      let same =
        load_from_history-Same event_type when (drop k all) mid.state start.root mid.root
          (sym version) in
      let moved : loaded
          ≡ load_from_history event_type when (at_root event_type when mid.state start.root)
              (drop k all) =
        ap
          (λ s.
            load_from_history event_type when (at_root event_type when s start.root) (drop k all))
          state in
      (
        loaded.0,
        load_aggregate-row w reconstructor id b (pos k) d found parsed
            ∙ load_rest-replayed w id start full (pos k) (drop k all) rest (ground arith)
                (ap (λ r. r.1) moved ∙ same.2 ∙ ap (λ r. r.1) split),
        ap (λ r. r.0.state) moved ∙ same.0 ∙ ap (λ r. r.0.state) split,
        ap (λ r. r.0.root.version) moved ∙ same.1 ∙ ap (λ r. r.0.root.version) split,
      )
