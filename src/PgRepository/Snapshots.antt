-- ===== src/PgRepository/Snapshots.antt =====
-- Optimistic locking of the snapshot repository of
-- infra/repository/pg/repository.go.
use ddd_qce.Common.{◌<◌}
use ddd_qce.Common.{
  ℕ, ◌≡◌, ◌≢◌, ◌⊎◌, inl, inr, refl, sym, ap, ◌∙◌, String, true, false, Option, none, some, [],
  arith, if◌then◌else◌,
}
use ddd_qce.Common.Int.{ℤ, pos, negsuc, ltb_ℤ}
use ddd_qce.Errors.{Err, ok, error, wrap, errors_is, concurrency_code}
use ddd_qce.Aggregate.{Aggregate, AggregateRoot}
use ddd_qce.Repository.{SnapshotSerializer}
use ddd_qce.PgRepository.{
  SqlAnswer, rows, SnapshotTable, lock_error, write_row, write_snapshot, settled, answered,
  inserted, updated, save, with_snapshot, insert_error, update_error,
}

-- A value of a column of type INT that is not negative.
abbrev pub FitsInt : ℤ → Type 0
FitsInt v = (n : ℕ) × (v ≡ pos n) × (n < 2147483648)

-- PostgreSQL in a world that is live, where the server takes statements and no transaction of the
-- context is aborted, for data that are JSON and versions in the range of
-- their column. `row_at` is the row with an id, its primary key: its type name, its data, which JSONB
-- may have written in another way, and its version. INSERT of a new id stores its row. UPDATE
-- changes the row of an id and a type whose version it names, and no row if that has another.
pub record Stores {W Bytes : Type 0} (table : SnapshotTable W Bytes) (IsLive : W → Type 0)
    (IsJson : Bytes → Type 0) (row_at : W → String → Option (String × Bytes × ℤ)) : Type 0 where
  pub insert_new :
      (w : W) (id kind : String) (b : Bytes) (v : ℤ)
      → IsLive w
      → IsJson b
      → FitsInt v
      → row_at w id ≡ none
      → (w' : W) × (b' : Bytes) × IsLive w'
        × (table.insert_row w id kind b v ≡ (w', rows 1))
        × (row_at w' id ≡ some (kind, b', v))
  pub update_match :
      (w : W) (id kind : String) (b0 b : Bytes) (old v : ℤ)
      → IsLive w
      → IsJson b
      → FitsInt v
      → FitsInt old
      → row_at w id ≡ some (kind, b0, old)
      → (w' : W) × (b' : Bytes) × IsLive w'
        × (table.update_row w id kind b v old ≡ (w', rows 1))
        × (row_at w' id ≡ some (kind, b', v))
  pub update_stale :
      (w : W) (id kind : String) (b0 b : Bytes) (stored v old : ℤ)
      → IsLive w
      → IsJson b
      → FitsInt v
      → FitsInt old
      → row_at w id ≡ some (kind, b0, stored)
      → old ≢ stored
      → table.update_row w id kind b v old ≡ (w, rows 0)

module _ {W Bytes E : Type 0} (table : SnapshotTable W Bytes) (kind : String) where
  write_row-update :
      (w : W) (root : AggregateRoot E) (b : Bytes) (n : ℕ) (answer : W × SqlAnswer)
      → root.snapshot_version ≡ pos n
      → table.update_row w root.id kind b root.version root.snapshot_version ≡ answer
      → write_row table kind w root b ≡ answered (update_error root.id root.snapshot_version) answer
  unfolding write_row
  write_row-update w root b n answer h k =
      let known : ltb_ℤ root.snapshot_version (pos 0) ≡ false = ground (arith, h) in
      ap (λ c. if c then inserted table kind w root b else updated table kind w root b) known
      ∙ ap (answered (update_error root.id root.snapshot_version)) k

  write_row-insert :
      (w : W) (root : AggregateRoot E) (b : Bytes) (n : ℕ) (answer : W × SqlAnswer)
      → root.snapshot_version ≡ negsuc n
      → table.insert_row w root.id kind b root.version ≡ answer
      → write_row table kind w root b ≡ answered (insert_error root.id root.snapshot_version) answer
  unfolding write_row
  write_row-insert w root b n answer h k =
      let new : ltb_ℤ root.snapshot_version (pos 0) ≡ true = ground (arith, h) in
      ap (λ c. if c then inserted table kind w root b else updated table kind w root b) new
      ∙ ap (answered (insert_error root.id root.snapshot_version)) k

  -- The row of an aggregate as its snapshot version says: no row has its id, or there is one of its
  -- type and of that version.
  unfoldable pub IsCurrent :
      (W → String → Option (String × Bytes × ℤ)) → W → AggregateRoot E → Type 0
  IsCurrent row_at w root =
      ((n : ℕ) × (root.snapshot_version ≡ negsuc n) × (row_at w root.id ≡ none))
      ⊎ ((b : Bytes) × FitsInt root.snapshot_version
          × (row_at w root.id ≡ some (kind, b, root.snapshot_version)))

  write_row-IsCurrent :
      {IsLive : W → Type 0} {IsJson : Bytes → Type 0}
      → (row_at : W → String → Option (String × Bytes × ℤ))
      → (stores : Stores table IsLive IsJson row_at) (w : W) (root : AggregateRoot E) → (b : Bytes)
      → IsLive w
      → IsJson b
      → FitsInt root.version
      → IsCurrent row_at w root
      → (w' : W) × (b' : Bytes) × IsLive w'
        × (write_row table kind w root b ≡ (w', none))
        × (row_at w' root.id ≡ some (kind, b', root.version))
  unfolding IsCurrent insert_error update_error
  write_row-IsCurrent row_at stores w root b live json fits (inl (n, h, k)) =
      let (w', b', live', i, s) =
        stores.insert_new w root.id kind b root.version live json fits k in
      (w', b', live', write_row-insert w root b n (w', rows 1) h i, s)
  write_row-IsCurrent row_at stores w root b live json fits (inr (b0, known, k)) =
      let (w', b', live', u, s) =
        stores.update_match w root.id kind b0 b root.snapshot_version root.version live json fits
          known k in
      (w', b', live', write_row-update w root b known.0 (w', rows 1) known.1 u, s)

module _ {W Bytes E St : Type 0} (table : SnapshotTable W Bytes) (kind : String)
    (serializer : SnapshotSerializer Bytes E St) where
  save-write_row :
      (w w' : W) (agg : Aggregate E St) (b : Bytes) (err : Option Err)
      → serializer.serialize agg ≡ ok b
      → write_row table kind w agg.root b ≡ (w', err)
      → save table kind serializer w agg ≡ settled agg (w', err)
  unfolding save write_snapshot
  save-write_row w w' agg b err h k =
      ap
        (λ r. elim r as (λ x. W × Aggregate E St × Option Err) [
          | error e ↦ (w, agg, some (wrap "serialize aggregate: %w" [] e))
          | ok data_bytes ↦ settled agg (write_row table kind w agg.root data_bytes)
        ])
        h
      ∙ ap (settled agg) k

  -- Two writers that read the same snapshot: the first, whose version has changed, saves it, and the
  -- second is refused with an optimistic lock error, which is CONCURRENCY, and changes nothing, if
  -- both can be serialized, to JSON, their versions are from 0 to 2^31 - 1 and the server takes the
  -- statements. The first may also be new, if no row of any type has its id.
  pub save-second_writer :
      (IsLive : W → Type 0) (IsJson : Bytes → Type 0)
      → (row_at : W → String → Option (String × Bytes × ℤ))
      → (stores : Stores table IsLive IsJson row_at) (w : W) (first second : Aggregate E St)
      → (b1 b2 : Bytes) → serializer.serialize first ≡ ok b1
      → serializer.serialize second ≡ ok b2
      → IsLive w
      → IsJson b1
      → IsJson b2
      → FitsInt first.root.version
      → FitsInt second.root.version
      → FitsInt second.root.snapshot_version
      → IsCurrent table kind row_at w first.root
      → second.root.id ≡ first.root.id
      → first.root.version ≢ second.root.snapshot_version
      → (w' : W) × (save table kind serializer w first
          ≡ (w', with_snapshot first.root.version first, none))
        × (save table kind serializer w' second
            ≡ (w', second, some (lock_error second.root.id second.root.snapshot_version)))
        × (errors_is (lock_error second.root.id second.root.snapshot_version) concurrency_code
            ≡ true)
  unfolding update_error errors_is
  save-second_writer IsLive IsJson row_at stores w first second b1 b2 h1 h2 live j1 j2 fits1 fits2
        known c same moved =
      let (w', b', live', e, s) =
        write_row-IsCurrent table kind row_at stores w first.root b1 live j1 fits1 c in
      let stale =
        stores.update_stale w' second.root.id kind b' b2 first.root.version second.root.version
          second.root.snapshot_version live' j2 fits2 known (ap (row_at w') same ∙ s)
          (λ q. moved (sym q)) in
      (
        w',
        save-write_row w w' first b1 none h1 e,
        save-write_row w' w' second b2
            (some (lock_error second.root.id second.root.snapshot_version)) h2
            (write_row-update table kind w' second.root b2 known.0 (w', rows 0) known.1 stale),
        refl,
      )
