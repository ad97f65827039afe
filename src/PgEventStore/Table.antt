-- ===== src/PgEventStore/Table.antt =====
-- What cqrs/impl/pg/event_store.go relies on of PostgreSQL: the table ddd_domain_events of
-- pg/migrate.go, and transactions.
use ddd_qce.Common.Int.{ltb_ℤ}
use ddd_qce.Common.{Bool, All, filter_by}
use ddd_qce.Common.{
  ℕ, suc, ◌+◌, ◌<◌, ◌≡◌, ap, ◌∙◌, String, true, Option, none, some, List, [], ◌∷◌, ◌++◌, arith,
}
use ddd_qce.Common.Int.{ℤ, pos, add64, add64-small}
use ddd_qce.Errors.{Err, ok}
use ddd_qce.PgRepository.{SqlAnswer, rows, unique_violation}
use ddd_qce.PgEventStore.{
  EventRow, EventTable, EventCodec, Transactions, row_of, insert_error, insert_marshalled,
  append_from,
}

-- The rows of one aggregate hold a version.
pub data HasVersion {Bytes : Type 0} : ℤ → List (EventRow Bytes) → Type 0 where
  here : {r : EventRow Bytes} {rs : List (EventRow Bytes)} → HasVersion r.version (r ∷ rs)
  there :
      {v : ℤ} {r : EventRow Bytes} {rs : List (EventRow Bytes)}
      → HasVersion v rs
      → HasVersion v (r ∷ rs)

abbrev pub is_after : {Bytes : Type 0} → ℤ → EventRow Bytes → Bool
is_after v r = ltb_ℤ v r.version

-- A row as it is stored: its data may be written in another way.
pub record IsStored {Bytes : Type 0} (SameJson : Bytes → Bytes → Type 0) (r r' : EventRow Bytes)
    : Type 0 where
  pub event_type : r'.event_type ≡ r.event_type
  pub metadata : r'.metadata ≡ r.metadata
  pub version : r'.version ≡ r.version
  pub event_data : SameJson r.event_data r'.event_data

-- The table ddd_domain_events in a world that is live, where the server takes statements and no
-- transaction of the context is aborted. `log` is the rows of an aggregate in the order of their
-- versions, which are of type INT, unique for the aggregate and may have gaps. INSERT of a version
-- above all others puts the row at the end, and INSERT of a version that is there violates the key
-- and, in a transaction, aborts it: nothing is said of the world after it. SELECT reads the rows
-- after a version.
pub record IsTable {W Bytes : Type 0} (table : EventTable W Bytes) (IsLive : W → Type 0)
    (IsJson : Bytes → Type 0) (SameJson : Bytes → Bytes → Type 0)
    (log : W → String → List (EventRow Bytes)) : Type 0 where
  pub insert_last :
      (w : W) (r : EventRow Bytes) (n : ℕ)
      → IsLive w
      → IsJson r.event_data
      → r.version ≡ pos n
      → n < 2147483648
      → All (λ x. ltb_ℤ x.version (pos n) ≡ true) (log w r.metadata.aggregate_id)
      → (w' : W) × (r' : EventRow Bytes) × IsLive w'
        × IsStored SameJson r r'
        × (table.insert_event w r ≡ (w', rows 1))
        × (log w' r.metadata.aggregate_id ≡ log w r.metadata.aggregate_id ++ r' ∷ [])
  pub insert_taken :
      (w : W) (r : EventRow Bytes)
      → IsLive w
      → IsJson r.event_data
      → HasVersion r.version (log w r.metadata.aggregate_id)
      → (w' : W) × (e : Err) × (table.insert_event w r ≡ (w', unique_violation e))
  pub select_log :
      (w : W) (id : String) (k : ℕ)
      → IsLive w
      → table.select_after w id (pos k) ≡ ok (filter_by (is_after (pos k)) (log w id))

-- The worlds that INSERTs lead to.
pub data Within {W Bytes : Type 0} (table : EventTable W Bytes) : W → W → Type 0 where
  at_start : {w : W} → Within table w w
  inserted :
      {w w' : W} (r : EventRow Bytes)
      → Within table (table.insert_event w r).0 w'
      → Within table w w'

-- Transactions: after Begin the rows are those from before, and Rollback undoes every INSERT since.
pub record IsTransactional {W Bytes : Type 0} (table : EventTable W Bytes) (txs : Transactions W)
    (IsLive : W → Type 0) (log : W → String → List (EventRow Bytes)) : Type 0 where
  pub begun_log :
      (w own : W) (id : String) → txs.begin_tx w ≡ ok own → IsLive own × (log own id ≡ log w id)
  pub undone_log :
      (w own w' : W) (id : String)
      → txs.begin_tx w ≡ ok own
      → Within table own w'
      → log (txs.rollback_tx w') id ≡ log w id

module _ {W E Bytes : Type 0} (table : EventTable W Bytes) (codec : EventCodec E Bytes)
    (IsJson : Bytes → Type 0) (SameJson : Bytes → Bytes → Type 0) where
  -- The events are of the aggregate and can be marshalled, to JSON that the table takes.
  unfoldable pub IsOf : String → List E → Type 0
  IsOf id [] = Unit
  IsOf id (e ∷ es) =
      ((codec.metadata_of e).aggregate_id ≡ id)
      × ((b : Bytes) × (codec.marshal e ≡ ok b) × IsJson b)
      × IsOf id es

  -- The rows are the events, marshalled, in order, with the versions after v.
  pub data AreRows : ℕ → List E → List (EventRow Bytes) → Type 0 where
    no_more : {v : ℕ} → AreRows v [] []
    then_row :
        {v : ℕ} {e : E} {es : List E} {b : Bytes} {r : EventRow Bytes} {rs : List (EventRow Bytes)}
        → codec.marshal e ≡ ok b
        → IsStored SameJson (row_of table codec e b (pos (suc v))) r
        → AreRows (suc v) es rs
        → AreRows v (e ∷ es) (r ∷ rs)

-- The loop of appendEvents, step by step.
module _ {W E Bytes : Type 0} (table : EventTable W Bytes) (codec : EventCodec E Bytes) where
  -- One inserted event more.
  pub append_from-step :
      (w w' : W) (id : String) (expected : ℤ) (i : ℕ) (e : E) (es : List E) (o : Option Err)
      → insert_marshalled table codec w id
          (add64 (add64 expected (pos i)) (pos 1))
          e
          (codec.marshal e)
        ≡ (w', o)
      → append_from table codec w id expected i (e ∷ es) ≡ (elim o [
        | some err ↦ (w', some err)
        | none ↦ append_from table codec w' id expected (suc i) es
      ])
  unfolding append_from
  append_from-step w w' id expected i e es o h =
      ap
        (λ p. elim p.1 as (λ x. W × Option Err) [
          | some err ↦ (p.0, some err)
          | none ↦ append_from table codec p.0 id expected (suc i) es
        ])
        h

  pub insert_marshalled-answer :
      (w : W) (id : String) (version : ℤ) (e : E) (b : Bytes) (w' : W) (answer : SqlAnswer)
      → codec.marshal e ≡ ok b
      → table.insert_event w (row_of table codec e b version) ≡ (w', answer)
      → insert_marshalled table codec w id version e (codec.marshal e)
        ≡ (w', insert_error id version answer)
  unfolding insert_marshalled
  insert_marshalled-answer w id version e b w' answer h k =
      ap (insert_marshalled table codec w id version e) h
      ∙ ap (λ p. (p.0, insert_error id version p.1)) k

-- The version of the event at index i.
pub version_at :
    (n i : ℕ)
    → n + i + 1 < 9223372036854775808
    → add64 (add64 (pos n) (pos i)) (pos 1) ≡ pos (suc (n + i))
version_at n i small =
    ap (λ v. add64 v (pos 1)) (add64-small n i (omega arith))
    ∙ add64-small (n + i) 1 (omega arith)
    ∙ ap pos (omega arith)
