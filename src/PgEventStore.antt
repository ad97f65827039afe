-- ===== src/PgEventStore.antt =====
-- cqrs/impl/pg/event_store.go: the event store over PostgreSQL. The table ddd_domain_events and the
-- transactions of database/sql act on a world `W`, a parameter; so are JSON, the event's metadata and name, and
-- the allocation of an event by its type.
pub mod Table
pub mod Log
pub mod Atomic
mod Tests
use ddd_qce.Common.{
  ℕ, suc, String, Bool, true, false, Option, none, some, List, [], ◌∷◌, ◌++◌, if◌then◌else◌,
}
use ddd_qce.Common.Int.{ℤ, pos, add64, ltb_ℤ}
use ddd_qce.Errors.{Err, Result, ok, error, Arg, text, wrap, err_concurrency}
use ddd_qce.EventStore.{BaseEvent}
use ddd_qce.PgRepository.{SqlAnswer, rows, rows_unknown, unique_violation, failed}

-- A row of ddd_domain_events.
pub record EventRow (Bytes : Type 0) : Type 0 where
  pub event_type : String
  pub event_data : Bytes
  pub metadata : BaseEvent
  pub version : ℤ

-- INSERT, the SELECT of one aggregate after a version, and the SELECT of all rows after an id, with
-- the ids and a limit if there is one.
pub record EventTable (W Bytes : Type 0) : Type 0 where
  pub insert_event : W → EventRow Bytes → W × SqlAnswer
  pub select_after : W → String → ℤ → Result (List (EventRow Bytes))
  pub select_all : W → ℤ → Option ℤ → Result (List (ℤ × EventRow Bytes))

-- BeginTx, Rollback and Commit, and whether the context has a transaction.
pub record Transactions (W : Type 0) : Type 0 where
  pub has_transaction : W → Bool
  pub begin_tx : W → Result W
  pub rollback_tx : W → W
  pub commit_tx : W → W × Option Err

-- What the store needs of the events.
pub record EventCodec (E Bytes : Type 0) : Type 0 where
  pub event_name : E → String
  pub metadata_of : E → BaseEvent
  pub marshal : E → Result Bytes
  pub alloc : String → Result E
  pub unmarshal : Bytes → E → Result E

-- The error of an INSERT; the number of rows is not asked for.
unfoldable pub insert_error : String → ℤ → SqlAnswer → Option Err
insert_error id version (rows n) = none
insert_error id version (rows_unknown e) = none
insert_error id version (unique_violation e) = some (
    wrap "concurrency conflict: version %d already exists for aggregate %s: %w"
      (Arg.num version ∷ Arg.str id ∷ []) err_concurrency)
insert_error id version (failed e) = some (wrap "insert event: %w" [] e)

module _ {W E Bytes : Type 0} (table : EventTable W Bytes) (codec : EventCodec E Bytes) where
  abbrev pub row_of : E → Bytes → ℤ → EventRow Bytes
  row_of evt data_bytes version = record {
    event_type = codec.event_name evt;
    event_data = data_bytes;
    metadata = codec.metadata_of evt;
    version = version;
  }

  -- The insertion of one event, after it is marshalled.
  unfoldable pub insert_marshalled : W → String → ℤ → E → Result Bytes → W × Option Err
  unfolding insert_error
  insert_marshalled w id version evt (error e) = (w, some (wrap "marshal event: %w" [] e))
  insert_marshalled w id version evt (ok data_bytes) =
      let (w', answer) = table.insert_event w (row_of evt data_bytes version) in
      (w', insert_error id version answer)

  -- The loop of appendEvents from index i on.
  unfoldable pub append_from : W → String → ℤ → ℕ → List E → W × Option Err
  unfolding insert_marshalled
  append_from w id expected_version i [] = (w, none)
  append_from w id expected_version i (evt ∷ evts) =
      let version = add64 (add64 expected_version (pos i)) (pos 1) in
      let (w', err) = insert_marshalled w id version evt (codec.marshal evt) in
      let rest = append_from w' id expected_version (suc i) evts in
      elim err [ some e ↦ (w', some e) | none ↦ rest ]

  unfoldable pub append_events : W → String → ℤ → List E → W × Option Err
  unfolding append_from
  append_events w id expected_version evts = append_from w id expected_version 0 evts

  -- The end of Append in its own transaction: the deferred Rollback after an error, and else Commit.
  abbrev pub finished : Transactions W → W × Option Err → W × Option Err
  finished txs (w, some e) = (txs.rollback_tx w, some e)
  finished txs (w, none) = txs.commit_tx w

  abbrev pub in_own_tx : Transactions W → W → String → ℤ → List E → Result W → W × Option Err
  in_own_tx txs w id expected_version evts (error e) = (w, some (wrap "begin tx: %w" [] e))
  in_own_tx txs w id expected_version evts (ok w') =
      finished txs (append_events w' id expected_version evts)

  unfoldable pub append : Transactions W → W → String → ℤ → List E → W × Option Err
  unfolding append_events
  append txs w id expected_version evts =
      if txs.has_transaction w
      then append_events w id expected_version evts
      else in_own_tx txs w id expected_version evts (txs.begin_tx w)

  -- An event of a row.
  unfoldable pub read_row : EventRow Bytes → Result E
  read_row r = elim (codec.alloc r.event_type) [
    | error e ↦ error (wrap "allocate event: %w" [] e)
    | ok evt ↦ elim (codec.unmarshal r.event_data evt) [
      | error e ↦ error (wrap "unmarshal event: %w" [] e)
      | ok evt' ↦ ok evt'
    ]
  ]

  -- The loop over the rows, up to the first that cannot be read.
  unfoldable pub read_rows : List (EventRow Bytes) → Result (List E)
  unfolding read_row
  read_rows [] = ok []
  read_rows (r ∷ rs) =
      let rest = read_rows rs in
      elim (read_row r) [
        | error e ↦ error e
        | ok evt ↦ elim rest [ error e ↦ error e | ok evts ↦ ok (evt ∷ evts) ]
      ]

  -- The error of the query, of a scan or of the iteration.
  unfoldable pub load : W → String → ℤ → Result (List E)
  unfolding read_rows
  load w id after_version = elim (table.select_after w id after_version) [
    | error e ↦ error (wrap "query events: %w" [] e)
    | ok found ↦ read_rows found
  ]

  unfoldable pub read_all : List (ℤ × EventRow Bytes) → Result (List (ℤ × E))
  unfolding read_row
  read_all [] = ok []
  read_all ((id, r) ∷ rs) =
      let rest = read_all rs in
      elim (read_row r) [
        | error e ↦ error e
        | ok evt ↦ elim rest [ error e ↦ error e | ok evts ↦ ok ((id, evt) ∷ evts) ]
      ]

  unfoldable pub load_all : W → ℤ → ℤ → Result (List (ℤ × E))
  unfolding read_all
  load_all w after_position limit =
      elim (table.select_all w after_position (if ltb_ℤ (pos 0) limit then some limit else none)) [
        | error e ↦ error (wrap "query all events: %w" [] e)
        | ok found ↦ read_all found
      ]
