-- ===== src/PgEventStore/Log.antt =====
-- Append and Load of cqrs/impl/pg/event_store.go against the rows of each aggregate.
use ddd_qce.Common.Int.{ltb_ℤ}
use ddd_qce.Common.{All}
use ddd_qce.Common.{ℕ, suc, ◌≡◌, true, List, []}
use ddd_qce.Common.Int.{pos}
use ddd_qce.Errors.{Result, ok, error, wrap}
use ddd_qce.PgEventStore.{EventRow, EventTable, EventCodec, read_rows}

module _ {W E Bytes : Type 0} (table : EventTable W Bytes) (codec : EventCodec E Bytes)
    (IsJson : Bytes → Type 0) (SameJson : Bytes → Bytes → Type 0) where
  abbrev AllBelow : ℕ → List (EventRow Bytes) → Type 0
  AllBelow n rs = All (λ x. ltb_ℤ x.version (pos (suc n)) ≡ true) rs

  -- JSON and the allocation give an event back, however the table wrote its JSON.
  abbrev pub Decodes : Type 0
  Decodes =
      (e : E) (b b' : Bytes)
      → codec.marshal e ≡ ok b
      → SameJson b b'
      → (e0 : E) × (codec.alloc (codec.event_name e) ≡ ok e0) × (codec.unmarshal b' e0 ≡ ok e)

  -- Load after its query.
  abbrev read_found : Result (List (EventRow Bytes)) → Result (List E)
  read_found (error e) = error (wrap "query events: %w" [] e)
  read_found (ok found) = read_rows table codec found
