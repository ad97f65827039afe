-- ===== src/PgEventStore/Tests.antt =====
-- A table in memory that keeps the laws of Table, and runs of the store over it. The events are
-- numbers of one aggregate, kept as they are.
use ddd_qce.Errors.{Result}
use ddd_qce.Common.Int.{ltb_ℤ, eqb_ℤ_self}
use ddd_qce.Common.{false, All, filter_by, ◌||◌}
use ddd_qce.Common.{
  ℕ, ◌≡◌, refl, sym, ap, ◌∙◌, String, Bool, true, false, none, some, List, [], ◌∷◌, ◌++◌, arith,
  Dict, lookup, insert, lookup-insert_self, or_nil,
}
use ddd_qce.Common.Int.{ℤ, pos, eqb_ℤ}
use ddd_qce.Errors.{Err, ok, error, text, errors_is, concurrency_code}
use ddd_qce.PgRepository.{SqlAnswer, rows, unique_violation}
use ddd_qce.PgEventStore.{EventRow, EventTable, EventCodec, Transactions, append}
use ddd_qce.PgEventStore.Table.{
  HasVersion, here, there, is_after, IsTable, Within, at_start, inserted, IsTransactional, IsOf,
}
use ddd_qce.PgEventStore.Atomic.{append-taken}

-- A world: the rows of each aggregate, those at Begin, and whether the transaction is aborted.
pub record Db : Type 0 where
  pub rows_by_id : Dict (List (EventRow ℕ))
  pub saved : Dict (List (EventRow ℕ))
  pub aborted : Bool

abbrev rows_of : Db → String → List (EventRow ℕ)
rows_of w id = or_nil (lookup id w.rows_by_id)

abbrev IsLive : Db → Type 0
IsLive w = w.aborted ≡ false

abbrev has_version : ℤ → List (EventRow ℕ) → Bool
has_version v [] = false
has_version v (r ∷ rs) = eqb_ℤ r.version v || has_version v rs

-- A row is put at the end, which is its place where its version is above all others.
abbrev insert_if : Bool → Db → EventRow ℕ → Db × SqlAnswer
insert_if false w r = (
  record w {
    rows_by_id =
        insert r.metadata.aggregate_id (rows_of w r.metadata.aggregate_id ++ r ∷ []) w.rows_by_id;
  },
  rows 1,
)
insert_if true w r = (record w { aborted = true }, unique_violation (text "duplicate key" []))

abbrev in_memory : EventTable Db ℕ
in_memory = record {
  insert_event = λ w r. insert_if (has_version r.version (rows_of w r.metadata.aggregate_id)) w r;
  select_after = λ w id v. ok (filter_by (is_after v) (rows_of w id));
  select_all = λ w v limit. ok [];
}

below-has_version :
    (n : ℕ) (rs : List (EventRow ℕ))
    → All (λ x. ltb_ℤ x.version (pos n) ≡ true) rs
    → has_version (pos n) rs ≡ false
below-has_version n [] h = refl
below-has_version n (r ∷ rs) h =
    ap (λ b. b || has_version (pos n) rs) (not_same r.version h.0) ∙ below-has_version n rs h.1
  where
    not_same : (v : ℤ) → ltb_ℤ v (pos n) ≡ true → eqb_ℤ v (pos n) ≡ false
    not_same v q = ground (arith, q)

HasVersion-has_version :
    (v : ℤ) (rs : List (EventRow ℕ)) → HasVersion v rs → has_version v rs ≡ true
HasVersion-has_version v [] h = elim h [ ]
HasVersion-has_version v (r ∷ rs) here = ap (λ b. b || has_version v rs) (eqb_ℤ_self v)
HasVersion-has_version v (r ∷ rs) (there h) =
    let k = HasVersion-has_version v rs h in ground (arith, k)

abbrev AnyJson : ℕ → Type 0
AnyJson b = Unit {0}

abbrev Same : ℕ → ℕ → Type 0
Same a b = b ≡ a

in_memory-IsTable : IsTable in_memory IsLive AnyJson Same rows_of
in_memory-IsTable = record {
  insert_last = λ w r n live json at small below. (
    (insert_if false w r).0,
    r,
    live,
    record { event_type = refl; metadata = refl; version = refl; event_data = refl },
    ap (λ b. insert_if b w r)
        (ap (λ v. has_version v (rows_of w r.metadata.aggregate_id)) at
          ∙ below-has_version n (rows_of w r.metadata.aggregate_id) below),
    ap or_nil (
        lookup-insert_self r.metadata.aggregate_id (rows_of w r.metadata.aggregate_id ++ r ∷ [])
          w.rows_by_id),
  );
  insert_taken = λ w r live json taken. (
    (insert_if true w r).0,
    text "duplicate key" [],
    ap (λ b. insert_if b w r)
        (HasVersion-has_version r.version (rows_of w r.metadata.aggregate_id) taken),
  );
  select_log = λ w id k live. refl;
}

abbrev numbers : EventCodec ℕ ℕ
numbers = record {
  event_name = λ e. "Added";
  metadata_of =
      λ e. record { aggregate_id = "a"; occurred_at = e; correlation_id = ""; causation_id = "" };
  marshal = λ e. ok e;
  alloc = λ name. ok 0;
  unmarshal = λ b e0. ok b;
}

abbrev row_at : ℤ → EventRow ℕ
row_at v = record {
  event_type = "Added";
  event_data = 5;
  metadata = record { aggregate_id = "a"; occurred_at = 5; correlation_id = ""; causation_id = "" };
  version = v;
}

-- The versions have a gap.
abbrev two_rows : Db
two_rows = record {
  rows_by_id = ("a", row_at (pos 1) ∷ row_at (pos 4) ∷ []) ∷ [];
  saved = [];
  aborted = false;
}

two_more : IsOf in_memory numbers AnyJson Same "a" (6 ∷ 7 ∷ [])
unfolding IsOf
two_more = (refl, (6, refl, tt), (refl, (7, refl, tt), tt))

-- Begin keeps a copy of the rows, and Rollback puts it back.
abbrev transactions : Transactions Db
transactions = record {
  has_transaction = λ w. false;
  begin_tx = λ w. ok (record { rows_by_id = w.rows_by_id; saved = w.rows_by_id; aborted = false });
  rollback_tx = λ w. record w { rows_by_id = w.saved };
  commit_tx = λ w. (w, none);
}

insert_if-saved : (b : Bool) (w : Db) (r : EventRow ℕ) → (insert_if b w r).0.saved ≡ w.saved
insert_if-saved true w r = refl
insert_if-saved false w r = refl

Within-saved : (w w' : Db) → Within in_memory w w' → w'.saved ≡ w.saved
Within-saved w w' at_start = refl
Within-saved w w' (inserted r h) =
    Within-saved (in_memory.insert_event w r).0 w' h
    ∙ insert_if-saved (has_version r.version (rows_of w r.metadata.aggregate_id)) w r

db_of : Result Db → Db → Db
db_of (ok w) other = w
db_of (error e) other = other

transactions-IsTransactional : IsTransactional in_memory transactions IsLive rows_of
unfolding db_of
transactions-IsTransactional = record {
  begun_log = λ w own id h.
      let same = ap (λ r. db_of r own) h in
      (ap (λ x. x.aborted) (sym same), ap (λ x. or_nil (lookup id x.rows_by_id)) (sym same));
  undone_log = λ w own w' id h k.
      let same = ap (λ r. db_of r own) h in
      ap (λ d. or_nil (lookup id d)) (Within-saved own w' k ∙ ap (λ x. x.saved) (sym same));
}

fourth_taken : HasVersion (pos 4) (rows_of two_rows "a")
unfolding lookup
fourth_taken = there here

append-taken_example :
    let r = append in_memory numbers transactions two_rows "a" (pos 3) (6 ∷ 7 ∷ []) in
    (err : Err) × (r.1 ≡ some err)
    × (errors_is err concurrency_code ≡ true)
    × (transactions.has_transaction two_rows ≡ false
        → (k : String) → rows_of r.0 k ≡ rows_of two_rows k)
append-taken_example =
    append-taken in_memory numbers AnyJson Same rows_of in_memory-IsTable transactions
      transactions-IsTransactional two_rows
      (record { rows_by_id = two_rows.rows_by_id; saved = two_rows.rows_by_id; aborted = false })
      "a" 3 6 (7 ∷ []) refl two_more fourth_taken (omega arith) refl
