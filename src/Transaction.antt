-- ===== src/Transaction.antt =====
-- pg/transaction.go: PgTransactionManager, with nested transactions as savepoints.
-- `database/sql` is outside: its calls are the fields of a Driver over its state `D` and the
-- handles `Tx`. A `*txState` is a number of an explicit heap, and a context carries none or one.
pub mod Stack
pub mod Nesting
pub mod Pairing
pub mod Abort
mod Tests
use ddd_qce.Common.{
  ℕ, zero, suc, ◌+◌, ◌-◌, ◌==◌, ltb, String, Bool, true, false, Option, none, some, List, [], ◌∷◌,
  ◌++◌, if◌then◌else◌, length,
}
use ddd_qce.Errors.{Err, Result, ok, error, text, wrap, Run, returns, panics}

-- `SAVEPOINT sp_n`, `RELEASE SAVEPOINT sp_n` and `ROLLBACK TO SAVEPOINT sp_n`.
pub data Statement : Type 0 where
  savepoint release_savepoint rollback_to_savepoint : ℕ → Statement

pub record Driver (D Tx : Type 0) : Type 0 where
  pub begin_tx : D → D × Result Tx
  pub exec : D → Tx → Statement → D × Option Err
  pub commit_tx : D → Tx → D × Option Err
  pub rollback_tx : D → Tx → D × Option Err

pub record TxState (Tx : Type 0) : Type 0 where
  pub tx : Tx
  pub depth : ℕ
  pub aborted : Bool
  pub next_sp_seq : ℕ
  pub parent_sp : List ℕ

pub record World (D Tx : Type 0) : Type 0 where
  pub db : D
  pub states : ℕ → Option (TxState Tx)
  pub next_state : ℕ

-- `parentSp[:len(parentSp)-1]` and `parentSp[len(parentSp)-1]`, which panics on an empty slice.
unfoldable pub pop_last : List ℕ → Option (List ℕ × ℕ)
pop_last [] = none
pop_last (n ∷ ns) = elim (pop_last ns) [ none ↦ some ([], n) | some t ↦ some (n ∷ t.0, t.1) ]

abbrev pub err_no_transaction : Err
err_no_transaction = text "pg_tx: no transaction in context" []

abbrev pub err_aborted : Err
err_aborted = text "pg_tx: transaction aborted by inner rollback" []

module _ {D Tx : Type 0} where
  unfoldable pub set_state : World D Tx → ℕ → TxState Tx → World D Tx
  set_state w p st = record w { states = λ q. if q == p then some st else w.states q }

  -- The state that a context carries.
  unfoldable pub state_of : World D Tx → Option ℕ → Option (ℕ × TxState Tx)
  state_of w none = none
  state_of w (some p) = elim (w.states p) [ none ↦ none | some st ↦ some (p, st) ]

module _ {D Tx : Type 0} (driver : Driver D Tx) where
  -- Begin in a context with a transaction; a failure takes the changes back.
  unfoldable pub begin_nested : World D Tx → ℕ → TxState Tx → World D Tx × Result (Option ℕ)
  unfolding set_state
  begin_nested w p st =
      let sp_seq = st.next_sp_seq + 1 in
      let (db', e) = driver.exec w.db st.tx (savepoint sp_seq) in
      elim e [
        | some err ↦ (record w { db = db' }, error (wrap "create savepoint: %w" [] err))
        | none ↦ (
          set_state (record w { db = db' }) p
              (record st {
                depth = st.depth + 1;
                next_sp_seq = sp_seq;
                parent_sp = st.parent_sp ++ sp_seq ∷ [];
                aborted = false;
              }),
          ok (some p),
        )
      ]

  unfoldable pub begin_outer : World D Tx → World D Tx × Result (Option ℕ)
  unfolding set_state
  begin_outer w =
      let (db', r) = driver.begin_tx w.db in
      elim r [
        | error e ↦ (record w { db = db' }, error e)
        | ok tx ↦
            let st : TxState Tx = record {
              tx = tx;
              depth = 1;
              aborted = false;
              next_sp_seq = 1;
              parent_sp = 1 ∷ [];
            } in
            (
              set_state (record w { db = db'; next_state = w.next_state + 1 }) w.next_state st,
              ok (some w.next_state),
            )
      ]

  unfoldable pub begin : World D Tx → Option ℕ → World D Tx × Result (Option ℕ)
  unfolding begin_nested begin_outer
  begin w ctx = elim (state_of w ctx) [ some (p, st) ↦ begin_nested w p st | none ↦ begin_outer w ]

  -- Commit past its pop: `st` has the new depth and stack.
  unfoldable pub commit_popped : World D Tx → ℕ → TxState Tx → ℕ → World D Tx × Option Err
  unfolding set_state
  commit_popped w p st sp_seq =
      if ltb 0 st.depth
      then (if st.aborted
          then (let (db', e) = driver.exec w.db st.tx (rollback_to_savepoint sp_seq) in
              (
                set_state (record w { db = db' }) p st,
                elim e [
                  | some rb_err ↦ some (
                      wrap "pg_tx: rollback to savepoint: %w (transaction was already aborted)" []
                        rb_err)
                  | none ↦ some err_aborted
                ],
              ))
          else (let (db', e) = driver.exec w.db st.tx (release_savepoint sp_seq) in
              (set_state (record w { db = db' }) p st, e)))
      else if st.aborted
      then (set_state (record w { db = (driver.rollback_tx w.db st.tx).0 }) p st, some err_aborted)
      else (let (db', e) = driver.commit_tx w.db st.tx in
          (set_state (record w { db = db' }) p st, e))

  unfoldable pub commit : World D Tx → Option ℕ → Run (World D Tx × Option Err)
  unfolding commit_popped
  commit w ctx = elim (state_of w ctx) [
    | none ↦ returns (w, some err_no_transaction)
    | some (p, st) ↦
        if st.depth == 0
        then returns (w, some err_no_transaction)
        else elim (pop_last st.parent_sp) [
          | none ↦ panics
          | some (rest, sp_seq) ↦
              returns
                (commit_popped w p (record st { depth = st.depth - 1; parent_sp = rest }) sp_seq)
        ]
  ]

  unfoldable pub rollback_popped : World D Tx → ℕ → TxState Tx → ℕ → World D Tx × Option Err
  unfolding set_state
  rollback_popped w p st sp_seq =
      if ltb 0 st.depth
      then (let (db', e) = driver.exec w.db st.tx (rollback_to_savepoint sp_seq) in
          (set_state (record w { db = db' }) p st, e))
      else (let (db', e) = driver.rollback_tx w.db st.tx in
          (set_state (record w { db = db' }) p st, e))

  unfoldable pub rollback : World D Tx → Option ℕ → Run (World D Tx × Option Err)
  unfolding rollback_popped
  rollback w ctx = elim (state_of w ctx) [
    | none ↦ returns (w, some err_no_transaction)
    | some (p, st) ↦
        if st.depth == 0
        then returns (w, some err_no_transaction)
        else elim (pop_last st.parent_sp) [
          | none ↦ panics
          | some (rest, sp_seq) ↦ returns (
              rollback_popped w p
                (record st { aborted = true; depth = st.depth - 1; parent_sp = rest }) sp_seq)
        ]
  ]

  unfoldable pub has_transaction : World D Tx → Option ℕ → Bool
  has_transaction w ctx = elim (state_of w ctx) [ none ↦ false | some t ↦ true ]
