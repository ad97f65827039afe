-- ===== src/Transaction/Pairing.antt =====
-- A nested Begin of pg/transaction.go with the Commit or Rollback that ends it.
use ddd_qce.Common.{ℕ, ◌+◌, ◌-◌, ◌<◌, ◌≡◌, refl, ap, ◌∙◌, Bool, true, false, none, some, arith}
use ddd_qce.Errors.{ok, returns}
use ddd_qce.Transaction.{
  Driver, TxState, World, Statement, savepoint, release_savepoint, rollback_to_savepoint, set_state,
  state_of, begin, begin_nested, commit, commit_popped, rollback, rollback_popped,
}
use ddd_qce.Transaction.Stack.{pop_last-append, nested_state}
use ddd_qce.Transaction.Nesting.{commit-eq, rollback-eq}

module _ {D Tx : Type 0} (driver : Driver D Tx) where
  -- A nested transaction from its Begin to its end, on a driver that accepts the savepoint.
  abbrev before_end : World D Tx → ℕ → TxState Tx → World D Tx
  before_end w p st =
      set_state (record w { db = (driver.exec w.db st.tx (savepoint (st.next_sp_seq + 1))).0 }) p
        (nested_state st)

  begin-accepted :
      (w : World D Tx) (p : ℕ) (st : TxState Tx)
      → w.states p ≡ some st
      → (driver.exec w.db st.tx (savepoint (st.next_sp_seq + 1))).1 ≡ none
      → begin driver w (some p) ≡ (before_end w p st, ok (some p))
  unfolding begin begin_nested set_state state_of
  begin-accepted w p st h e = ground arith

  before_end-state :
      (w : World D Tx) (p : ℕ) (st : TxState Tx)
      → state_of (before_end w p st) (some p) ≡ some (p, nested_state st)
  unfolding state_of set_state
  before_end-state w p st = ground arith

  -- The state once a nested transaction has ended.
  abbrev ended : TxState Tx → Bool → TxState Tx
  ended st b = record st { next_sp_seq = st.next_sp_seq + 1; aborted = b; depth = st.depth + 1 - 1 }

  ended-eq :
      (st : TxState Tx) (b : Bool)
      → ended st b ≡ record st { next_sp_seq = st.next_sp_seq + 1; aborted = b }
  ended-eq st b =
      ap (λ n. record st { next_sp_seq = st.next_sp_seq + 1; aborted = b; depth = n })
        {y = st.depth} (omega arith)

  abbrev pub exec_in : World D Tx → ℕ → TxState Tx → Statement → World D Tx
  exec_in w p st q = set_state (record w { db = (driver.exec w.db st.tx q).0 }) p st

  pub exec_in-state :
      (w : World D Tx) (p : ℕ) (st : TxState Tx) (q : Statement)
      → (exec_in w p st q).states p ≡ some st
  unfolding set_state
  exec_in-state w p st q = ground arith

  commit_popped-inner :
      (w : World D Tx) (p : ℕ) (st : TxState Tx) (n : ℕ)
      → 0 < st.depth
      → st.aborted ≡ false
      → commit_popped driver w p st n
        ≡ (exec_in w p st (release_savepoint n), (driver.exec w.db st.tx (release_savepoint n)).1)
  unfolding commit_popped
  commit_popped-inner w p st n h a = ground arith

  rollback_popped-inner :
      (w : World D Tx) (p : ℕ) (st : TxState Tx) (n : ℕ)
      → 0 < st.depth
      → rollback_popped driver w p st n ≡ (
        exec_in w p st (rollback_to_savepoint n),
        (driver.exec w.db st.tx (rollback_to_savepoint n)).1,
      )
  unfolding rollback_popped
  rollback_popped-inner w p st n h = ground arith

  set_state-db : (w : World D Tx) (p : ℕ) (st : TxState Tx) → (set_state w p st).db ≡ w.db
  unfolding set_state
  set_state-db w p st = refl

  -- A transaction nested in an open one, whose savepoint the driver accepts, issues that savepoint,
  -- and then releases the same savepoint if it is committed and rolls back to it if it is rolled
  -- back; what that reports is the error of the call. The level and the stack are then as before
  -- the Begin, and the transaction counts as aborted exactly if the nested one was rolled back,
  -- whatever it was before.
  pub begin-end :
      (w : World D Tx) (p : ℕ) (st : TxState Tx)
      → w.states p ≡ some st
      → 0 < st.depth
      → (driver.exec w.db st.tx (savepoint (st.next_sp_seq + 1))).1 ≡ none
      → let n = st.next_sp_seq + 1 in
        let w1 = (begin driver w (some p)).0 in
        let d = (driver.exec w.db st.tx (savepoint n)).0 in
        ((w2 : World D Tx) × (commit driver w1 (some p)
            ≡ returns (w2, (driver.exec d st.tx (release_savepoint n)).1))
          × (w2.db ≡ (driver.exec d st.tx (release_savepoint n)).0)
          × (w2.states p ≡ some (record st { next_sp_seq = n; aborted = false })))
        × ((w3 : World D Tx) × (rollback driver w1 (some p)
              ≡ returns (w3, (driver.exec d st.tx (rollback_to_savepoint n)).1))
            × (w3.db ≡ (driver.exec d st.tx (rollback_to_savepoint n)).0)
            × (w3.states p ≡ some (record st { next_sp_seq = n; aborted = true })))
  unfolding set_state
  begin-end w p st h deep e =
      let n = st.next_sp_seq + 1 in
      let w1 = before_end w p st in
      let here = before_end-state w p st in
      let pop = pop_last-append st.parent_sp n in
      rw (begin-accepted w p st h e) (
        (
          exec_in w1 p (ended st false) (release_savepoint n),
          commit-eq driver w1 (some p) p (nested_state st) (st.parent_sp, n) here (ground arith) pop
              ∙ ap (λ x. returns x)
                  (commit_popped-inner w1 p (ended st false) n (omega arith) refl),
          refl,
          exec_in-state w1 p (ended st false) (release_savepoint n)
              ∙ ap (λ x. some x) (ended-eq st false),
        ),
        (
          exec_in w1 p (ended st true) (rollback_to_savepoint n),
          rollback-eq driver w1 (some p) p (nested_state st) (st.parent_sp, n) here (ground arith)
                pop
              ∙ ap (λ x. returns x) (rollback_popped-inner w1 p (ended st true) n (omega arith)),
          refl,
          exec_in-state w1 p (ended st true) (rollback_to_savepoint n)
              ∙ ap (λ x. some x) (ended-eq st true),
        ),
      )
