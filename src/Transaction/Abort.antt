-- ===== src/Transaction/Abort.antt =====
-- What an inner Rollback or Begin of pg/transaction.go means for the outer Commits.
use ddd_qce.Common.{
  ℕ, zero, suc, ◌+◌, ◌-◌, ◌≡◌, refl, ap, ◌∙◌, subst, true, false, none, some, List, [], arith, inl,
  inr, Option-cases, Bool-cases, ltb, ◌≢◌,
}
use ddd_qce.Errors.{Err, wrap, returns}
use ddd_qce.Transaction.{
  Driver, TxState, World, Statement, savepoint, release_savepoint, rollback_to_savepoint, set_state,
  state_of, begin, commit, commit_popped, err_aborted,
}
use ddd_qce.Transaction.Stack.{IsWellFormed, popped, Rising-higher}
use ddd_qce.Transaction.Nesting.{commit-eq}
use ddd_qce.Transaction.Pairing.{exec_in, exec_in-state, begin-end}

module _ {D Tx : Type 0} (driver : Driver D Tx) where
  -- n commits in a row, each refused, the last of which rolls the database transaction back.
  abbrev pub AllRefused : ℕ → World D Tx → ℕ → Tx → Type 0
  AllRefused zero w p tx = (d : D) × (w.db ≡ (driver.rollback_tx d tx).0)
  AllRefused (suc n) w p tx =
      (w' : World D Tx) × (e : Err) × (commit driver w (some p) ≡ returns (w', some e))
      × AllRefused n w' p tx

  abbrev less_one : TxState Tx → List ℕ → TxState Tx
  less_one st ns = record st { depth = st.depth - 1; parent_sp = ns }

  commit_popped-aborted :
      (w : World D Tx) (p : ℕ) (st : TxState Tx) (n : ℕ)
      → st.aborted ≡ true
      → (w' : World D Tx) × (e : Err) × (commit_popped driver w p st n ≡ (w', some e))
        × (w'.states p ≡ some st)
        × (st.depth ≡ 0 → w'.db ≡ (driver.rollback_tx w.db st.tx).0)
  unfolding commit_popped set_state
  commit_popped-aborted w p st n a = elim (Bool-cases (ltb 0 st.depth)) [
    | inl l ↦ elim (Option-cases (driver.exec w.db st.tx (rollback_to_savepoint n)).1) [
      | inl q ↦ (
        exec_in driver w p st (rollback_to_savepoint n),
        err_aborted,
        ground arith,
        exec_in-state driver w p st (rollback_to_savepoint n),
        λ z. absurd (ground arith),
      )
      | inr (x, q) ↦ (
        exec_in driver w p st (rollback_to_savepoint n),
        wrap "pg_tx: rollback to savepoint: %w (transaction was already aborted)" [] x,
        ground arith,
        exec_in-state driver w p st (rollback_to_savepoint n),
        λ z. absurd (ground arith),
      )
    ]
    | inr l ↦ (
      set_state (record w { db = (driver.rollback_tx w.db st.tx).0 }) p st,
      err_aborted,
      ground arith,
      exec_in-state driver w p st (rollback_to_savepoint n),
      λ z. refl,
    )
  ]

  state_of-some :
      (w : World D Tx) (p : ℕ) (st : TxState Tx)
      → w.states p ≡ some st
      → state_of w (some p) ≡ some (p, st)
  unfolding state_of
  state_of-some w p st h = ground arith

  commit-aborted :
      (w : World D Tx) (p : ℕ) (st : TxState Tx)
      → w.states p ≡ some st
      → IsWellFormed st
      → st.depth ≢ 0
      → st.aborted ≡ true
      → (w' : World D Tx) × (e : Err) × (st' : TxState Tx) × (commit driver w (some p)
          ≡ returns (w', some e))
        × (w'.states p ≡ some st')
        × IsWellFormed st'
        × (st'.aborted ≡ true)
        × (st'.depth ≡ st.depth - 1)
        × (st'.tx ≡ st.tx)
        × (st.depth ≡ 1 → w'.db ≡ (driver.rollback_tx w.db st.tx).0)
  commit-aborted w p st h f deep a =
      let (t, q, f', g) = popped st f deep in
      let (w', e, eq, s, d) = commit_popped-aborted w p (less_one st t.0) t.1 a in
      (
        w',
        e,
        less_one st t.0,
        commit-eq driver w (some p) p st t (state_of-some w p st h) (ground arith) q
            ∙ ap (λ x. returns x) eq,
        s,
        f',
        a,
        refl,
        refl,
        λ one. d (omega arith),
      )

  -- Once a well-formed transaction counts as aborted, every Commit of its open levels reports an
  -- error, from the innermost to the outermost, and the last of them rolls the database transaction
  -- back, as long as nobody begins another level in between.
  pub commit-AllRefused :
      (n : ℕ) (w : World D Tx) (p : ℕ) (st : TxState Tx)
      → w.states p ≡ some st
      → IsWellFormed st
      → st.depth ≡ suc n
      → st.aborted ≡ true
      → AllRefused (suc n) w p st.tx
  commit-AllRefused zero w p st h f deep a =
      let (w', e, st', eq, s, f', a', d', x', db) = commit-aborted w p st h f (omega arith) a in
      (w', e, eq, (w.db, db deep))
  commit-AllRefused (suc n) w p st h f deep a =
      let (w', e, st', eq, s, f', a', d', x', db) = commit-aborted w p st h f (omega arith) a in
      (
        w',
        e,
        eq,
        subst (AllRefused (suc n) w' p) x' (commit-AllRefused n w' p st' s f' (omega arith) a'),
      )

  commit_popped-outer :
      (w : World D Tx) (p : ℕ) (st : TxState Tx) (n : ℕ)
      → st.depth ≡ 0
      → st.aborted ≡ false
      → commit_popped driver w p st n ≡ (
        set_state (record w { db = (driver.commit_tx w.db st.tx).0 }) p st,
        (driver.commit_tx w.db st.tx).1,
      )
  unfolding commit_popped
  commit_popped-outer w p st n h a = ground arith

  -- A Begin forgets the abort: if a well-formed transaction is down to its outermost level and
  -- counts as aborted, its Commit is refused; but if another inner transaction begins and commits
  -- first, on a driver that accepts every statement, the outermost Commit commits the database
  -- transaction.
  pub begin-clears_abort :
      (w : World D Tx) (p : ℕ) (st : TxState Tx)
      → w.states p ≡ some st
      → IsWellFormed st
      → st.depth ≡ 1
      → st.aborted ≡ true
      → ((d : D) (q : Statement) → (driver.exec d st.tx q).1 ≡ none)
      → let w1 = (begin driver w (some p)).0 in
        AllRefused 1 w p st.tx
        × ((w2 w3 : World D Tx) × (commit driver w1 (some p) ≡ returns (w2, none))
            × (commit driver w2 (some p) ≡ returns (w3, (driver.commit_tx w2.db st.tx).1))
            × (w3.db ≡ (driver.commit_tx w2.db st.tx).0))
  unfolding set_state
  begin-clears_abort w p st h f deep a accepts =
      let n = st.next_sp_seq + 1 in
      let ((w2, c, d, s), rest) =
        begin-end driver w p st h (omega arith) (accepts w.db (savepoint n)) in
      let st2 = record st { next_sp_seq = n; aborted = false } in
      let f2 : IsWellFormed st2 = record {
        levels = f.levels;
        rises = Rising-higher 0 st.next_sp_seq st.parent_sp f.rises;
      } in
      let (t, q, f', g) = popped st2 f2 (omega arith) in
      let last = less_one st2 t.0 in
      (
        commit-AllRefused 0 w p st h f deep a,
        (
          w2,
          set_state (record w2 { db = (driver.commit_tx w2.db st.tx).0 }) p last,
          c ∙ ap (λ x. returns (w2, x)) (accepts _ (release_savepoint n)),
          commit-eq driver w2 (some p) p st2 t (state_of-some w2 p st2 s) (ground arith) q
              ∙ ap (λ x. returns x) (commit_popped-outer w2 p last t.1 (omega arith) refl),
          refl,
        ),
      )
