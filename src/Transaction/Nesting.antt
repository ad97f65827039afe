-- ===== src/Transaction/Nesting.antt =====
-- The nesting of pg/transaction.go: Begin, Commit and Rollback keep the savepoint stack.
use ddd_qce.Common.{
  ℕ, ◌+◌, ◌-◌, ◌≡◌, refl, sym, subst, true, false, Option, none, some, List, [], ◌∷◌, arith, ◌⊎◌,
  inl, inr, Option-cases, Bool-cases, ◌==◌,
}
use ddd_qce.Errors.Laws.{Result-cases}
use ddd_qce.Errors.{Err, Run, returns}
use ddd_qce.Transaction.{
  Driver, TxState, World, savepoint, pop_last, set_state, state_of, begin, begin_nested,
  begin_outer, commit, commit_popped, rollback, rollback_popped, err_no_transaction,
}
use ddd_qce.Transaction.Stack.{
  AllWellFormed, with_state, with_state-AllWellFormed, popped, pushed, nested_state,
}

module _ {D Tx : Type 0} (driver : Driver D Tx) where
  commit_popped-states :
      (w : World D Tx) (p : ℕ) (st : TxState Tx) (n : ℕ)
      → (commit_popped driver w p st n).0.states ≡ with_state w.states p st
  unfolding commit_popped set_state
  commit_popped-states w p st n = ground arith

  rollback_popped-states :
      (w : World D Tx) (p : ℕ) (st : TxState Tx) (n : ℕ)
      → (rollback_popped driver w p st n).0.states ≡ with_state w.states p st
  unfolding rollback_popped set_state
  rollback_popped-states w p st n = ground arith

  state_of-cases :
      (w : World D Tx) (ctx : Option ℕ)
      → (state_of w ctx ≡ none)
        ⊎ ((p : ℕ) × (st : TxState Tx) × (state_of w ctx ≡ some (p, st)) × (w.states p ≡ some st))
  unfolding state_of
  state_of-cases w none = inl refl
  state_of-cases w (some p) = elim (Option-cases (w.states p)) [
    | inl e ↦ inl (ground arith)
    | inr (st, e) ↦ inr (p, st, ground arith, e)
  ]

  -- The call returns, and leaves every transaction well formed.
  abbrev pub Keeps : Run (World D Tx × Option Err) → Type 0
  Keeps r = (t : World D Tx × Option Err) × (r ≡ returns t) × AllWellFormed t.0.states

  commit-none :
      (w : World D Tx) (ctx : Option ℕ)
      → state_of w ctx ≡ none
      → commit driver w ctx ≡ returns (w, some err_no_transaction)
  unfolding commit
  commit-none w ctx e = ground arith

  commit-zero :
      (w : World D Tx) (ctx : Option ℕ) (p : ℕ) (st : TxState Tx)
      → state_of w ctx ≡ some (p, st)
      → (st.depth == 0) ≡ true
      → commit driver w ctx ≡ returns (w, some err_no_transaction)
  unfolding commit
  commit-zero w ctx p st e h = ground arith

  pub commit-eq :
      (w : World D Tx) (ctx : Option ℕ) (p : ℕ) (st : TxState Tx) (t : List ℕ × ℕ)
      → state_of w ctx ≡ some (p, st)
      → (st.depth == 0) ≡ false
      → pop_last st.parent_sp ≡ some t
      → commit driver w ctx
        ≡ returns
            (commit_popped driver w p (record st { depth = st.depth - 1; parent_sp = t.0 }) t.1)
  unfolding commit
  commit-eq w ctx p st t e h k = ground arith

  rollback-none :
      (w : World D Tx) (ctx : Option ℕ)
      → state_of w ctx ≡ none
      → rollback driver w ctx ≡ returns (w, some err_no_transaction)
  unfolding rollback
  rollback-none w ctx e = ground arith

  rollback-zero :
      (w : World D Tx) (ctx : Option ℕ) (p : ℕ) (st : TxState Tx)
      → state_of w ctx ≡ some (p, st)
      → (st.depth == 0) ≡ true
      → rollback driver w ctx ≡ returns (w, some err_no_transaction)
  unfolding rollback
  rollback-zero w ctx p st e h = ground arith

  pub rollback-eq :
      (w : World D Tx) (ctx : Option ℕ) (p : ℕ) (st : TxState Tx) (t : List ℕ × ℕ)
      → state_of w ctx ≡ some (p, st)
      → (st.depth == 0) ≡ false
      → pop_last st.parent_sp ≡ some t
      → rollback driver w ctx
        ≡ returns (
            rollback_popped driver w p
              (record st { aborted = true; depth = st.depth - 1; parent_sp = t.0 })
              t.1)
  unfolding rollback
  rollback-eq w ctx p st t e h k = ground arith

  commit-Keeps :
      (w : World D Tx) (ctx : Option ℕ) → AllWellFormed w.states → Keeps (commit driver w ctx)
  commit-Keeps w ctx a = elim (state_of-cases w ctx) [
    | inl e ↦ ((w, some err_no_transaction), commit-none w ctx e, a)
    | inr (p, st, e, h) ↦ elim (Bool-cases (st.depth == 0)) [
      | inl z ↦ ((w, some err_no_transaction), commit-zero w ctx p st e z, a)
      | inr z ↦
          let (t, q, f, g) = popped st (a p st h) (ground arith) in
          let st' = record st { depth = st.depth - 1; parent_sp = t.0 } in
          (
            commit_popped driver w p st' t.1,
            commit-eq w ctx p st t e z q,
            subst AllWellFormed (sym (commit_popped-states w p st' t.1))
                (with_state-AllWellFormed w.states p st' a f),
          )
    ]
  ]

  rollback-Keeps :
      (w : World D Tx) (ctx : Option ℕ) → AllWellFormed w.states → Keeps (rollback driver w ctx)
  rollback-Keeps w ctx a = elim (state_of-cases w ctx) [
    | inl e ↦ ((w, some err_no_transaction), rollback-none w ctx e, a)
    | inr (p, st, e, h) ↦ elim (Bool-cases (st.depth == 0)) [
      | inl z ↦ ((w, some err_no_transaction), rollback-zero w ctx p st e z, a)
      | inr z ↦
          let (t, q, f, g) = popped st (a p st h) (ground arith) in
          let st' = record st { aborted = true; depth = st.depth - 1; parent_sp = t.0 } in
          (
            rollback_popped driver w p st' t.1,
            rollback-eq w ctx p st t e z q,
            subst AllWellFormed (sym (rollback_popped-states w p st' t.1))
                (with_state-AllWellFormed w.states p st' a g),
          )
    ]
  ]

  begin-none :
      (w : World D Tx) (ctx : Option ℕ)
      → state_of w ctx ≡ none
      → begin driver w ctx ≡ begin_outer driver w
  unfolding begin
  begin-none w ctx e = ground arith

  pub begin-some :
      (w : World D Tx) (ctx : Option ℕ) (p : ℕ) (st : TxState Tx)
      → state_of w ctx ≡ some (p, st)
      → begin driver w ctx ≡ begin_nested driver w p st
  unfolding begin
  begin-some w ctx p st e = ground arith

  abbrev outer_state : Tx → TxState Tx
  outer_state tx = record {
    tx = tx;
    depth = 1;
    aborted = false;
    next_sp_seq = 1;
    parent_sp = 1 ∷ [];
  }

  begin_nested-states :
      (w : World D Tx) (p : ℕ) (st : TxState Tx)
      → ((begin_nested driver w p st).0.states ≡ w.states)
        ⊎ ((begin_nested driver w p st).0.states ≡ with_state w.states p (nested_state st))
  unfolding begin_nested set_state
  begin_nested-states w p st =
      elim (Option-cases (driver.exec w.db st.tx (savepoint (st.next_sp_seq + 1))).1) [
        | inl e ↦ inr (ground arith)
        | inr (x, e) ↦ inl (ground arith)
      ]

  begin_outer-states :
      (w : World D Tx)
      → ((begin_outer driver w).0.states ≡ w.states)
        ⊎ ((tx : Tx) × ((begin_outer driver w).0.states
              ≡ with_state w.states w.next_state (outer_state tx)))
  unfolding begin_outer set_state
  begin_outer-states w = elim (Result-cases (driver.begin_tx w.db).1) [
    | inl (x, e) ↦ inl (ground arith)
    | inr (tx, e) ↦ inr (tx, ground arith)
  ]

  begin-AllWellFormed :
      (w : World D Tx) (ctx : Option ℕ)
      → AllWellFormed w.states
      → AllWellFormed (begin driver w ctx).0.states
  begin-AllWellFormed w ctx a = elim (state_of-cases w ctx) [
    | inl e ↦ rw (begin-none w ctx e) (elim (begin_outer-states w) [
      | inl q ↦ subst AllWellFormed (sym q) a
      | inr (tx, q) ↦ subst AllWellFormed (sym q) (
          with_state-AllWellFormed w.states w.next_state (outer_state tx) a
            (record { levels = refl; rises = (omega arith, omega arith) }))
    ])
    | inr (p, st, e, h) ↦ rw (begin-some w ctx p st e) (elim (begin_nested-states w p st) [
      | inl q ↦ subst AllWellFormed (sym q) a
      | inr q ↦
          subst AllWellFormed (sym q)
            (with_state-AllWellFormed w.states p (nested_state st) a (pushed st (a p st h)))
    ])
  ]

  -- Whatever the driver answers and in whatever context they are called, Commit and Rollback never
  -- index an empty stack, and Begin, Commit and Rollback keep every transaction well formed: one
  -- savepoint number on the stack for each level, rising and none above the last that was given.
  pub calls-AllWellFormed :
      (w : World D Tx) (ctx : Option ℕ)
      → AllWellFormed w.states
      → AllWellFormed (begin driver w ctx).0.states
        × Keeps (commit driver w ctx)
        × Keeps (rollback driver w ctx)
  calls-AllWellFormed w ctx a =
      (begin-AllWellFormed w ctx a, commit-Keeps w ctx a, rollback-Keeps w ctx a)
