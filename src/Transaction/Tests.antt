-- ===== src/Transaction/Tests.antt =====
-- Runs of the transaction manager over a driver that logs its statements.
use ddd_qce.Common.{
  ℕ, ◌≡◌, refl, Bool, true, false, none, some, List, [], ◌∷◌, ◌++◌, ◌==◌, if◌then◌else◌, arith,
  subst, Bool-cases, inl, inr,
}
use ddd_qce.Errors.{ok}
use ddd_qce.Transaction.{Driver, TxState, World, Statement, begin, commit, rollback}
use ddd_qce.Transaction.Stack.{IsWellFormed, AllWellFormed}
use ddd_qce.Transaction.Nesting.{Keeps, calls-AllWellFormed}
use ddd_qce.Transaction.Abort.{AllRefused, commit-AllRefused}

-- The statements of the one transaction, then whether it was committed.
abbrev Log : Type 0
Log = List Statement × List Bool

abbrev logging : Driver Log Unit
logging = record {
  begin_tx = λ d. (d, ok tt);
  exec = λ d tx s. ((d.0 ++ s ∷ [], d.1), none);
  commit_tx = λ d tx. ((d.0, true ∷ d.1), none);
  rollback_tx = λ d tx. ((d.0, false ∷ d.1), none);
}

abbrev one_level : Bool → TxState Unit
one_level aborted = record {
  tx = tt;
  depth = 1;
  aborted = aborted;
  next_sp_seq = 2;
  parent_sp = 1 ∷ [];
}

abbrev world : Bool → World Log Unit
world aborted = record {
  db = ([], []);
  states = λ q. if q == 0 then some (one_level aborted) else none;
  next_state = 1;
}

one_level-IsWellFormed : (b : Bool) → IsWellFormed (one_level b)
one_level-IsWellFormed b = record { levels = refl; rises = (omega arith, omega arith) }

one_state : (b : Bool) (p : ℕ) (st : TxState Unit) → (world b).states p ≡ some st → one_level b ≡ st
one_state b p st e = elim (Bool-cases (p == 0)) [
  | inl h ↦ ground arith
  | inr h ↦ absurd (ground arith)
]

world-AllWellFormed : (b : Bool) → AllWellFormed (world b).states
world-AllWellFormed b p st e = subst IsWellFormed (one_state b p st e) (one_level-IsWellFormed b)

calls-AllWellFormed_example :
    AllWellFormed (begin logging (world false) (some 0)).0.states
    × Keeps logging (commit logging (world false) (some 0))
    × Keeps logging (rollback logging (world false) (some 0))
calls-AllWellFormed_example =
    calls-AllWellFormed logging (world false) (some 0) (world-AllWellFormed false)

commit-AllRefused_example : AllRefused logging 1 (world true) 0 tt
commit-AllRefused_example =
    commit-AllRefused logging 0 (world true) 0 (one_level true) refl (one_level-IsWellFormed true)
      refl refl
