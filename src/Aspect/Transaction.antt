-- ===== src/Aspect/Transaction.antt =====
-- aspect/builtin/transaction.go: the TransactionAspect, and the command chain around it.
use ddd_qce.Errors.Laws.{Result-cases}
use ddd_qce.Common.{sym, subst}
use ddd_qce.Common.{
  ℕ, ◌≡◌, String, Option, none, some, List, [], ◌∷◌, refl, ap, Option-cases, inl, inr,
}
use ddd_qce.Common.Int.{pos}
use ddd_qce.Errors.{Err, Result, ok, error, Arg, wrap, join}
use ddd_qce.Aspect.{CommandAspect, after_error, run_command_aspects}

-- The TransactionManager interface, over the state `S` that the calls act on.
pub record TransactionManager (S Ctx : Type 0) : Type 0 where
  pub begin_transaction : S → Ctx → S × Result Ctx
  pub commit_transaction : S → Ctx → S × Option Err
  pub rollback_transaction : S → Ctx → S × Option Err

unfoldable pub no_op_transaction_manager : {S Ctx : Type 0} → TransactionManager S Ctx
no_op_transaction_manager = record {
  begin_transaction = λ s ctx. (s, ok ctx);
  commit_transaction = λ s ctx. (s, none);
  rollback_transaction = λ s ctx. (s, none);
}

-- What AfterCommand returns once Rollback has; `error_text` is the text of an error.
unfoldable pub after_rollback : (Err → String) → Err → Option Err → Err
after_rollback error_text e none = e
after_rollback error_text e (some rb_err) =
    wrap "command failed: %w, rollback failed: %v" (Arg.str (error_text rb_err) ∷ []) e

module _ {S Ctx : Type 0} (error_text : Err → String) (tm : TransactionManager S Ctx) where
  unfoldable pub after_transaction : S → Ctx → Option Err → S × Option Err
  unfolding after_rollback
  after_transaction s ctx (some e) =
      let (s', rb_err) = tm.rollback_transaction s ctx in
      (s', some (after_rollback error_text e rb_err))
  after_transaction s ctx none = tm.commit_transaction s ctx

module _ {S Ctx Msg Res : Type 0} (error_text : Err → String) (tm : TransactionManager S Ctx) where
  unfoldable pub transaction_aspect : CommandAspect S Ctx Msg Res
  unfolding after_transaction
  transaction_aspect = record {
    name = "transaction";
    order = pos 10;
    before_command = λ s ctx cmd. tm.begin_transaction s ctx;
    after_command = λ s ctx cmd result err duration. after_transaction error_text tm s ctx err;
  }

  module _ (clock : S → ℕ) (cmd : Msg) (next : S → Ctx → S × Option Res × Option Err)
      (inner : List (CommandAspect S Ctx Msg Res)) where
    abbrev pub inside : S → Ctx → S × Option Res × Option Err
    inside s ctx = run_command_aspects clock s ctx cmd next inner

    abbrev pub around : S → Ctx → S × Option Res × Option Err
    around s ctx = run_command_aspects clock s ctx cmd next (transaction_aspect ∷ inner)

    -- What may happen around the rest: Begin refuses, and nothing else runs; or the rest runs in
    -- the context of Begin, and then exactly one of Commit and Rollback, by the error of the rest.
    pub data Brackets (s : S) (ctx : Ctx) : S × Option Res × Option Err → Type 0 where
      refused :
          {t : S} {e : Err}
          → tm.begin_transaction s ctx ≡ (t, error e)
          → Brackets s ctx (t, none, some e)
      committed :
          {t u v : S} {c : Ctx} {res : Option Res} {err : Option Err}
          → tm.begin_transaction s ctx ≡ (t, ok c)
          → inside t c ≡ (u, res, none)
          → tm.commit_transaction u c ≡ (v, err)
          → Brackets s ctx (v, res, err)
      rolled_back :
          {t u v : S} {c : Ctx} {res : Option Res} {e : Err}
          → tm.begin_transaction s ctx ≡ (t, ok c)
          → inside t c ≡ (u, res, some e)
          → tm.rollback_transaction u c ≡ (v, none)
          → Brackets s ctx (v, res, some (join e e))
      rollback_failed :
          {t u v : S} {c : Ctx} {res : Option Res} {e f : Err}
          → tm.begin_transaction s ctx ≡ (t, ok c)
          → inside t c ≡ (u, res, some e)
          → tm.rollback_transaction u c ≡ (v, some f)
          → Brackets s ctx (
            v,
            res,
            some (
                join e
                  (wrap "command failed: %w, rollback failed: %v" (Arg.str (error_text f) ∷ []) e)),
          )

    after_error-none : (o : Option Err) → after_error none o ≡ o
    unfolding after_error
    after_error-none none = refl
    after_error-none (some e) = refl

    ended-Brackets :
        (s t u : S) (ctx c : Ctx) (res : Option Res) (err : Option Err)
        → tm.begin_transaction s ctx ≡ (t, ok c)
        → inside t c ≡ (u, res, err)
        → let (v, e) = after_transaction error_text tm u c err in
          Brackets s ctx (v, res, after_error err e)
    unfolding after_transaction after_rollback after_error
    ended-Brackets s t u ctx c res none b r =
        subst (λ x. Brackets s ctx ((tm.commit_transaction u c).0, res, x))
          (sym (after_error-none (tm.commit_transaction u c).1)) (committed b r refl)
    ended-Brackets s t u ctx c res (some e) b r =
        elim (Option-cases (tm.rollback_transaction u c).1) [
          | inl h ↦ rw (h) (rolled_back b r (ap (λ x. ((tm.rollback_transaction u c).0, x)) h))
          | inr (f, h) ↦
              rw (h) (rollback_failed b r (ap (λ x. ((tm.rollback_transaction u c).0, x)) h))
        ]

    -- The TransactionAspect around the rest of a chain: if Begin fails, nothing else runs and its
    -- error is the error. Otherwise the rest runs in the context of Begin, and then exactly one of
    -- Commit and Rollback does: Commit if the rest reports no error, and then the error of Commit
    -- is the error; Rollback if it reports one, which the chain then joins with itself, or with
    -- the message of both errors if Rollback fails too. The result of the rest is the result.
    pub transaction_aspect-around : (s : S) (ctx : Ctx) → Brackets s ctx (around s ctx)
    unfolding run_command_aspects transaction_aspect
    transaction_aspect-around s ctx =
        let b = tm.begin_transaction s ctx in
        elim (Result-cases b.1) [
          | inl (e, h) ↦ rw (h) (refused (ap (λ x. (b.0, x)) h))
          | inr (c, h) ↦ rw (h) (
              ended-Brackets s b.0 (inside b.0 c).0 ctx c (inside b.0 c).1 (inside b.0 c).2
                (ap (λ x. (b.0, x)) h) refl)
        ]
