-- ===== src/PgEventStore/Atomic.antt =====
-- A refused Append of cqrs/impl/pg/event_store.go and its transaction.
use ddd_qce.Common.{Bool, false, Option-cases}
use ddd_qce.Common.{
  ℕ, suc, ◌+◌, ◌<◌, ◌≡◌, refl, sym, ap, ◌∙◌, subst, String, true, Option, none, some, List, [], ◌∷◌,
  arith, if◌then◌else◌, Bool-cases, inl, inr,
}
use ddd_qce.Common.Int.{ℤ, pos, add64}
use ddd_qce.Errors.{Err, Result, ok, error, wrap, errors_is, concurrency_code, err_concurrency, Arg}
use ddd_qce.PgRepository.{unique_violation}
use ddd_qce.PgEventStore.{
  EventRow, EventTable, EventCodec, Transactions, row_of, insert_error, insert_marshalled,
  append_from, append_events, append, finished, in_own_tx,
}
use ddd_qce.PgEventStore.Table.{
  HasVersion, IsTable, Within, at_start, inserted, IsTransactional, IsOf, append_from-step,
  insert_marshalled-answer, version_at,
}

module _ {W E Bytes : Type 0} (table : EventTable W Bytes) (codec : EventCodec E Bytes)
    (IsJson : Bytes → Type 0) (SameJson : Bytes → Bytes → Type 0) where
  insert_marshalled-Within :
      (w w' : W) (id : String) (version : ℤ) (e : E) (b : Result Bytes)
      → Within table (insert_marshalled table codec w id version e b).0 w'
      → Within table w w'
  unfolding insert_marshalled
  insert_marshalled-Within w w' id version e (error x) h = h
  insert_marshalled-Within w w' id version e (ok b) h = inserted (row_of table codec e b version) h

  append_from-Within :
      (w : W) (id : String) (expected : ℤ) (i : ℕ) (es : List E)
      → Within table w (append_from table codec w id expected i es).0
  unfolding append_from
  append_from-Within w id expected i [] = at_start
  append_from-Within w id expected i (e ∷ es) =
      let version = add64 (add64 expected (pos i)) (pos 1) in
      let r = insert_marshalled table codec w id version e (codec.marshal e) in
      insert_marshalled-Within w (append_from table codec w id expected i (e ∷ es)).0 id version e
        (codec.marshal e)
        (elim (Option-cases r.1) [
          | inl h ↦
              subst (λ p. Within table r.0 p.0)
                (sym (
                  append_from-step table codec w r.0 id expected i e es none
                    (ap (λ o. (r.0, o)) h)))
                (append_from-Within r.0 id expected (suc i) es)
          | inr (x, h) ↦
              subst (λ p. Within table r.0 p.0)
                (sym (
                  append_from-step table codec w r.0 id expected i e es (some x)
                    (ap (λ o. (r.0, o)) h)))
                at_start
        ])

  -- The error of the first version that is there.
  abbrev taken_error : String → ℕ → Err
  taken_error id n =
      wrap "concurrency conflict: version %d already exists for aggregate %s: %w"
        (Arg.num (add64 (add64 (pos n) (pos 0)) (pos 1)) ∷ Arg.str id ∷ []) err_concurrency

  module _ {IsLive : W → Type 0} (log : W → String → List (EventRow Bytes)) where
    append_events-taken :
        (is_table : IsTable table IsLive IsJson SameJson log) (w : W) (id : String) (n : ℕ) (e : E)
        → (es : List E) → IsLive w
        → IsOf table codec IsJson SameJson id (e ∷ es)
        → HasVersion (pos (suc n)) (log w id)
        → n + 1 < 9223372036854775808
        → (append_events table codec w id (pos n) (e ∷ es)).1 ≡ some (taken_error id n)
    unfolding append_events IsOf insert_error
    append_events-taken is_table w id n e es live (own, (b, marshalled, json), others) taken small =
        let version = add64 (add64 (pos n) (pos 0)) (pos 1) in
        let r = row_of table codec e b version in
        let at : version ≡ pos (suc n) =
          version_at n 0 (omega (arith, small)) ∙ ap pos {x = suc (n + 0)} (omega arith) in
        let (w', x, refused) = is_table.insert_taken w r live json (
          subst (λ k. HasVersion version (log w k)) (sym own)
            (subst (λ v. HasVersion v (log w id)) (sym at) taken)) in
        ap (λ p. p.1)
          (append_from-step table codec w w' id (pos n) 0 e es (some (taken_error id n)) (
            insert_marshalled-answer table codec w id version e b w' (unique_violation x) marshalled
              refused))

    -- Append, of at least one event, in a live world whose log holds the version after the expected
    -- one: the error is CONCURRENCY, be it in the transaction of the context or in one of its own.
    -- With one of its own, which is begun, nothing is stored in the end: after the rollback the log
    -- of every aggregate is the one from before. In the transaction of the context that is left to
    -- the caller, who has to roll it back. The events are of the aggregate and can be marshalled.
    pub append-taken :
        (is_table : IsTable table IsLive IsJson SameJson log) (txs : Transactions W)
        → IsTransactional table txs IsLive log
        → (w own : W) (id : String) (n : ℕ) (e : E) (es : List E) → IsLive w
        → IsOf table codec IsJson SameJson id (e ∷ es)
        → HasVersion (pos (suc n)) (log w id)
        → n + 1 < 9223372036854775808
        → txs.begin_tx w ≡ ok own
        → (err : Err) × ((append table codec txs w id (pos n) (e ∷ es)).1 ≡ some err)
          × (errors_is err concurrency_code ≡ true)
          × (txs.has_transaction w ≡ false
              → (k : String) → log (append table codec txs w id (pos n) (e ∷ es)).0 k ≡ log w k)
    unfolding append errors_is append_events
    append-taken is_table txs laws w own id n e es live of taken small begun =
        let (live', same) = laws.begun_log w own id begun in
        let inside = append_events table codec own id (pos n) (e ∷ es) in
        let refused : inside.1 ≡ some (taken_error id n) =
          append_events-taken is_table own id n e es live' of
            (subst (HasVersion (pos (suc n))) (sym same) taken) small in
        let choose : Bool → W × Option Err = λ b.
          if b
          then append_events table codec w id (pos n) (e ∷ es)
          else in_own_tx table codec txs w id (pos n) (e ∷ es) (txs.begin_tx w) in
        let rolled_back : in_own_tx table codec txs w id (pos n) (e ∷ es) (txs.begin_tx w)
            ≡ (txs.rollback_tx inside.0, some (taken_error id n)) =
          ap (in_own_tx table codec txs w id (pos n) (e ∷ es)) begun
          ∙ ap (λ o. finished table codec txs (inside.0, o)) refused in
        (
          taken_error id n,
          elim (Bool-cases (txs.has_transaction w)) [
            | inl h ↦
                ap (λ b. (choose b).1) h
                ∙ append_events-taken is_table w id n e es live of taken small
            | inr h ↦ ap (λ b. (choose b).1) h ∙ ap (λ p. p.1) rolled_back
          ],
          refl,
          λ h k.
              ap (λ b. log (choose b).0 k) h
              ∙ ap (λ p. log p.0 k) rolled_back
              ∙ laws.undone_log w own inside.0 k begun
                  (append_from-Within own id (pos n) 0 (e ∷ es)),
        )
