-- ===== src/Order/Rebuild.antt =====
-- What an event-sourced reload of an order of exampleapp/ddd/order/domain/model.go gives back.
use ddd_qce.Common.{
  ℕ, ◌≡◌, refl, ap, sym, ◌∙◌, subst, String, Bool, true, false, Option, none, some, List, [], ◌∷◌,
  ◌++◌, arith, Bool-cases, inl, inr, ◌⊎◌, if◌then◌else◌, not, str_eq,
}
use ddd_qce.Common.Int.{pos, negsuc}
use ddd_qce.Errors.{Err, Result, ok, error, Run, returns, panics}
use ddd_qce.Aggregate.{
  AggregateRoot, Aggregate, apply_change, apply_history, load_from_history, new_aggregate_root,
  err_no_id,
}
use ddd_qce.Aggregate.Replay.{load_from_history-append}
use ddd_qce.Order.{
  Float64, OrderEvent, OrderState, OrderItem, order_placed, payment_confirmed, order_shipped,
  order_cancelled, other_event, when, type_name, apply, confirm_payment, ship, cancel, new_order,
  new_order_for_replay, blank, place, with_total, drafted, placed_event, validate, status_pending,
  status_paid, status_cancelled, status_shipped,
}
use ddd_qce.Order.Moves.{
  OrderCall, order_call, order_calls, confirm_payment_call, ship_call, cancel_call,
}

module _ {F : Type 0} (float : Float64 F) where
  -- The order without its items, and with its events committed.
  abbrev pub reloaded :
      Aggregate (OrderEvent F) (OrderState F) → Aggregate (OrderEvent F) (OrderState F)
  reloaded o = record {
    root = record o.root { uncommitted_events = [] };
    state = record o.state { items = [] };
  }

  -- What is reloaded from the uncommitted events of an order, on a new root.
  Reloads : AggregateRoot (OrderEvent F) → Aggregate (OrderEvent F) (OrderState F) → Type 0
  Reloads root o =
      load_from_history type_name when (blank float root) o.root.uncommitted_events
      ≡ (reloaded o, none)

  -- One more accepted event.
  apply_history-reloaded :
      (o : Aggregate (OrderEvent F) (OrderState F)) (e : OrderEvent F)
      → (apply o e).1 ≡ none
      → (load_from_history type_name when (reloaded o) (e ∷ []) ≡ (reloaded (apply o e).0, none))
        × ((apply o e).0.root.uncommitted_events ≡ o.root.uncommitted_events ++ e ∷ [])
  unfolding load_from_history apply_history apply apply_change when
  apply_history-reloaded o (order_placed user total names at) h = (refl, refl)
  apply_history-reloaded o (payment_confirmed at) h = (refl, refl)
  apply_history-reloaded o (order_shipped at) h = (refl, refl)
  apply_history-reloaded o (order_cancelled reason at) h = (refl, refl)
  apply_history-reloaded o (other_event name) h = absurd (ground (arith, h))

  apply-Reloads :
      (root : AggregateRoot (OrderEvent F)) (o : Aggregate (OrderEvent F) (OrderState F))
      → (e : OrderEvent F) → (apply o e).1 ≡ none
      → Reloads root o
      → Reloads root (apply o e).0
  unfolding Reloads
  apply-Reloads root o e h k =
      let (step, evs) = apply_history-reloaded o e h in
      ap (load_from_history type_name when (blank float root)) evs
      ∙ load_from_history-append type_name when (blank float root) (reloaded o)
          o.root.uncommitted_events (e ∷ []) k
      ∙ step

  IsCall :
      Aggregate (OrderEvent F) (OrderState F) → Aggregate (OrderEvent F) (OrderState F) → Type 0
  IsCall o o' = (o' ≡ o) ⊎ ((e : OrderEvent F) × ((apply o e).1 ≡ none) × (o' ≡ (apply o e).0))

  confirmed :
      (o : Aggregate (OrderEvent F) (OrderState F)) (now : ℕ)
      → (apply o (payment_confirmed now)).1 ≡ none
  unfolding apply apply_change when
  confirmed o now = refl

  shipped :
      (o : Aggregate (OrderEvent F) (OrderState F)) (now : ℕ)
      → (apply o (order_shipped now)).1 ≡ none
  unfolding apply apply_change when
  shipped o now = refl

  cancelled :
      (o : Aggregate (OrderEvent F) (OrderState F)) (r : String) (now : ℕ)
      → (apply o (order_cancelled r now)).1 ≡ none
  unfolding apply apply_change when
  cancelled o r now = refl

  guarded :
      (o : Aggregate (OrderEvent F) (OrderState F)) (b : Bool) (err : Err) (e : OrderEvent F)
      → (apply o e).1 ≡ none
      → IsCall o (if b then (o, some err) else apply o e).0
  unfolding IsCall
  guarded o true err e h = inl refl
  guarded o false err e h = inr (e, h, refl)

  guarded_twice :
      (o : Aggregate (OrderEvent F) (OrderState F)) (b c : Bool) (x y : Err) (e : OrderEvent F)
      → (apply o e).1 ≡ none
      → IsCall o (if b then (o, some x) else if c then (o, some y) else apply o e).0
  unfolding IsCall
  guarded_twice o true c x y e h = inl refl
  guarded_twice o false c x y e h = guarded o c y e h

  -- A call is an accepted event or changes nothing.
  order_call-apply :
      (o : Aggregate (OrderEvent F) (OrderState F)) (c : OrderCall) → IsCall o (order_call o c).0
  unfolding IsCall order_call confirm_payment ship cancel
  order_call-apply o (confirm_payment_call now) =
      guarded o (not (str_eq o.state.status status_pending)) _ (payment_confirmed now)
        (confirmed o now)
  order_call-apply o (ship_call now) =
      guarded o (not (str_eq o.state.status status_paid)) _ (order_shipped now) (shipped o now)
  order_call-apply o (cancel_call r now) =
      guarded_twice o (str_eq o.state.status status_cancelled)
        (str_eq o.state.status status_shipped) _ _ (order_cancelled r now) (cancelled o r now)

  order_calls-Reloads :
      (root : AggregateRoot (OrderEvent F)) (cs : List OrderCall)
      → (o : Aggregate (OrderEvent F) (OrderState F)) → Reloads root o
      → Reloads root (order_calls o cs)
  unfolding order_calls IsCall
  order_calls-Reloads root [] o k = k
  order_calls-Reloads root (c ∷ cs) o k = elim (order_call-apply o c) [
    | inl q ↦ order_calls-Reloads root cs (order_call o c).0 (subst (Reloads root) (sym q) k)
    | inr (e, h, q) ↦
        order_calls-Reloads root cs (order_call o c).0
          (subst (Reloads root) (sym q) (apply-Reloads root o e h k))
  ]

  -- An order just placed on a new root.
  place-Reloads :
      (id user : String) (items : List (OrderItem F)) (now at : ℕ)
      → let root : AggregateRoot (OrderEvent F) = record {
        id = id;
        version = pos 0;
        snapshot_version = negsuc 0;
        uncommitted_events = [];
      } in
        let d = with_total float (drafted float root user items now) in
        Reloads root (apply d (placed_event float d at)).0
  unfolding Reloads load_from_history apply_history apply apply_change when
  place-Reloads id user items now at = refl

  abbrev after_validate :
      AggregateRoot (OrderEvent F)
      → String
      → List (OrderItem F)
      → ℕ
      → ℕ
      → Option Err
      → Result (Aggregate (OrderEvent F) (OrderState F))
  after_validate root user items now at (some err) = error err
  after_validate root user items now at none =
      place float (with_total float (drafted float root user items now)) at

  -- NewOrder after its root.
  abbrev after_root :
      String
      → List (OrderItem F)
      → ℕ
      → ℕ
      → Result (AggregateRoot (OrderEvent F))
      → Result (Aggregate (OrderEvent F) (OrderState F))
  after_root user items now at (error err) = error err
  after_root user items now at (ok root) =
      after_validate root user items now at (validate (drafted float root user items now))

  new_order-after_root :
      (id user : String) (items : List (OrderItem F)) (now at : ℕ)
      → new_order float id user items now at ≡ after_root user items now at (new_aggregate_root id)
  unfolding new_order
  new_order-after_root id user items now at = refl

  placed_is :
      (root : AggregateRoot (OrderEvent F)) (user : String) (items : List (OrderItem F))
      → (now at : ℕ) (v : Option Err) (o : Aggregate (OrderEvent F) (OrderState F))
      → after_validate root user items now at v ≡ ok o
      → let d = with_total float (drafted float root user items now) in
        (apply d (placed_event float d at)).0 ≡ o
  unfolding apply apply_change when
  placed_is root user items now at (some err) o h = absurd (ground (arith, h))
  placed_is root user items now at none o h = ap (λ r. elim r [ ok x ↦ x | error e ↦ o ]) h

  new_order-Reloads :
      (id user : String) (items : List (OrderItem F)) (now at : ℕ)
      → (o : Aggregate (OrderEvent F) (OrderState F)) → new_order float id user items now at ≡ ok o
      → (root : AggregateRoot (OrderEvent F)) × (new_order_for_replay float id
          ≡ returns (blank float root))
        × Reloads root o
  unfolding new_order_for_replay new_aggregate_root
  new_order-Reloads id user items now at o h = elim (Bool-cases (str_eq id "")) [
    | inl e ↦
        let refused : new_aggregate_root id ≡ error err_no_id = ground (arith, e) in
        absurd (
          ground (
            arith,
            sym (ap (after_root user items now at) refused)
                ∙ sym (new_order-after_root id user items now at)
                ∙ h,
          ))
    | inr e ↦
        let root : AggregateRoot (OrderEvent F) = record {
          id = id;
          version = pos 0;
          snapshot_version = negsuc 0;
          uncommitted_events = [];
        } in
        let made : new_aggregate_root id ≡ ok root = ground (arith, e) in
        (
          root,
          ap
              (λ r. elim r as (λ x. Run (Aggregate (OrderEvent F) (OrderState F))) [
                | error err ↦ panics
                | ok x ↦ returns (blank float x)
              ])
              made,
          subst (Reloads root)
              (placed_is root user items now at (validate (drafted float root user items now)) o (
                sym (ap (after_root user items now at) made)
                ∙ sym (new_order-after_root id user items now at)
                ∙ h))
              (place-Reloads id user items now at),
        )
  ]

-- An order that NewOrder made, after any sequence of ConfirmPayment, Ship and Cancel, is reloaded
-- from its uncommitted events by NewOrderForReplay and LoadFromHistory without an error or a panic
-- as it was, its version included, except that its items are gone and that no event is
-- uncommitted any more.
pub order_calls-reloaded :
    {F : Type 0} (float : Float64 F) (id user : String) (items : List (OrderItem F)) (now at : ℕ)
    → (o : Aggregate (OrderEvent F) (OrderState F)) (cs : List OrderCall)
    → new_order float id user items now at ≡ ok o
    → (start : Aggregate (OrderEvent F) (OrderState F)) × (new_order_for_replay float id
        ≡ returns start)
      × (load_from_history type_name when start (order_calls o cs).root.uncommitted_events
          ≡ (reloaded float (order_calls o cs), none))
unfolding Reloads
order_calls-reloaded float id user items now at o cs h =
    let (root, start, k) = new_order-Reloads float id user items now at o h in
    (blank float root, start, order_calls-Reloads float root cs o k)
