-- ===== src/Order/Moves.antt =====
-- The states of an order of exampleapp/ddd/order/domain/model.go.
use ddd_qce.Common.{Bool, true, false, is_some, map, append-nil, append_assoc}
use ddd_qce.Common.{
  ℕ, ◌≡◌, refl, ap, sym, ◌∙◌, subst, ◌⊎◌, inl, inr, ◌≢◌, ◌++◌, String, Option, none, some, List, [],
  ◌∷◌, arith,
}
use ddd_qce.Errors.{Err}
use ddd_qce.Aggregate.{Aggregate, apply_change}
use ddd_qce.Order.{
  OrderEvent, OrderState, payment_confirmed, order_shipped, order_cancelled, when, apply,
  confirm_payment, ship, cancel, status_pending, status_paid, status_shipped, status_cancelled,
}

-- The abstract view: four states, and which call leads from where to where.
pub data Status : Type 0 where
  pending : Status
  paid : Status
  shipped : Status
  cancelled : Status

abbrev pub status_of : Status → String
status_of pending = status_pending
status_of paid = status_paid
status_of shipped = status_shipped
status_of cancelled = status_cancelled

pub data OrderCall : Type 0 where
  confirm_payment_call : ℕ → OrderCall
  ship_call : ℕ → OrderCall
  cancel_call : String → ℕ → OrderCall

-- One step of the abstract order; none is a refusal.
pub data Moves : Status → OrderCall → Option Status → Type 0 where
  pays : {now : ℕ} → Moves pending (confirm_payment_call now) (some paid)
  no_payment : {s : Status} {now : ℕ} → s ≢ pending → Moves s (confirm_payment_call now) none
  ships : {now : ℕ} → Moves paid (ship_call now) (some shipped)
  no_shipping : {s : Status} {now : ℕ} → s ≢ paid → Moves s (ship_call now) none
  cancels_pending : {r : String} {now : ℕ} → Moves pending (cancel_call r now) (some cancelled)
  cancels_paid : {r : String} {now : ℕ} → Moves paid (cancel_call r now) (some cancelled)
  too_late : {r : String} {now : ℕ} → Moves shipped (cancel_call r now) none
  cancelled_before : {r : String} {now : ℕ} → Moves cancelled (cancel_call r now) none

-- The steps of a sequence of calls, with the calls that are accepted, in order, and for each call
-- whether it is refused.
pub data Reaches : Status → List OrderCall → Status → List OrderCall → List Bool → Type 0 where
  stays : {s : Status} → Reaches s [] s [] []
  moves :
      {s t u : Status} {c : OrderCall} {cs taken : List OrderCall} {rs : List Bool}
      → Moves s c (some t)
      → Reaches t cs u taken rs
      → Reaches s (c ∷ cs) u (c ∷ taken) (false ∷ rs)
  refuses :
      {s u : Status} {c : OrderCall} {cs taken : List OrderCall} {rs : List Bool}
      → Moves s c none
      → Reaches s cs u taken rs
      → Reaches s (c ∷ cs) u taken (true ∷ rs)

module _ {F : Type 0} where
  unfoldable pub order_call :
      Aggregate (OrderEvent F) (OrderState F)
      → OrderCall
      → Aggregate (OrderEvent F) (OrderState F) × Option Err
  unfolding confirm_payment ship cancel
  order_call o (confirm_payment_call now) = confirm_payment o now
  order_call o (ship_call now) = ship o now
  order_call o (cancel_call reason now) = cancel o reason now

  -- A client that goes on after an error.
  unfoldable pub order_calls :
      Aggregate (OrderEvent F) (OrderState F)
      → List OrderCall
      → Aggregate (OrderEvent F) (OrderState F)
  unfolding order_call
  order_calls o [] = o
  order_calls o (c ∷ cs) = order_calls (order_call o c).0 cs

  -- What each call returns to that client.
  unfoldable pub order_replies :
      Aggregate (OrderEvent F) (OrderState F) → List OrderCall → List (Option Err)
  unfolding order_call
  order_replies o [] = []
  order_replies o (c ∷ cs) = (order_call o c).1 ∷ order_replies (order_call o c).0 cs

  -- The event of a call that is accepted.
  abbrev pub event_of : OrderCall → OrderEvent F
  event_of (confirm_payment_call now) = payment_confirmed now
  event_of (ship_call now) = order_shipped now
  event_of (cancel_call reason now) = order_cancelled reason now

  -- The order after events and nothing else.
  unfoldable pub after_events :
      Aggregate (OrderEvent F) (OrderState F)
      → List (OrderEvent F)
      → Aggregate (OrderEvent F) (OrderState F)
  unfolding apply
  after_events o [] = o
  after_events o (e ∷ es) = after_events (apply o e).0 es

  -- An accepted call does nothing but apply its one event.
  Accepted :
      Aggregate (OrderEvent F) (OrderState F)
      → OrderCall
      → Status
      → Aggregate (OrderEvent F) (OrderState F) × Option Err
      → Type 0
  Accepted o c t r =
      (r.1 ≡ none)
      × (r.0 ≡ (apply o (event_of c)).0)
      × (r.0.state.status ≡ status_of t)
      × (r.0.root.uncommitted_events ≡ o.root.uncommitted_events ++ event_of c ∷ [])

  -- What a call does at a status: an accepted step, or an error and no change.
  Outcome : OrderCall → Status → Aggregate (OrderEvent F) (OrderState F) → Type 0
  Outcome c s o =
      ((t : Status) × Moves s c (some t) × Accepted o c t (order_call o c))
      ⊎ (Moves s c none × ((e : Err) × (order_call o c ≡ (o, some e))))

  abbrev at_status :
      Aggregate (OrderEvent F) (OrderState F) → String → Aggregate (OrderEvent F) (OrderState F)
  at_status o s = record o { state = record o.state { status = s } }

  at_status-Outcome :
      (o : Aggregate (OrderEvent F) (OrderState F)) (c : OrderCall) (s : Status)
      → Outcome c s (at_status o (status_of s))
  unfolding Outcome order_call Accepted confirm_payment ship cancel apply apply_change when
  at_status-Outcome o (confirm_payment_call now) pending =
      inl (paid, pays, (refl, refl, refl, refl))
  at_status-Outcome o (confirm_payment_call now) paid =
      inr (no_payment (λ p. absurd (ground arith)), (_, refl))
  at_status-Outcome o (confirm_payment_call now) shipped =
      inr (no_payment (λ p. absurd (ground arith)), (_, refl))
  at_status-Outcome o (confirm_payment_call now) cancelled =
      inr (no_payment (λ p. absurd (ground arith)), (_, refl))
  at_status-Outcome o (ship_call now) pending =
      inr (no_shipping (λ p. absurd (ground arith)), (_, refl))
  at_status-Outcome o (ship_call now) paid = inl (shipped, ships, (refl, refl, refl, refl))
  at_status-Outcome o (ship_call now) shipped =
      inr (no_shipping (λ p. absurd (ground arith)), (_, refl))
  at_status-Outcome o (ship_call now) cancelled =
      inr (no_shipping (λ p. absurd (ground arith)), (_, refl))
  at_status-Outcome o (cancel_call r now) pending =
      inl (cancelled, cancels_pending, (refl, refl, refl, refl))
  at_status-Outcome o (cancel_call r now) paid =
      inl (cancelled, cancels_paid, (refl, refl, refl, refl))
  at_status-Outcome o (cancel_call r now) shipped = inr (too_late, (_, refl))
  at_status-Outcome o (cancel_call r now) cancelled = inr (cancelled_before, (_, refl))

  order_call-Outcome :
      (o : Aggregate (OrderEvent F) (OrderState F)) (c : OrderCall) (s : Status)
      → o.state.status ≡ status_of s
      → Outcome c s o
  order_call-Outcome o c s h =
      subst (Outcome c s) (sym (ap (at_status o) h)) (at_status-Outcome o c s)

  -- Any sequence of ConfirmPayment, Ship and Cancel on an order in one of the four states does
  -- what the steps do: pending to paid to shipped, and pending or paid to cancelled; a call that is
  -- such a step returns no error and adds its event, and any other is refused with an error and
  -- changes nothing. So the order is the old one after the events of the accepted calls alone, in
  -- the state that the steps reach, with these events added in order to the uncommitted ones.
  pub order_calls-Reaches :
      (o : Aggregate (OrderEvent F) (OrderState F)) (cs : List OrderCall) (s : Status)
      → o.state.status ≡ status_of s
      → (t : Status) × (taken : List OrderCall) × (rs : List Bool) × Reaches s cs t taken rs
        × (map is_some (order_replies o cs) ≡ rs)
        × (order_calls o cs ≡ after_events o (map event_of taken))
        × ((order_calls o cs).state.status ≡ status_of t)
        × ((order_calls o cs).root.uncommitted_events
            ≡ o.root.uncommitted_events ++ map event_of taken)
  unfolding order_calls order_replies after_events Outcome Accepted
  order_calls-Reaches o [] s h =
      (s, [], [], stays, refl, refl, h, sym (append-nil o.root.uncommitted_events))
  order_calls-Reaches o (c ∷ cs) s h = elim (order_call-Outcome o c s h) [
    | inl (t, m, (no_error, applied, at, evs)) ↦
        let (u, taken, rs, r, replies, same, st, all) =
          order_calls-Reaches (order_call o c).0 cs t at in
        (
          u,
          c ∷ taken,
          false ∷ rs,
          moves m r,
          ap (λ x. is_some x ∷ map is_some (order_replies (order_call o c).0 cs)) no_error
              ∙ ap (◌∷◌ false) replies,
          same ∙ ap (λ x. after_events x (map event_of taken)) applied,
          st,
          all
              ∙ ap (λ x. x ++ map event_of taken) evs
              ∙ append_assoc o.root.uncommitted_events (event_of c ∷ []) (map event_of taken),
        )
    | inr (m, (e, q)) ↦
        let (u, taken, rs, r, replies, same, st, all) = order_calls-Reaches o cs s h in
        (
          u,
          taken,
          true ∷ rs,
          refuses m r,
          ap (λ p. is_some p.1 ∷ map is_some (order_replies p.0 cs)) q ∙ ap (◌∷◌ true) replies,
          ap (λ p. order_calls p.0 cs) q ∙ same,
          ap (λ p. (order_calls p.0 cs).state.status) q ∙ st,
          ap (λ p. (order_calls p.0 cs).root.uncommitted_events) q ∙ all,
        )
  ]
