-- ===== src/Order.antt =====
-- exampleapp/ddd/order/domain/model.go with the events of exampleapp/ddd/order/event: the order of
-- the example application, an aggregate of Aggregate. float64 is a type with its operations, a
-- parameter; times are numbers, and a time that is not set is none.
pub mod Moves
pub mod Rebuild
mod Tests
use ddd_qce.Common.{
  ℕ, String, Bool, true, false, not, Option, none, some, List, [], ◌∷◌, map, if◌then◌else◌, str_eq,
}
use ddd_qce.Common.Int.{ℤ}
use ddd_qce.Errors.{Err, Result, ok, error, Arg, text, Run, returns, panics}
use ddd_qce.Aggregate.{
  AggregateRoot, Aggregate, new_aggregate_root, validate as validate_root, apply_change,
}

abbrev pub status_pending : String
status_pending = "pending"

abbrev pub status_paid : String
status_paid = "paid"

abbrev pub status_shipped : String
status_shipped = "shipped"

abbrev pub status_cancelled : String
status_cancelled = "cancelled"

-- The operations of float64 that the order uses.
pub record Float64 (F : Type 0) : Type 0 where
  pub zero : F
  pub add : F → F → F
  pub mul : F → F → F
  pub of_int : ℤ → F

pub record OrderItem (F : Type 0) : Type 0 where
  pub id : String
  pub product_name : String
  pub price : F
  pub quantity : ℤ

-- The fields of Order beside its root.
pub record OrderState (F : Type 0) : Type 0 where
  pub user_id : String
  pub items : List (OrderItem F)
  pub status : String
  pub total_amount : F
  pub created_at : Option ℕ
  pub paid_at : Option ℕ
  pub shipped_at : Option ℕ
  pub cancelled_at : Option ℕ
  pub cancel_reason : String

-- The four events, each with the time of its BaseEvent, and any other event by its type.
pub data OrderEvent (F : Type 0) : Type 0 where
  order_placed : String → F → List String → ℕ → OrderEvent F
  payment_confirmed : ℕ → OrderEvent F
  order_shipped : ℕ → OrderEvent F
  order_cancelled : String → ℕ → OrderEvent F
  other_event : String → OrderEvent F

module _ {F : Type 0} where
  -- `%T` of an event.
  unfoldable pub type_name : OrderEvent F → String
  type_name (order_placed user total names at) = "*event.OrderPlacedEvent"
  type_name (payment_confirmed at) = "*event.PaymentConfirmedEvent"
  type_name (order_shipped at) = "*event.OrderShippedEvent"
  type_name (order_cancelled reason at) = "*event.OrderCancelledEvent"
  type_name (other_event name) = name

  unfoldable pub when : OrderState F → OrderEvent F → OrderState F × Option Err
  when o (order_placed user total names at) = (
    record o {
      user_id = user;
      total_amount = total;
      status = status_pending;
      created_at = some at;
    },
    none,
  )
  when o (payment_confirmed at) = (record o { status = status_paid; paid_at = some at }, none)
  when o (order_shipped at) = (record o { status = status_shipped; shipped_at = some at }, none)
  when o (order_cancelled reason at) =
      (record o { status = status_cancelled; cancelled_at = some at; cancel_reason = reason }, none)
  when o (other_event name) = (o, some (text "order: unhandled event type %T" (Arg.str name ∷ [])))

  unfoldable pub apply :
      Aggregate (OrderEvent F) (OrderState F)
      → OrderEvent F
      → Aggregate (OrderEvent F) (OrderState F) × Option Err
  apply o evt = apply_change type_name when o evt

  unfoldable pub confirm_payment :
      Aggregate (OrderEvent F) (OrderState F)
      → ℕ
      → Aggregate (OrderEvent F) (OrderState F) × Option Err
  unfolding apply
  confirm_payment o now =
      if not (str_eq o.state.status status_pending)
      then (
        o,
        some (
            text "order %s cannot be confirmed payment (status: %s)"
              (Arg.str o.root.id ∷ Arg.str o.state.status ∷ [])),
      )
      else apply o (payment_confirmed now)

  unfoldable pub ship :
      Aggregate (OrderEvent F) (OrderState F)
      → ℕ
      → Aggregate (OrderEvent F) (OrderState F) × Option Err
  unfolding apply
  ship o now =
      if not (str_eq o.state.status status_paid)
      then (
        o,
        some (
            text "order %s cannot be shipped (status: %s)"
              (Arg.str o.root.id ∷ Arg.str o.state.status ∷ [])),
      )
      else apply o (order_shipped now)

  unfoldable pub cancel :
      Aggregate (OrderEvent F) (OrderState F)
      → String
      → ℕ
      → Aggregate (OrderEvent F) (OrderState F) × Option Err
  unfolding apply
  cancel o reason now =
      if str_eq o.state.status status_cancelled
      then (o, some (text "order %s already cancelled" (Arg.str o.root.id ∷ [])))
      else if str_eq o.state.status status_shipped
      then (o, some (text "order %s already shipped, cannot cancel" (Arg.str o.root.id ∷ [])))
      else apply o (order_cancelled reason now)

  unfoldable pub item_names : List (OrderItem F) → List String
  item_names items = map (λ i. i.product_name) items

  -- The loop of validate over the items.
  unfoldable pub validate_items : List (OrderItem F) → Option Err
  validate_items [] = none
  validate_items (i ∷ is) =
      if str_eq i.id "" then some (text "order item has empty product ID" []) else validate_items is

  abbrev no_items : List (OrderItem F) → Bool
  no_items [] = true
  no_items (i ∷ is) = false

  unfoldable pub validate : Aggregate (OrderEvent F) (OrderState F) → Option Err
  unfolding validate_items
  validate o = elim (validate_root o.root) [
    | some err ↦ some err
    | none ↦
        if str_eq o.state.user_id ""
        then some (text "order must have a user ID" [])
        else if no_items o.state.items
        then some (text "order must have at least one item" [])
        else validate_items o.state.items
  ]

  module _ (float : Float64 F) where
    unfoldable pub subtotal : OrderItem F → F
    subtotal i = float.mul i.price (float.of_int i.quantity)

    unfoldable pub total_from : F → List (OrderItem F) → F
    unfolding subtotal
    total_from t [] = t
    total_from t (i ∷ is) = total_from (float.add t (subtotal i)) is

    unfoldable pub calculate_total : List (OrderItem F) → F
    unfolding total_from
    calculate_total items = total_from float.zero items

    -- A Go struct of zero values.
    abbrev pub zero_state : OrderState F
    zero_state = record {
      user_id = "";
      items = [];
      status = "";
      total_amount = float.zero;
      created_at = none;
      paid_at = none;
      shipped_at = none;
      cancelled_at = none;
      cancel_reason = "";
    }

    -- The order before its first event; the two times are those of NewOrder and of the event.
    abbrev pub drafted :
        AggregateRoot (OrderEvent F)
        → String
        → List (OrderItem F)
        → ℕ
        → Aggregate (OrderEvent F) (OrderState F)
    drafted root user items now = record {
      root = root;
      state = record zero_state {
        user_id = user;
        items = items;
        status = status_pending;
        created_at = some now;
      };
    }

    abbrev pub with_total :
        Aggregate (OrderEvent F) (OrderState F) → Aggregate (OrderEvent F) (OrderState F)
    with_total o = record o {
      state = record o.state { total_amount = calculate_total o.state.items };
    }

    abbrev pub placed_event : Aggregate (OrderEvent F) (OrderState F) → ℕ → OrderEvent F
    placed_event o at =
        order_placed o.state.user_id o.state.total_amount (item_names o.state.items) at

    abbrev pub place :
        Aggregate (OrderEvent F) (OrderState F)
        → ℕ
        → Result (Aggregate (OrderEvent F) (OrderState F))
    place o at = elim (apply o (placed_event o at)).1 [
      | some err ↦ error err
      | none ↦ ok (apply o (placed_event o at)).0
    ]

    unfoldable pub new_order :
        String
        → String
        → List (OrderItem F)
        → ℕ
        → ℕ
        → Result (Aggregate (OrderEvent F) (OrderState F))
    unfolding validate calculate_total item_names apply
    new_order id user items now at = elim (new_aggregate_root id) [
      | error err ↦ error err
      | ok root ↦ elim (validate (drafted root user items now)) [
        | some err ↦ error err
        | none ↦ place (with_total (drafted root user items now)) at
      ]
    ]

    abbrev pub blank : AggregateRoot (OrderEvent F) → Aggregate (OrderEvent F) (OrderState F)
    blank root = record { root = root; state = zero_state }

    unfoldable pub new_order_for_replay : String → Run (Aggregate (OrderEvent F) (OrderState F))
    new_order_for_replay id = elim (new_aggregate_root id) [
      | error err ↦ panics
      | ok root ↦ returns (blank root)
    ]
