-- ===== src/Order/Tests.antt =====
-- Runs of an order.
use ddd_qce.Order.Moves.{order_replies, after_events, event_of}
use ddd_qce.Common.{Bool, is_some, map, ◌++◌}
use ddd_qce.Common.{ℕ, ◌+◌, ◌*◌, ◌≡◌, refl, List, [], ◌∷◌, some, none}
use ddd_qce.Common.Int.{pos, negsuc, pos_part, add64}
use ddd_qce.Errors.{ok, returns}
use ddd_qce.Aggregate.{
  Aggregate, load_from_history, new_aggregate_root, validate as validate_root, apply_change,
}
use ddd_qce.Order.{
  Float64, OrderItem, OrderState, OrderEvent, when, type_name, new_order, new_order_for_replay,
  validate, validate_items, calculate_total, item_names, apply, order_placed,
}
use ddd_qce.Order.Moves.{
  Status, pending, status_of, OrderCall, confirm_payment_call, ship_call, cancel_call, Reaches,
  order_calls, order_calls-Reaches,
}
use ddd_qce.Order.Rebuild.{reloaded, order_calls-reloaded}

-- Whole amounts stand for float64.
abbrev whole : Float64 ℕ
whole = record { zero = 0; add = λ a b. a + b; mul = λ a b. a * b; of_int = λ n. pos_part n }

abbrev two_mice : List (OrderItem ℕ)
two_mice = record { id = "mouse"; product_name = "Mouse"; price = 30; quantity = pos 2 } ∷ []

abbrev placed : Aggregate (OrderEvent ℕ) (OrderState ℕ)
placed = record {
  root = record {
    id = "o1";
    version = pos 1;
    snapshot_version = negsuc 0;
    uncommitted_events = order_placed "ann" 60 ("Mouse" ∷ []) 6 ∷ [];
  };
  state = record {
    user_id = "ann";
    items = two_mice;
    status = "pending";
    total_amount = 60;
    created_at = some 6;
    paid_at = none;
    shipped_at = none;
    cancelled_at = none;
    cancel_reason = "";
  };
}

new_order-placed : new_order whole "o1" "ann" two_mice 5 6 ≡ ok placed
unfolding new_order validate validate_items validate_root calculate_total item_names apply
    apply_change when new_aggregate_root add64
new_order-placed = refl

-- Paid, shipped, then too late to cancel.
abbrev some_calls : List OrderCall
some_calls = confirm_payment_call 7 ∷ ship_call 8 ∷ cancel_call "late" 9 ∷ []

calls_status : (order_calls placed some_calls).state.status ≡ "shipped"
unfolding order_calls apply_change when apply
calls_status = refl

order_calls-Reaches_example :
    (t : Status) × (taken : List OrderCall) × (rs : List Bool) × Reaches pending some_calls t taken
      rs
    × (map is_some (order_replies placed some_calls) ≡ rs)
    × (order_calls placed some_calls ≡ after_events placed (map event_of taken))
    × ((order_calls placed some_calls).state.status ≡ status_of t)
    × ((order_calls placed some_calls).root.uncommitted_events
        ≡ placed.root.uncommitted_events ++ map event_of taken)
order_calls-Reaches_example = order_calls-Reaches placed some_calls pending refl

order_calls-reloaded_example :
    (start : Aggregate (OrderEvent ℕ) (OrderState ℕ)) × (new_order_for_replay whole "o1"
      ≡ returns start)
    × (load_from_history type_name when start
          (order_calls placed some_calls).root.uncommitted_events
        ≡ (reloaded whole (order_calls placed some_calls), none))
order_calls-reloaded_example =
    order_calls-reloaded whole "o1" "ann" two_mice 5 6 placed some_calls new_order-placed
