-- ===== src/Relationship/Tests.antt =====
-- Runs of the registry and its graph.
use ddd_qce.Common.{◌≡◌, refl, List, [], ◌∷◌, map, lookup, insert}
use ddd_qce.Relationship.{
  RelationshipRegistry, new_registry, get_event_handlers, has_name, record_handler_emits,
  record_event_handler, record_command_handler, record_type_domain,
}
use ddd_qce.Relationship.Records.{
  RegistryOp, event_handler, command_handler, handler_emits, type_domain, run_registry,
  replay_event, Distinct, get_event_handlers-run_registry,
}
use ddd_qce.Relationship.Graphs.{Filter, build_graph}
use ddd_qce.Relationship.Edges.{record_edges, build_graph-record_edges}

abbrev shop_ops : List RegistryOp
shop_ops =
    type_domain "PlaceOrder" "order"
    ∷ command_handler "PlaceOrder" "PlaceOrderHandler"
    ∷ event_handler "OrderPlaced" "Reserve"
    ∷ event_handler "OrderPlaced" "Mail"
    ∷ event_handler "OrderPlaced" "Reserve"
    ∷ handler_emits "PlaceOrderHandler" "OrderPlaced"
    ∷ []

abbrev shop : RelationshipRegistry
shop = run_registry new_registry shop_ops

abbrev only_orders : Filter
only_orders = record { domain_filter = "order"; type_filter = "" }

replay_shop : replay_event "OrderPlaced" [] shop_ops ≡ "Reserve" ∷ "Mail" ∷ []
unfolding replay_event
replay_shop = refl

get_event_handlers-run_registry_example :
    (get_event_handlers shop "OrderPlaced" ≡ replay_event "OrderPlaced" [] shop_ops)
    × Distinct (get_event_handlers shop "OrderPlaced")
get_event_handlers-run_registry_example = get_event_handlers-run_registry shop_ops "OrderPlaced"

build_graph-record_edges_example : (build_graph shop only_orders).edges ≡ record_edges shop
build_graph-record_edges_example = build_graph-record_edges shop only_orders

node_ids :
    map (λ n. n.id) (build_graph shop only_orders).nodes ≡ "PlaceOrder" ∷ "PlaceOrderHandler" ∷ []
unfolding build_graph run_registry record_handler_emits has_name lookup record_event_handler
    record_command_handler record_type_domain new_registry insert
node_ids = refl
