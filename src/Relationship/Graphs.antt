-- ===== src/Relationship/Graphs.antt =====
-- BuildGraph of relationship/registry.go: the graph of the registry under two filters.
use ddd_qce.Common.{
  String, Bool, true, not, ◌&&◌, List, [], ◌∷◌, ◌++◌, map, if◌then◌else◌, str_eq, Dict, lookup,
  insert,
}
use ddd_qce.Common.Sort.{sort_by, str_less}
use ddd_qce.Relationship.{RelationshipRegistry, or_empty, keys}

pub record Node : Type 0 where
  pub id : String
  pub node_type : String
  pub domain : String

pub record Edge : Type 0 where
  pub source : String
  pub target : String
  pub edge_type : String

pub record Graph : Type 0 where
  pub nodes : List Node
  pub edges : List Edge
  pub domains : List String

-- nodesMap, edges and domainsMap while the graph is built.
pub record Build : Type 0 where
  pub nodes_map : Dict Node
  pub edges : List Edge
  pub domains_map : Dict Bool

-- The two arguments of BuildGraph.
pub record Filter : Type 0 where
  pub domain_filter : String
  pub type_filter : String

-- Whether addNode returns early.
unfoldable pub is_left_out : Filter → String → String → Bool
is_left_out f node_type domain =
    if not (str_eq f.domain_filter "") && not (str_eq domain f.domain_filter)
    then true
    else not (str_eq f.type_filter "") && not (str_eq node_type f.type_filter)

unfoldable pub add_node : Filter → String → String → String → Build → Build
unfolding is_left_out
add_node f id node_type domain b = if is_left_out f node_type domain then b else record b {
  nodes_map = insert id (record { id = id; node_type = node_type; domain = domain }) b.nodes_map;
  domains_map = if str_eq domain "" then b.domains_map else insert domain true b.domains_map;
}

unfoldable pub add_edge : String → String → String → Build → Build
add_edge source target edge_type b = record b {
  edges = b.edges ++ record { source = source; target = target; edge_type = edge_type } ∷ [];
}

-- The loops over commandHandlers and queryHandlers.
unfoldable pub add_handled : Filter → Dict String → String → Dict String → Build → Build
unfolding add_node add_edge
add_handled f domains kind [] b = b
add_handled f domains kind ((msg, handler) ∷ rest) b =
    let domain = or_empty (lookup msg domains) in
    add_handled f domains kind rest (
      add_edge msg handler "handles"
        (add_node f handler "handler" domain (add_node f msg kind domain b)))

-- The inner loop over the handlers of one event.
unfoldable pub add_subscribers : Filter → String → String → List String → Build → Build
unfolding add_node add_edge
add_subscribers f evt domain [] b = b
add_subscribers f evt domain (handler ∷ rest) b =
    add_subscribers f evt domain rest
      (add_edge evt handler "subscribes" (add_node f handler "handler" domain b))

unfoldable pub add_subscriptions : Filter → Dict String → Dict (List String) → Build → Build
unfolding add_subscribers
add_subscriptions f domains [] b = b
add_subscriptions f domains ((evt, handlers) ∷ rest) b =
    let domain = or_empty (lookup evt domains) in
    add_subscriptions f domains rest
      (add_subscribers f evt domain handlers (add_node f evt "event" domain b))

-- The domain of an emitted event, or else that of its handler.
abbrev pub emitted_domain : String → String → String
emitted_domain evt_domain handler_domain =
    if str_eq evt_domain "" then handler_domain else evt_domain

-- The inner loop over the events of one handler.
unfoldable pub add_emitted : Filter → Dict String → String → String → List String → Build → Build
unfolding add_node add_edge
add_emitted f domains handler handler_domain [] b = b
add_emitted f domains handler handler_domain (evt ∷ rest) b =
    add_emitted f domains handler handler_domain rest (
      add_edge handler evt "emits"
        (add_node f evt "event" (emitted_domain (or_empty (lookup evt domains)) handler_domain) b))

unfoldable pub add_emissions : Filter → Dict String → Dict (List String) → Build → Build
unfolding add_emitted
add_emissions f domains [] b = b
add_emissions f domains ((handler, events) ∷ rest) b =
    let domain = or_empty (lookup handler domains) in
    add_emissions f domains rest
      (add_emitted f domains handler domain events (add_node f handler "handler" domain b))

-- The four loops, one after the other.
unfoldable pub build : Filter → RelationshipRegistry → Build
unfolding add_handled add_subscriptions add_emissions
build f r =
    let empty : Build = record { nodes_map = []; edges = []; domains_map = [] } in
    add_emissions f r.type_domains r.handler_emits (
      add_subscriptions f r.type_domains r.event_handlers (
        add_handled f r.type_domains "query" r.query_handlers
          (add_handled f r.type_domains "command" r.command_handlers empty)))

unfoldable pub node_less : Node → Node → Bool
node_less a b =
    if not (str_eq a.node_type b.node_type)
    then str_less a.node_type b.node_type
    else str_less a.id b.id

abbrev pub values {ℓ} : {V : Type ℓ} → Dict V → List V
values m = map (λ kv. kv.1) m

unfoldable pub build_graph : RelationshipRegistry → Filter → Graph
unfolding build node_less
build_graph r f =
    let b = build f r in
    record {
      nodes = sort_by node_less (values b.nodes_map);
      edges = b.edges;
      domains = sort_by str_less (keys b.domains_map);
    }
