-- ===== src/Relationship/Edges.antt =====
-- The edges of the graph of relationship/registry.go.
use ddd_qce.Common.{
  ◌≡◌, sym, ap, ◌∙◌, String, List, [], ◌∷◌, ◌++◌, map, append-nil, append_assoc, arith, Dict,
  lookup,
}
use ddd_qce.Relationship.{RelationshipRegistry, or_empty}
use ddd_qce.Relationship.Graphs.{
  Edge, Build, Filter, add_node, add_edge, add_handled, add_subscribers, add_subscriptions,
  add_emitted, add_emissions, build, build_graph,
}

abbrev edge : String → String → String → Edge
edge edge_type source target = record { source = source; target = target; edge_type = edge_type }

-- The records as edges.
abbrev pub pair_edges : Dict String → List Edge
pair_edges [] = []
pair_edges ((k, v) ∷ m) = edge "handles" k v ∷ pair_edges m

abbrev pub fan_edges : String → Dict (List String) → List Edge
fan_edges kind [] = []
fan_edges kind ((k, vs) ∷ m) = map (edge kind k) vs ++ fan_edges kind m

abbrev pub record_edges : RelationshipRegistry → List Edge
record_edges r =
    pair_edges r.command_handlers
    ++ (pair_edges r.query_handlers
        ++ (fan_edges "subscribes" r.event_handlers ++ fan_edges "emits" r.handler_emits))

module _ (f : Filter) where
  add_node-edges :
      (id kind domain : String) (b : Build) → (add_node f id kind domain b).edges ≡ b.edges
  unfolding add_node
  add_node-edges id kind domain b = ground arith

  add_handled-edges :
      (ds : Dict String) (kind : String) (m : Dict String) (b : Build)
      → (add_handled f ds kind m b).edges ≡ b.edges ++ pair_edges m
  unfolding add_handled add_edge
  add_handled-edges ds kind [] b = sym (append-nil b.edges)
  add_handled-edges ds kind ((k, v) ∷ m) b =
      let d = or_empty (lookup k ds) in
      add_handled-edges ds kind m _
      ∙ ap (λ es. (es ++ edge "handles" k v ∷ []) ++ pair_edges m)
          (add_node-edges v "handler" d (add_node f k kind d b) ∙ add_node-edges k kind d b)
      ∙ append_assoc b.edges (edge "handles" k v ∷ []) (pair_edges m)

  add_subscribers-edges :
      (evt domain : String) (hs : List String) (b : Build)
      → (add_subscribers f evt domain hs b).edges ≡ b.edges ++ map (edge "subscribes" evt) hs
  unfolding add_subscribers add_edge
  add_subscribers-edges evt domain [] b = sym (append-nil b.edges)
  add_subscribers-edges evt domain (h ∷ hs) b =
      simp (add_subscribers-edges evt domain hs, add_node-edges, append_assoc)

  add_subscriptions-edges :
      (ds : Dict String) (m : Dict (List String)) (b : Build)
      → (add_subscriptions f ds m b).edges ≡ b.edges ++ fan_edges "subscribes" m
  unfolding add_subscriptions
  add_subscriptions-edges ds [] b = sym (append-nil b.edges)
  add_subscriptions-edges ds ((k, hs) ∷ m) b =
      simp (add_subscriptions-edges ds m, add_subscribers-edges, add_node-edges, append_assoc)

  add_emitted-edges :
      (ds : Dict String) (handler domain : String) (es : List String) (b : Build)
      → (add_emitted f ds handler domain es b).edges ≡ b.edges ++ map (edge "emits" handler) es
  unfolding add_emitted add_edge
  add_emitted-edges ds handler domain [] b = sym (append-nil b.edges)
  add_emitted-edges ds handler domain (e ∷ es) b =
      simp (add_emitted-edges ds handler domain es, add_node-edges, append_assoc)

  add_emissions-edges :
      (ds : Dict String) (m : Dict (List String)) (b : Build)
      → (add_emissions f ds m b).edges ≡ b.edges ++ fan_edges "emits" m
  unfolding add_emissions
  add_emissions-edges ds [] b = sym (append-nil b.edges)
  add_emissions-edges ds ((k, es) ∷ m) b =
      simp (add_emissions-edges ds m, add_emitted-edges, add_node-edges, append_assoc)

-- The edges of the graph are the records of the registry, one edge for each command with its
-- handler, each query with its handler, each handler of an event and each event that a handler
-- emits, in this order: the two filters leave out no edge.
pub build_graph-record_edges :
    (r : RelationshipRegistry) (f : Filter) → (build_graph r f).edges ≡ record_edges r
unfolding build_graph build
build_graph-record_edges r f =
    simp (add_emissions-edges f, add_subscriptions-edges f, add_handled-edges f, append_assoc)
