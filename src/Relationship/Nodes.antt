-- ===== src/Relationship/Nodes.antt =====
-- The nodes of the graph of relationship/registry.go.
use ddd_qce.Common.{
  ◌≡◌, ◌⊎◌, inl, inr, String, false, not, ◌&&◌, List, [], ◌∷◌, All, arith, Dict, insert, Bool-cases,
  str_eq, str_eq_iff,
}
use ddd_qce.Common.Sort.{All-sort_by}
use ddd_qce.Relationship.{RelationshipRegistry}
use ddd_qce.Relationship.Graphs.{
  Node, Build, Filter, is_left_out, add_node, add_edge, add_handled, add_subscribers,
  add_subscriptions, add_emitted, add_emissions, build, build_graph, values, node_less,
}

-- A filter that is set is the node's.
pub Passes : Filter → Node → Type 0
Passes f n =
    ((f.domain_filter ≡ "") ⊎ (n.domain ≡ f.domain_filter))
    × ((f.type_filter ≡ "") ⊎ (n.node_type ≡ f.type_filter))

module _ {ℓ κ} {V : Type ℓ} (P : V → Type κ) where
  All-insert :
      (k : String) (v : V) (m : Dict V) → P v → All P (values m) → All P (values (insert k v m))
  unfolding insert
  All-insert k v [] h g = (h, tt)
  All-insert k v ((j, w) ∷ m) h g = elim (Bool-cases (str_eq j k)) [
    | inl e ↦ rw (e) (h, g.1)
    | inr e ↦ rw (e) (g.0, All-insert k v m h g.1)
  ]

-- A filter that is empty or equal to the text.
passes_one : (x d : String) → (not (str_eq x "") && not (str_eq d x)) ≡ false → (x ≡ "") ⊎ (d ≡ x)
passes_one x d h = elim (Bool-cases (str_eq x "")) [
  | inl e ↦ inl ((str_eq_iff x "").0 e)
  | inr e ↦ inr ((str_eq_iff d x).0 (ground (arith, h, e)))
]

module _ (f : Filter) where
  AllPass : Build → Type 0
  AllPass b = All (Passes f) (values b.nodes_map)

  is_left_out-Passes :
      (id kind domain : String)
      → is_left_out f kind domain ≡ false
      → Passes f (record { id = id; node_type = kind; domain = domain })
  unfolding is_left_out Passes
  is_left_out-Passes id kind domain h = (
    passes_one f.domain_filter domain (ground (arith, h)),
    passes_one f.type_filter kind (ground (arith, h)),
  )

  add_node-AllPass :
      (id kind domain : String) (b : Build) → AllPass b → AllPass (add_node f id kind domain b)
  unfolding AllPass add_node
  add_node-AllPass id kind domain b h = elim (Bool-cases (is_left_out f kind domain)) [
    | inl e ↦ rw (e) h
    | inr e ↦ rw (e) (
        All-insert (Passes f) id (record { id = id; node_type = kind; domain = domain }) b.nodes_map
          (is_left_out-Passes id kind domain e) h)
  ]

  add_edge-AllPass :
      (source target kind : String) (b : Build)
      → AllPass b
      → AllPass (add_edge source target kind b)
  unfolding AllPass add_edge
  add_edge-AllPass source target kind b h = h

  add_handled-AllPass :
      (ds : Dict String) (kind : String) (m : Dict String) (b : Build)
      → AllPass b
      → AllPass (add_handled f ds kind m b)
  unfolding add_handled
  add_handled-AllPass ds kind [] b h = h
  add_handled-AllPass ds kind ((k, v) ∷ m) b h =
      add_handled-AllPass ds kind m _
        (add_edge-AllPass _ _ _ _ (add_node-AllPass _ _ _ _ (add_node-AllPass _ _ _ b h)))

  add_subscribers-AllPass :
      (evt domain : String) (hs : List String) (b : Build)
      → AllPass b
      → AllPass (add_subscribers f evt domain hs b)
  unfolding add_subscribers
  add_subscribers-AllPass evt domain [] b h = h
  add_subscribers-AllPass evt domain (x ∷ xs) b h =
      add_subscribers-AllPass evt domain xs _
        (add_edge-AllPass _ _ _ _ (add_node-AllPass _ _ _ b h))

  add_subscriptions-AllPass :
      (ds : Dict String) (m : Dict (List String)) (b : Build)
      → AllPass b
      → AllPass (add_subscriptions f ds m b)
  unfolding add_subscriptions
  add_subscriptions-AllPass ds [] b h = h
  add_subscriptions-AllPass ds ((k, v) ∷ m) b h =
      add_subscriptions-AllPass ds m _
        (add_subscribers-AllPass _ _ v _ (add_node-AllPass _ _ _ b h))

  add_emitted-AllPass :
      (ds : Dict String) (handler domain : String) (es : List String) (b : Build)
      → AllPass b
      → AllPass (add_emitted f ds handler domain es b)
  unfolding add_emitted
  add_emitted-AllPass ds handler domain [] b h = h
  add_emitted-AllPass ds handler domain (e ∷ es) b h =
      add_emitted-AllPass ds handler domain es _
        (add_edge-AllPass _ _ _ _ (add_node-AllPass _ _ _ b h))

  add_emissions-AllPass :
      (ds : Dict String) (m : Dict (List String)) (b : Build)
      → AllPass b
      → AllPass (add_emissions f ds m b)
  unfolding add_emissions
  add_emissions-AllPass ds [] b h = h
  add_emissions-AllPass ds ((k, v) ∷ m) b h =
      add_emissions-AllPass ds m _ (add_emitted-AllPass ds _ _ v _ (add_node-AllPass _ _ _ b h))

-- Every node of the graph passes the two filters: a domain filter that is set is the node's
-- domain, and a type filter that is set is its type.
pub build_graph-AllPass :
    (r : RelationshipRegistry) (f : Filter) → All (Passes f) (build_graph r f).nodes
unfolding build_graph build AllPass
build_graph-AllPass r f = All-sort_by node_less (Passes f) (values (build f r).nodes_map) (
    add_emissions-AllPass f r.type_domains r.handler_emits _ (
      add_subscriptions-AllPass f r.type_domains r.event_handlers _ (
        add_handled-AllPass f r.type_domains "query" r.query_handlers _
          (add_handled-AllPass f r.type_domains "command" r.command_handlers _ tt))))
