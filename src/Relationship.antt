-- ===== src/Relationship.antt =====
-- relationship/registry.go: which handler handles, subscribes to and emits what, and the graph of it.
-- A Go map is iterated in no particular order; the model takes the order of the Dict, and the
-- theorems hold for every Dict.
pub mod Graphs
pub mod Records
pub mod Edges
pub mod Nodes
mod Tests
use ddd_qce.Common.{
  String, Bool, true, false, not, ◌&&◌, Option, none, some, List, [], ◌∷◌, ◌++◌, map, if◌then◌else◌,
  str_eq, Dict, lookup, insert, or_nil,
}
use ddd_qce.Common.Sort.{sort_by, str_less}

pub record RelationshipRegistry : Type 0 where
  pub command_handlers : Dict String
  pub query_handlers : Dict String
  pub event_handlers : Dict (List String)
  pub handler_emits : Dict (List String)
  pub type_domains : Dict String

unfoldable pub new_registry : RelationshipRegistry
new_registry = record {
  command_handlers = [];
  query_handlers = [];
  event_handlers = [];
  handler_emits = [];
  type_domains = [];
}

-- A missing key of a map of texts reads as the empty text.
abbrev pub or_empty : Option String → String
or_empty none = ""
or_empty (some s) = s

-- The loop that looks for a name.
unfoldable pub has_name : String → List String → Bool
has_name x [] = false
has_name x (y ∷ ys) = if str_eq y x then true else has_name x ys

unfoldable pub record_command_handler :
    RelationshipRegistry → String → String → RelationshipRegistry
record_command_handler r cmd handler = record r {
  command_handlers = insert cmd handler r.command_handlers;
}

unfoldable pub record_query_handler : RelationshipRegistry → String → String → RelationshipRegistry
record_query_handler r qry handler = record r {
  query_handlers = insert qry handler r.query_handlers;
}

unfoldable pub record_event_handler : RelationshipRegistry → String → String → RelationshipRegistry
record_event_handler r evt handler =
    let handlers = or_nil (lookup evt r.event_handlers) in
    if has_name handler handlers
    then r
    else record r { event_handlers = insert evt (handlers ++ handler ∷ []) r.event_handlers }

unfoldable pub record_type_domain : RelationshipRegistry → String → String → RelationshipRegistry
record_type_domain r name domain = record r { type_domains = insert name domain r.type_domains }

-- An event without a domain takes the domain of a handler that emits it.
unfoldable pub inherit_domain : String → String → Dict String → Dict String
inherit_domain handler evt domains =
    let handler_domain = or_empty (lookup handler domains) in
    if not (str_eq handler_domain "") && str_eq (or_empty (lookup evt domains)) ""
    then insert evt handler_domain domains
    else domains

unfoldable pub record_handler_emits : RelationshipRegistry → String → String → RelationshipRegistry
unfolding inherit_domain
record_handler_emits r handler evt =
    let events = or_nil (lookup handler r.handler_emits) in
    if has_name evt events then r else record r {
      handler_emits = insert handler (events ++ evt ∷ []) r.handler_emits;
      type_domains = inherit_domain handler evt r.type_domains;
    }

unfoldable pub get_type_domain : RelationshipRegistry → String → String
get_type_domain r name = or_empty (lookup name r.type_domains)

unfoldable pub get_command_handler : RelationshipRegistry → String → String
get_command_handler r name = or_empty (lookup name r.command_handlers)

unfoldable pub get_query_handler : RelationshipRegistry → String → String
get_query_handler r name = or_empty (lookup name r.query_handlers)

unfoldable pub get_event_handlers : RelationshipRegistry → String → List String
get_event_handlers r name = or_nil (lookup name r.event_handlers)

unfoldable pub get_handler_emits : RelationshipRegistry → String → List String
get_handler_emits r name = or_nil (lookup name r.handler_emits)

abbrev pub keys {ℓ} : {V : Type ℓ} → Dict V → List String
keys m = map (λ kv. kv.0) m

unfoldable pub list_command_types : RelationshipRegistry → List String
list_command_types r = sort_by str_less (keys r.command_handlers)

unfoldable pub list_query_types : RelationshipRegistry → List String
list_query_types r = sort_by str_less (keys r.query_handlers)

unfoldable pub list_event_types : RelationshipRegistry → List String
list_event_types r = sort_by str_less (keys r.event_handlers)
