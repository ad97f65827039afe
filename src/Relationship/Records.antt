-- ===== src/Relationship/Records.antt =====
-- What the registry of relationship/registry.go holds after any sequence of records.
use ddd_qce.Common.{Bool, ◌≢◌, ◌||◌, All, All-append}
use ddd_qce.Common.{
  ◌≡◌, refl, sym, ap, ◌∙◌, subst, String, List, [], ◌∷◌, ◌++◌, arith, false, if◌then◌else◌, str_eq,
  str_eq_iff, Bool-cases, inl, inr, lookup, lookup-insert, or_nil,
}
use ddd_qce.Relationship.{
  RelationshipRegistry, new_registry, has_name, record_command_handler, record_query_handler,
  record_event_handler, record_type_domain, record_handler_emits, get_event_handlers,
}

pub data RegistryOp : Type 0 where
  command_handler : String → String → RegistryOp
  query_handler : String → String → RegistryOp
  event_handler : String → String → RegistryOp
  type_domain : String → String → RegistryOp
  handler_emits : String → String → RegistryOp

unfoldable pub run_registry : RelationshipRegistry → List RegistryOp → RelationshipRegistry
run_registry r [] = r
run_registry r (command_handler c h ∷ ops) = run_registry (record_command_handler r c h) ops
run_registry r (query_handler q h ∷ ops) = run_registry (record_query_handler r q h) ops
run_registry r (event_handler e h ∷ ops) = run_registry (record_event_handler r e h) ops
run_registry r (type_domain t d ∷ ops) = run_registry (record_type_domain r t d) ops
run_registry r (handler_emits h e ∷ ops) = run_registry (record_handler_emits r h e) ops

-- The abstract view: the handlers that the calls name for one event, repetitions left out.
-- `listed` says whether a name is among others.
unfoldable pub listed : String → List String → Bool
listed x [] = false
listed x (y ∷ ys) = str_eq y x || listed x ys

unfoldable pub add_new : List String → String → List String
unfolding listed
add_new xs x = if listed x xs then xs else xs ++ x ∷ []

unfoldable pub replay_event : String → List String → List RegistryOp → List String
unfolding add_new
replay_event evt hs [] = hs
replay_event evt hs (command_handler c h ∷ ops) = replay_event evt hs ops
replay_event evt hs (query_handler q h ∷ ops) = replay_event evt hs ops
replay_event evt hs (event_handler e h ∷ ops) =
    replay_event evt (if str_eq e evt then add_new hs h else hs) ops
replay_event evt hs (type_domain t d ∷ ops) = replay_event evt hs ops
replay_event evt hs (handler_emits h e ∷ ops) = replay_event evt hs ops

unfoldable pub Distinct : List String → Type 0
Distinct [] = Unit
Distinct (x ∷ xs) = All (λ y. y ≢ x) xs × Distinct xs

has_name-listed : (x : String) (ys : List String) → has_name x ys ≡ listed x ys
unfolding has_name listed
has_name-listed x [] = refl
has_name-listed x (y ∷ ys) = ground (arith, has_name-listed x ys)

listed-All : (x : String) (ys : List String) → listed x ys ≡ false → All (λ y. y ≢ x) ys
unfolding listed
listed-All x [] h = tt
listed-All x (y ∷ ys) h =
    (λ e. absurd (ground (arith, h, e, str_eq_iff y x)), listed-All x ys (ground (arith, h)))

get_event_handlers-record :
    (r : RelationshipRegistry) (e h evt : String)
    → get_event_handlers (record_event_handler r e h) evt
      ≡ (if str_eq e evt then add_new (get_event_handlers r evt) h else get_event_handlers r evt)
unfolding get_event_handlers record_event_handler add_new
get_event_handlers-record r e h evt = ground (
  arith,
  str_eq_iff e evt,
  has_name-listed h (or_nil (lookup e r.event_handlers)),
  lookup-insert e evt (or_nil (lookup e r.event_handlers) ++ h ∷ []) r.event_handlers,
)

get_event_handlers-emits :
    (r : RelationshipRegistry) (h e evt : String)
    → get_event_handlers (record_handler_emits r h e) evt ≡ get_event_handlers r evt
unfolding get_event_handlers record_handler_emits
get_event_handlers-emits r h e evt = ground arith

run_registry-replay :
    (ops : List RegistryOp) (r : RelationshipRegistry) (evt : String)
    → get_event_handlers (run_registry r ops) evt ≡ replay_event evt (get_event_handlers r evt) ops
unfolding run_registry replay_event get_event_handlers record_command_handler record_query_handler
    record_type_domain
run_registry-replay [] r evt = refl
run_registry-replay (command_handler c h ∷ ops) r evt =
    run_registry-replay ops (record_command_handler r c h) evt
run_registry-replay (query_handler q h ∷ ops) r evt =
    run_registry-replay ops (record_query_handler r q h) evt
run_registry-replay (event_handler e h ∷ ops) r evt =
    run_registry-replay ops (record_event_handler r e h) evt
    ∙ ap (λ hs. replay_event evt hs ops) (get_event_handlers-record r e h evt)
run_registry-replay (type_domain t d ∷ ops) r evt =
    run_registry-replay ops (record_type_domain r t d) evt
run_registry-replay (handler_emits h e ∷ ops) r evt =
    run_registry-replay ops (record_handler_emits r h e) evt
    ∙ ap (λ hs. replay_event evt hs ops) (get_event_handlers-emits r h e evt)

append-Distinct :
    (xs : List String) (y : String) → Distinct xs → All (λ x. x ≢ y) xs → Distinct (xs ++ y ∷ [])
unfolding Distinct
append-Distinct [] y h k = (tt, tt)
append-Distinct (x ∷ xs) y h k =
    (All-append (λ z. z ≢ x) xs (y ∷ []) h.0 (λ e. k.0 (sym e), tt), append-Distinct xs y h.1 k.1)

add_new-Distinct : (xs : List String) (y : String) → Distinct xs → Distinct (add_new xs y)
unfolding add_new
add_new-Distinct xs y h = elim (Bool-cases (listed y xs)) [
  | inl e ↦ rw (e) h
  | inr e ↦ rw (e) (append-Distinct xs y h (listed-All y xs e))
]

replay_event-Distinct :
    (ops : List RegistryOp) (evt : String) (hs : List String)
    → Distinct hs
    → Distinct (replay_event evt hs ops)
unfolding replay_event
replay_event-Distinct [] evt hs h = h
replay_event-Distinct (command_handler c k ∷ ops) evt hs h = replay_event-Distinct ops evt hs h
replay_event-Distinct (query_handler q k ∷ ops) evt hs h = replay_event-Distinct ops evt hs h
replay_event-Distinct (event_handler e k ∷ ops) evt hs h = elim (Bool-cases (str_eq e evt)) [
  | inl q ↦ rw (q) (replay_event-Distinct ops evt (add_new hs k) (add_new-Distinct hs k h))
  | inr q ↦ rw (q) (replay_event-Distinct ops evt hs h)
]
replay_event-Distinct (type_domain t d ∷ ops) evt hs h = replay_event-Distinct ops evt hs h
replay_event-Distinct (handler_emits k e ∷ ops) evt hs h = replay_event-Distinct ops evt hs h

-- After any sequence of records on a new registry, the handlers of an event are those that the
-- calls of RecordEventHandler name for it, in the order of their first call, and no handler is
-- there twice. The other records do not matter to it.
pub get_event_handlers-run_registry :
    (ops : List RegistryOp) (evt : String)
    → (get_event_handlers (run_registry new_registry ops) evt ≡ replay_event evt [] ops)
      × Distinct (get_event_handlers (run_registry new_registry ops) evt)
unfolding new_registry get_event_handlers lookup Distinct
get_event_handlers-run_registry ops evt =
    let e = run_registry-replay ops new_registry evt in
    (e, subst Distinct (sym e) (replay_event-Distinct ops evt [] tt))
