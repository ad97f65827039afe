-- ===== src/Bus/Dispatch.antt =====
-- The message bus of cqrs/impl/memory/bus_core.go: what is registered is what is executed.
use ddd_qce.Common.{
  ℕ, ◌≡◌, ◌≢◌, refl, ap, ◌∙◌, String, false, Option, none, some, [], ◌∷◌, arith, lookup, insert,
  lookup-insert_self, lookup-insert_ne,
}
use ddd_qce.Errors.{Err, Arg, text}
use ddd_qce.Aspect.{execute_with_command_aspects, execute_with_query_aspects}
use ddd_qce.Bus.{MessageBus, AspectKind, command, query, register_handler, execute}

module _ {S Ctx Msg Res Handler : Type 0} (payload_type : Handler → Option String) (clock : S → ℕ)
    (type_of : Msg → String) where
  abbrev with_handler :
      MessageBus S Ctx Msg Res Handler
      → Handler
      → String
      → (S → Ctx → Msg → S × Option Res × Option Err)
      → MessageBus S Ctx Msg Res Handler
  with_handler b h t invoker = record b {
    handlers = insert t h b.handlers;
    invokers = insert t invoker b.invokers;
  }

  registered :
      (b : MessageBus S Ctx Msg Res Handler) (h : Handler) (t : String)
      (invoker : S → Ctx → Msg → S × Option Res × Option Err)
      → payload_type h ≡ some t
      → lookup t b.handlers ≡ none
      → register_handler payload_type b h invoker ≡ (with_handler b h t invoker, none)
  unfolding register_handler
  registered b h t invoker p free = ground arith

  taken :
      (b : MessageBus S Ctx Msg Res Handler) (h old : Handler) (t : String)
      (invoker : S → Ctx → Msg → S × Option Res × Option Err)
      → payload_type h ≡ some t
      → lookup t b.handlers ≡ some old
      → register_handler payload_type b h invoker
        ≡ (b, some (text "handler already registered for type %v" (Arg.str t ∷ [])))
  unfolding register_handler
  taken b h old t invoker p l = ground arith

  execute-found :
      (b : MessageBus S Ctx Msg Res Handler) (s : S) (ctx : Ctx) (msg : Msg)
      (inv : S → Ctx → Msg → S × Option Res × Option Err)
      → b.closed ≡ false
      → lookup (type_of msg) b.invokers ≡ some inv
      → (execute clock type_of b s ctx msg command
          ≡ execute_with_command_aspects clock b.chain s ctx msg (λ u c. inv u c msg))
        × (execute clock type_of b s ctx msg query
            ≡ execute_with_query_aspects clock b.chain s ctx msg (λ u c. inv u c msg))
  unfolding execute
  execute-found b s ctx msg inv is_open l = (ground arith, ground arith)

  execute-same :
      (b : MessageBus S Ctx Msg Res Handler) (h : Handler) (t : String)
      (invoker : S → Ctx → Msg → S × Option Res × Option Err) (s : S) (ctx : Ctx) (msg : Msg)
      (k : AspectKind)
      → lookup (type_of msg) (insert t invoker b.invokers) ≡ lookup (type_of msg) b.invokers
      → execute clock type_of (with_handler b h t invoker) s ctx msg k
        ≡ execute clock type_of b s ctx msg k
  unfolding execute
  execute-same b h t invoker s ctx msg k l = rw (l) refl

  -- Registering, on an open bus, a handler of a type that has none succeeds. Then a command of that
  -- type runs its invoker within the command aspects, a query within the query aspects, a message
  -- of any other type runs as before, and a second handler of the type is refused with no change.
  pub execute-register_handler :
      (b : MessageBus S Ctx Msg Res Handler) (h : Handler) (t : String)
      (invoker : S → Ctx → Msg → S × Option Res × Option Err)
      → payload_type h ≡ some t
      → lookup t b.handlers ≡ none
      → b.closed ≡ false
      → let (b', e) = register_handler payload_type b h invoker in
        (e ≡ none)
        × ((s : S) (ctx : Ctx) (msg : Msg)
            → type_of msg ≡ t
            → (execute clock type_of b' s ctx msg command
                ≡ execute_with_command_aspects clock b.chain s ctx msg (λ u c. invoker u c msg))
              × (execute clock type_of b' s ctx msg query
                  ≡ execute_with_query_aspects clock b.chain s ctx msg (λ u c. invoker u c msg)))
        × ((s : S) (ctx : Ctx) (msg : Msg) (k : AspectKind)
            → t ≢ type_of msg
            → execute clock type_of b' s ctx msg k ≡ execute clock type_of b s ctx msg k)
        × ((h' : Handler) (i : S → Ctx → Msg → S × Option Res × Option Err)
            → payload_type h' ≡ some t
            → (e' : Err) × (register_handler payload_type b' h' i ≡ (b', some e')))
  execute-register_handler b h t invoker p free is_open =
      let b' = with_handler b h t invoker in
      rw (registered b h t invoker p free) (
        refl,
        λ s ctx msg e.
            execute-found b' s ctx msg invoker is_open
              (ap (λ x. lookup x b'.invokers) e ∙ lookup-insert_self t invoker b.invokers),
        λ s ctx msg k ne.
            execute-same b h t invoker s ctx msg k
              (lookup-insert_ne t (type_of msg) invoker b.invokers ne),
        λ h' i q. (
          text "handler already registered for type %v" (Arg.str t ∷ []),
          taken b' h' h t i q (lookup-insert_self t h b.handlers),
        ),
      )
