-- ===== src/Bus.antt =====
-- cqrs/impl/memory: the message bus behind the command and the query bus (bus_core.go,
-- bus_helpers.go, command_bus.go), and the event bus (event_bus.go).
-- Reflection is outside: a type is named by a text, and what a handler's `Handle` method takes is
-- a parameter. A handler's invoker acts on a state `S`.
pub mod Dispatch
pub mod Unwinding
pub mod Publish
pub mod Shutdown
mod Tests
use ddd_qce.Common.{map}
use ddd_qce.Common.{
  ℕ, suc, ◌+◌, ◌-◌, ◌==◌, String, Bool, true, false, Option, none, some, List, [], ◌∷◌, ◌++◌,
  if◌then◌else◌, Dict, lookup, insert, or_nil, is_some,
}
use ddd_qce.Errors.{Err, Result, ok, error, Arg, text, new_multi_error}
use ddd_qce.Aspect.{
  AspectChain, execute_with_command_aspects, execute_with_query_aspects, execute_with_event_aspects,
  EventAspect,
}

abbrev pub err_bus_closed : Err
err_bus_closed = text "bus is closed" []

module _ (S Ctx Msg Res Handler : Type 0) where
  pub record MessageBus : Type 0 where
    pub handlers : Dict Handler
    pub invokers : Dict (S → Ctx → Msg → S × Option Res × Option Err)
    pub chain : AspectChain S Ctx Msg Res
    pub closed : Bool

-- The aspectKind argument of execute.
pub data AspectKind : Type 0 where
  command query other : AspectKind

module _ {S Ctx Msg Res Handler : Type 0} where
  unfoldable pub register_handler :
      (Handler → Option String)
      → MessageBus S Ctx Msg Res Handler
      → Handler
      → (S → Ctx → Msg → S × Option Res × Option Err)
      → MessageBus S Ctx Msg Res Handler × Option Err
  register_handler payload_type b handler invoker = elim (payload_type handler) [
    | none ↦ (b, some (text "RegisterHandler: handler must implement a Handle method, got %T" []))
    | some t ↦
        if is_some (lookup t b.handlers)
        then (b, some (text "handler already registered for type %v" (Arg.str t ∷ [])))
        else (
          record b {
            handlers = insert t handler b.handlers;
            invokers = insert t invoker b.invokers;
          },
          none,
        )
  ]

  -- `execute` but for its in-flight counter, which Shutdown's model has.
  unfoldable pub execute :
      (S → ℕ)
      → (Msg → String)
      → MessageBus S Ctx Msg Res Handler
      → S
      → Ctx
      → Msg
      → AspectKind
      → S × Option Res × Option Err
  unfolding execute_with_command_aspects execute_with_query_aspects
  execute clock type_of b s ctx msg aspect_kind =
      if b.closed then (s, none, some err_bus_closed) else elim (lookup (type_of msg) b.invokers) [
        | none ↦
            (s, none, some (text "no handler registered for type: %s" (Arg.str (type_of msg) ∷ [])))
        | some inv ↦ elim aspect_kind [
          | command ↦ execute_with_command_aspects clock b.chain s ctx msg (λ t c. inv t c msg)
          | query ↦ execute_with_query_aspects clock b.chain s ctx msg (λ t c. inv t c msg)
          | other ↦ inv s ctx msg
        ]
      ]

-- How a handler's Handle ends: it returns, or it panics with the text of what is recovered.
pub data HandlerEnd : Type 0 where
  finished : Option Err → HandlerEnd
  panicked : String → HandlerEnd

-- A handler, known by its pointer, with its invoker.
pub record HandlerEntry (S Ctx Msg : Type 0) : Type 0 where
  pub handler : ℕ
  pub name : String
  pub invoke : S → Ctx → Msg → S × HandlerEnd

pub record EventBus (S Ctx Msg Res : Type 0) : Type 0 where
  pub handlers : Dict (List (HandlerEntry S Ctx Msg))
  pub chain : AspectChain S Ctx Msg Res
  pub closed : Bool

unfoldable pub is_subscribed : {S Ctx Msg : Type 0} → List (HandlerEntry S Ctx Msg) → ℕ → Bool
is_subscribed [] h = false
is_subscribed (e ∷ rest) h = if e.handler == h then true else is_subscribed rest h

-- The loop over the channel, in the order of arrival: nil is left out.
unfoldable pub collect : Option Err → List Err → List Err
collect none errs = errs
collect (some e) errs = e ∷ errs

unfoldable pub publish_error : List Err → Option Err
unfolding new_multi_error
publish_error [] = none
publish_error (e ∷ []) = some e
publish_error (e ∷ f ∷ rest) = some (new_multi_error (e ∷ f ∷ rest))

-- Go's unwinding of a goroutine: beside the state stands the panic, if there is one, and an After
-- hook is not called once there is.
module _ {S Ctx Msg Res : Type 0} where
  unfoldable pub unwinding : EventAspect S Ctx Msg Res → EventAspect (S × Option String) Ctx Msg Res
  unwinding a = record {
    name = a.name;
    order = a.order;
    before_publish = λ t ctx evt. let (s', r) = a.before_publish t.0 ctx evt in ((s', t.1), r);
    after_publish = λ t ctx evt err d. elim t.1 [
      | none ↦ let (s', e) = a.after_publish t.0 ctx evt err d in ((s', none), e)
      | some r ↦ ((t.0, some r), none)
    ];
  }

  unfoldable pub unwinding_chain :
      AspectChain S Ctx Msg Res → AspectChain (S × Option String) Ctx Msg Res
  unfolding unwinding
  unwinding_chain c = record {
    query_aspects = [];
    command_aspects = [];
    event_aspects = map unwinding c.event_aspects;
  }

module _ {S : Type 0} where
  abbrev pub invoked : S × HandlerEnd → (S × Option String) × Option Err
  invoked (s, finished err) = ((s, none), err)
  invoked (s, panicked r) = ((s, some r), none)

  -- What the goroutine of a handler sends to the channel, after its chain or its recover.
  abbrev pub sent : String → (S × Option String) × Option Err → S × Option Err
  sent name ((s, none), err) = (s, err)
  sent name ((s, some r), err) =
      (s, some (text "handler %s panicked: %v" (Arg.str name ∷ Arg.str r ∷ [])))

module _ {S Ctx Msg Res : Type 0} where
  unfoldable pub subscribe_handler :
      EventBus S Ctx Msg Res
      → Option String
      → HandlerEntry S Ctx Msg
      → EventBus S Ctx Msg Res × Option Err
  unfolding is_subscribed
  subscribe_handler b none entry =
      (b, some (text "SubscribeHandler: handler must implement event.EventHandler[T], got %T" []))
  subscribe_handler b (some t) entry =
      let entries = or_nil (lookup t b.handlers) in
      if is_subscribed entries entry.handler
      then (b, some (text "handler already subscribed for event type: %s" (Arg.str t ∷ [])))
      else (record b { handlers = insert t (entries ++ entry ∷ []) b.handlers }, none)

  -- `handler_context` is the context of a handler, with its timeout and its name.
  module _ (clock : S → ℕ) (handler_context : Ctx → String → Ctx) where
    -- The goroutine of one handler, run as a whole.
    unfoldable pub run_handler :
        AspectChain S Ctx Msg Res → S → Ctx → Msg → HandlerEntry S Ctx Msg → S × Option Err
    unfolding execute_with_event_aspects unwinding_chain
    run_handler chain s ctx evt e = sent e.name (
        execute_with_event_aspects (λ t. clock t.0) (unwinding_chain chain) (s, none)
          (handler_context ctx e.name) evt (λ t c. invoked (e.invoke t.0 c evt)))

    -- The goroutines in the order in which they end.
    unfoldable pub run_handlers :
        AspectChain S Ctx Msg Res → S → Ctx → Msg → List (HandlerEntry S Ctx Msg) → S × List Err
    unfolding run_handler collect
    run_handlers chain s ctx evt [] = (s, [])
    run_handlers chain s ctx evt (e ∷ es) =
        let (s1, err) = run_handler chain s ctx evt e in
        let (s2, errs) = run_handlers chain s1 ctx evt es in (s2, collect err errs)

    -- Publish of an event of a type, none for a nil event. `schedule` is the order in which the
    -- goroutines end.
    unfoldable pub publish :
        (List (HandlerEntry S Ctx Msg) → List (HandlerEntry S Ctx Msg))
        → EventBus S Ctx Msg Res
        → S
        → Ctx
        → Msg
        → Option String
        → S × Option Err
    unfolding execute_with_event_aspects run_handlers publish_error
    publish schedule b s ctx evt evt_type =
        if b.closed then (s, some err_bus_closed) else elim evt_type [
          | none ↦ (s, some (text "Publish: event must be a non-nil pointer implementing Event" []))
          | some t ↦ elim (or_nil (lookup t b.handlers)) [
            | [] ↦ execute_with_event_aspects clock b.chain s ctx evt (λ u c. (u, none))
            | e ∷ rest ↦
                let (s', errs) = run_handlers b.chain s ctx evt (schedule (e ∷ rest)) in
                (s', publish_error errs)
          ]
        ]

-- What Shutdown returns: nil, or the error of its context.
pub data ShutdownReply : Type 0 where
  drained : ShutdownReply
  context_error : ShutdownReply

-- What Shutdown and the callers of Execute or Publish share. `checked` are callers past the test of
-- `closed` and before `inFlight.Add(1)`; `done` is the channel that the waiting goroutine closes.
pub record BusCounters : Type 0 where
  pub closed : Bool
  pub checked : ℕ
  pub in_flight : ℕ
  pub done_closed : Bool
  pub shutdown_returned : Option ShutdownReply

-- The steps of a caller: the test of `closed`, Add and the deferred Done.
pub data CallerStep : Type 0 where
  check_closed add_in_flight done_in_flight : CallerStep

-- A step that cannot be taken then is none. A caller that finds the bus closed leaves with an error.
unfoldable pub caller_step : BusCounters → CallerStep → Option BusCounters
caller_step b check_closed = some (if b.closed then b else record b { checked = b.checked + 1 })
caller_step b add_in_flight =
    if b.checked == 0
    then none
    else some (record b { checked = b.checked - 1; in_flight = b.in_flight + 1 })
caller_step b done_in_flight =
    if b.in_flight == 0 then none else some (record b { in_flight = b.in_flight - 1 })

-- The steps of shutdownBus: the store, the end of Wait in its goroutine, and the two cases of the
-- select, either of which may be taken where both are ready.
pub data ShutdownStep : Type 0 where
  store_closed wait_ends return_drained return_context_error : ShutdownStep

unfoldable pub shutdown_step : BusCounters → ShutdownStep → Option BusCounters
shutdown_step b store_closed = some (record b { closed = true })
shutdown_step b wait_ends =
    if b.closed
    then (if b.in_flight == 0 then some (record b { done_closed = true }) else none)
    else none
shutdown_step b return_drained =
    if b.done_closed then some (record b { shutdown_returned = some drained }) else none
shutdown_step b return_context_error =
    if b.closed then some (record b { shutdown_returned = some context_error }) else none

pub data BusStep : Type 0 where
  by_caller : CallerStep → BusStep
  by_shutdown : ShutdownStep → BusStep

unfoldable pub bus_step : BusCounters → BusStep → Option BusCounters
unfolding caller_step shutdown_step
bus_step b (by_caller s) = caller_step b s
bus_step b (by_shutdown s) = shutdown_step b s

-- A run of steps, none if one cannot be taken.
unfoldable pub bus_run : BusCounters → List BusStep → Option BusCounters
unfolding bus_step
bus_run b [] = some b
bus_run b (s ∷ rest) = elim (bus_step b s) [ none ↦ none | some b' ↦ bus_run b' rest ]
