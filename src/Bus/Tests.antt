-- ===== src/Bus/Tests.antt =====
-- Runs of the buses on concrete messages: a message is a number, and its type is "even".
use ddd_qce.Errors.{ok}
use ddd_qce.Common.Int.{pos}
use ddd_qce.Common.{All}
use ddd_qce.Common.{
  ℕ, ◌+◌, ◌≤◌, ◌≡◌, ◌↔◌, refl, String, true, false, Option, none, some, List, [], ◌∷◌, lookup,
  or_nil,
}
use mathlib.Core.List.{Permᴰ}
use ddd_qce.Errors.{Err, err_not_found}
use ddd_qce.Aspect.{AspectChain, EventAspect, run_event_aspects, execute_with_event_aspects}
use ddd_qce.Bus.{
  MessageBus, EventBus, HandlerEntry, HandlerEnd, run_handlers, run_handler, unwinding,
  unwinding_chain, finished, panicked, publish, BusCounters, BusStep, check_closed, add_in_flight,
  done_in_flight, context_error, return_context_error, by_caller, by_shutdown, bus_run,
}
use ddd_qce.Bus.Publish.{IsFine, is_code, any_ended, AllEnd, publish-AllEnd}
use ddd_qce.Bus.Shutdown.{admitted, bus_run-drains}

abbrev Nothing : Type 0
Nothing = Unit {0}

abbrev no_aspects : AspectChain ℕ Nothing ℕ ℕ
no_aspects = record { query_aspects = []; command_aspects = []; event_aspects = [] }

abbrev empty_bus : MessageBus ℕ Nothing ℕ ℕ ℕ
empty_bus = record { handlers = []; invokers = []; chain = no_aspects; closed = false }

abbrev takes_even : ℕ → Option String
takes_even h = some "even"

abbrev is_even : ℕ → String
is_even msg = "even"

abbrev tick : ℕ → ℕ
tick s = s

abbrev count_up : ℕ → Nothing → ℕ → ℕ × Option ℕ × Option Err
count_up s ctx msg = (s + 1, some msg, none)

-- A handler that fails, and one that panics; the state counts the hooks and the handlers.
abbrev fails : HandlerEntry ℕ Nothing ℕ
fails = record {
  handler = 1;
  name = "A";
  invoke = λ s ctx evt. (s + 1, finished (some err_not_found));
}

abbrev breaks : HandlerEntry ℕ Nothing ℕ
breaks = record { handler = 2; name = "B"; invoke = λ s ctx evt. (s + 10, panicked "boom") }

abbrev counting : EventAspect ℕ Nothing ℕ ℕ
counting = record {
  name = "counting";
  order = pos 0;
  before_publish = λ s ctx evt. (s + 100, ok ctx);
  after_publish = λ s ctx evt err d. (s + 1000, none);
}

abbrev event_bus : EventBus ℕ Nothing ℕ ℕ
event_bus = record {
  handlers = ("even", fails ∷ breaks ∷ []) ∷ [];
  chain = record { query_aspects = []; command_aspects = []; event_aspects = counting ∷ [] };
  closed = false;
}

abbrev same_context : Nothing → String → Nothing
same_context ctx name = ctx

abbrev second_first : List (HandlerEntry ℕ Nothing ℕ) → List (HandlerEntry ℕ Nothing ℕ)
second_first [] = []
second_first (a ∷ []) = a ∷ []
second_first (a ∷ b ∷ es) = b ∷ a ∷ es

event_bus-two_handlers : or_nil (lookup "even" event_bus.handlers) ≡ fails ∷ breaks ∷ []
unfolding lookup
event_bus-two_handlers = refl

-- The aspect is not left around the handler that panics.
one_after_hook : (publish tick same_context second_first event_bus 0 tt 4 (some "even")).0 ≡ 1211
unfolding publish run_handlers run_handler run_event_aspects unwinding lookup
    execute_with_event_aspects unwinding_chain
one_after_hook = refl

publish-AllEnd_example :
    let (s', r) = publish tick same_context second_first event_bus 0 tt 4 (some "even") in
    (order : List (HandlerEntry ℕ Nothing ℕ)) × (ds : List HandlerEnd) × Permᴰ
      (fails ∷ breaks ∷ [])
      order
    × AllEnd tick 4 same_context event_bus.chain tt 0 order s' ds
    × (All IsFine ds ↔ (r ≡ none))
    × ((code : String) → is_code code r ≡ any_ended code ds)
publish-AllEnd_example =
    publish-AllEnd tick same_context second_first event_bus 0 tt 4 "even" fails (breaks ∷ []) refl
      event_bus-two_handlers (Permᴰ.swap refl refl)

abbrev closing : BusCounters
closing = record {
  closed = true;
  checked = 1;
  in_flight = 1;
  done_closed = false;
  shutdown_returned = none;
}

abbrev gave_up : BusCounters
gave_up = record {
  closed = true;
  checked = 0;
  in_flight = 1;
  done_closed = false;
  shutdown_returned = some context_error;
}

-- One of two callers is done, a third is refused, and the context of Shutdown ends it.
abbrev closing_steps : List BusStep
closing_steps =
    by_caller add_in_flight
    ∷ by_caller done_in_flight
    ∷ by_caller check_closed
    ∷ by_shutdown return_context_error
    ∷ []

closing-gave_up : bus_run closing closing_steps ≡ some gave_up
unfolding bus_run
closing-gave_up = refl

bus_run-drains_example : (gave_up.closed ≡ true) × (admitted gave_up ≤ admitted closing)
bus_run-drains_example = bus_run-drains closing_steps closing gave_up closing-gave_up refl
