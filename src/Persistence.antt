-- ===== src/Persistence.antt =====
-- The PersistenceAspect of aspect/builtin/persistence.go: an entry for each command, query and event. The
-- message store, the clock, the context's values, JSON, the names of types and the text of an error
-- are parameters; the entries are those of MessageReader.
pub mod Entries
mod Tests
use ddd_qce.Common.{ℕ, String, Bool, true, false, Option, none, some, if◌then◌else◌, str_eq}
use ddd_qce.Common.Int.{ℤ, pos}
use ddd_qce.Errors.{Err, Result, ok, error}
use ddd_qce.Aspect.{CommandAspect, QueryAspect, EventAspect}
use ddd_qce.MessageReader.{CommandEntry, QueryEntry, EventEntry, EventHandlerEntry}

-- The MessageStore interface, over the state that its calls act on.
pub record MessageStore (S : Type 0) : Type 0 where
  pub record_command : S → CommandEntry → S × Option Err
  pub record_query : S → QueryEntry → S × Option Err
  pub record_event : S → EventEntry → S × Option Err
  pub record_event_handler : S → EventHandlerEntry → S × Option Err

-- What the hooks read of a context, a message, a result and an error. `marshal_failed` is the JSON
-- text that stands for a value that cannot be marshalled.
pub record MessageView (S Ctx Msg Res : Type 0) : Type 0 where
  pub trace_id : Ctx → String
  pub span_id : Ctx → String
  pub handler_type : Ctx → Option String
  pub type_name : Msg → String
  pub marshal : Msg → Result String
  pub aggregate_id : Msg → String
  pub event_name : Msg → String
  pub result_name : Res → String
  pub marshal_result : Res → Result String
  pub marshal_failed : Err → String
  pub error_text : Err → String
  pub now : S → ℕ

module _ {S Ctx Msg Res : Type 0} (view : MessageView S Ctx Msg Res) where
  abbrev pub data_or_failure : Result String → String
  data_or_failure (ok data_text) = data_text
  data_or_failure (error e) = view.marshal_failed e

  abbrev pub error_or_empty : Option Err → String
  error_or_empty none = ""
  error_or_empty (some e) = view.error_text e

  abbrev pub result_type : Option Res → String
  result_type none = ""
  result_type (some r) = view.result_name r

  abbrev pub result_data : Option Res → String
  result_data none = ""
  result_data (some r) = data_or_failure (view.marshal_result r)

  unfoldable pub command_entry : S → Ctx → Msg → Option Res → Option Err → ℤ → CommandEntry
  command_entry s ctx cmd result err duration = record {
    trace_id = view.trace_id ctx;
    span_id = view.span_id ctx;
    command_type = view.type_name cmd;
    command_data = data_or_failure (view.marshal cmd);
    result_type = result_type result;
    result_data = result_data result;
    err = error_or_empty err;
    duration = duration;
    created_at = view.now s;
  }

  unfoldable pub query_entry : S → Ctx → Msg → Option Res → Option Err → ℤ → QueryEntry
  query_entry s ctx query result err duration = record {
    trace_id = view.trace_id ctx;
    span_id = view.span_id ctx;
    query_type = view.type_name query;
    query_data = data_or_failure (view.marshal query);
    result_type = result_type result;
    result_data = result_data result;
    err = error_or_empty err;
    duration = duration;
    created_at = view.now s;
  }

  unfoldable pub event_entry : S → Ctx → Msg → Option Err → ℤ → EventEntry
  event_entry s ctx evt err duration = record {
    trace_id = view.trace_id ctx;
    span_id = view.span_id ctx;
    aggregate_id = view.aggregate_id evt;
    event_type = view.event_name evt;
    event_data = data_or_failure (view.marshal evt);
    handler_count = pos 0;
    err = error_or_empty err;
    duration = duration;
    created_at = view.now s;
  }

  abbrev pub handler_status : Option Err → String
  handler_status none = "success"
  handler_status (some e) = "error"

  unfoldable pub handler_entry : S → Ctx → Msg → String → Option Err → ℤ → EventHandlerEntry
  handler_entry s ctx evt handler err duration = record {
    trace_id = view.trace_id ctx;
    span_id = view.span_id ctx;
    aggregate_id = view.aggregate_id evt;
    event_type = view.event_name evt;
    handler_type = handler;
    status = handler_status err;
    err = error_or_empty err;
    duration = duration;
    created_at = view.now s;
  }

  -- A handler type that is missing reads as the empty text.
  unfoldable pub extract_handler_type : Ctx → String
  extract_handler_type ctx = elim (view.handler_type ctx) [ none ↦ "" | some t ↦ t ]

  module _ (store : MessageStore S) where
    -- AfterPublish once the event is recorded.
    unfoldable pub record_handler : S → Ctx → Msg → Option Err → ℤ → S × Option Err
    unfolding handler_entry extract_handler_type
    record_handler s ctx evt err duration =
        if str_eq (extract_handler_type ctx) ""
        then (s, none)
        else store.record_event_handler s
            (handler_entry s ctx evt (extract_handler_type ctx) err duration)

    unfoldable pub after_publish : S → Ctx → Msg → Option Err → ℤ → S × Option Err
    unfolding event_entry record_handler
    after_publish s ctx evt err duration =
        let (s', rec_err) = store.record_event s (event_entry s ctx evt err duration) in
        elim rec_err [ some e ↦ (s', some e) | none ↦ record_handler s' ctx evt err duration ]

    unfoldable pub persistence_command : CommandAspect S Ctx Msg Res
    unfolding command_entry
    persistence_command = record {
      name = "persistence";
      order = pos 200;
      before_command = λ s ctx cmd. (s, ok ctx);
      after_command = λ s ctx cmd result err duration.
          store.record_command s (command_entry s ctx cmd result err (pos duration));
    }

    unfoldable pub persistence_query : QueryAspect S Ctx Msg Res
    unfolding query_entry
    persistence_query = record {
      name = "persistence";
      order = pos 200;
      before_query = λ s ctx query. (s, ok ctx);
      after_query = λ s ctx query result err duration.
          store.record_query s (query_entry s ctx query result err (pos duration));
    }

    unfoldable pub persistence_event : EventAspect S Ctx Msg Res
    unfolding after_publish
    persistence_event = record {
      name = "persistence";
      order = pos 200;
      before_publish = λ s ctx evt. (s, ok ctx);
      after_publish = λ s ctx evt err duration. after_publish s ctx evt err (pos duration);
    }
