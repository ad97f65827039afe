-- ===== src/Tracing.antt =====
-- aspect/builtin/tracing.go with the context of trace/trace.go: the aspect that records a span for
-- each command, query and event. The trace store, the logger, fresh ids, the clock and the text of
-- an error act on a state `S`, parameters; so is the name of a message's type.
pub mod Spans
mod Tests
use ddd_qce.Common.{ℕ, String, Bool, true, false, Option, none, some, if◌then◌else◌, str_eq}
use ddd_qce.Common.Int.{ℤ, pos}
use ddd_qce.Errors.{Err, Result, ok, error, is_domain_error}
use ddd_qce.Trace.{Span}
use ddd_qce.Aspect.{CommandAspect, QueryAspect, EventAspect}

-- The value under traceContextKey.
pub record TraceIds : Type 0 where
  pub trace_id : String
  pub span_id : String

-- The three keys of the context that tracing uses.
pub record TraceContext : Type 0 where
  pub trace : Option TraceIds
  pub parent_span_id : Option String
  pub span : Option Span

unfoldable pub with_trace : TraceContext → String → String → TraceContext
with_trace ctx trace_id span_id = record ctx {
  trace = some (record { trace_id = trace_id; span_id = span_id });
}

unfoldable pub get_trace_id : TraceContext → String
get_trace_id ctx = elim ctx.trace [ none ↦ "" | some ids ↦ ids.trace_id ]

unfoldable pub get_span_id : TraceContext → String
get_span_id ctx = elim ctx.trace [ none ↦ "" | some ids ↦ ids.span_id ]

unfoldable pub with_parent_span : TraceContext → String → TraceContext
with_parent_span ctx id = record ctx { parent_span_id = some id }

unfoldable pub get_parent_span_id : TraceContext → String
get_parent_span_id ctx = elim ctx.parent_span_id [ none ↦ "" | some id ↦ id ]

-- What the aspect calls.
pub record TraceTools (S : Type 0) : Type 0 where
  pub has_store : Bool
  pub record_span : S → Span → S × Option Err
  pub log_failure : S → Err → S
  pub new_id : S → S × String
  pub now : S → ℕ
  pub error_text : Err → String

abbrev pub status_success : String
status_success = "success"

abbrev pub status_error : String
status_error = "error"

abbrev pub status_business_error : String
status_business_error = "business_error"

-- The span at the start, of a type and a name.
abbrev pub new_span : String → String → String → String → String → ℕ → Span
new_span span_id trace_id parent_id span_type name started_at = record {
  id = span_id;
  trace_id = trace_id;
  parent_id = parent_id;
  span_type = span_type;
  name = name;
  status = "";
  err = "";
  started_at = started_at;
  duration = pos 0;
}

module _ {S : Type 0} (tools : TraceTools S) where
  -- The trace id of the context, or a new one.
  unfoldable pub trace_id_for : S → TraceContext → S × String
  unfolding get_trace_id
  trace_id_for s ctx =
      if str_eq (get_trace_id ctx) "" then tools.new_id s else (s, get_trace_id ctx)

  -- BeforeCommand, BeforeQuery and BeforePublish.
  unfoldable pub before : String → String → S → TraceContext → S × TraceContext
  unfolding trace_id_for get_span_id with_trace with_parent_span
  before span_type name s ctx =
      let (s1, trace_id) = trace_id_for s ctx in
      let (s2, span_id) = tools.new_id s1 in
      let parent_id = get_span_id ctx in
      (
        s2,
        record (with_parent_span (with_trace ctx trace_id span_id) parent_id) {
          span = some (new_span span_id trace_id parent_id span_type name (tools.now s2));
        },
      )

  unfoldable pub finish_span : Span → Option Err → ℤ → Span
  finish_span span none duration = record span { duration = duration; status = status_success }
  finish_span span (some e) duration = record span {
    duration = duration;
    status = if is_domain_error e then status_business_error else status_error;
    err = tools.error_text e;
  }

  -- A failure of RecordSpan is logged and forgotten.
  abbrev pub logged : S × Option Err → S
  logged (s, none) = s
  logged (s, some e) = tools.log_failure s e

  -- AfterCommand, AfterQuery and AfterPublish.
  unfoldable pub after : S → TraceContext → Option Err → ℤ → S × Option Err
  unfolding finish_span
  after s ctx err duration = elim ctx.span [
    | none ↦ (s, none)
    | some span ↦
        if tools.has_store
        then (logged (tools.record_span s (finish_span span err duration)), none)
        else (s, none)
  ]

  module _ {Msg Res : Type 0} (type_name : Msg → String) where
    unfoldable pub tracing_command : CommandAspect S TraceContext Msg Res
    unfolding before after
    tracing_command = record {
      name = "tracing";
      order = pos 0;
      before_command = λ s ctx cmd. (
        (before "command" (type_name cmd) s ctx).0,
        ok (before "command" (type_name cmd) s ctx).1,
      );
      after_command = λ s ctx cmd result err duration. after s ctx err (pos duration);
    }

    unfoldable pub tracing_query : QueryAspect S TraceContext Msg Res
    unfolding before after
    tracing_query = record {
      name = "tracing";
      order = pos 0;
      before_query = λ s ctx query. (
        (before "query" (type_name query) s ctx).0,
        ok (before "query" (type_name query) s ctx).1,
      );
      after_query = λ s ctx query result err duration. after s ctx err (pos duration);
    }

    unfoldable pub tracing_event : EventAspect S TraceContext Msg Res
    unfolding before after
    tracing_event = record {
      name = "tracing";
      order = pos 0;
      before_publish = λ s ctx event. (
        (before "event" (type_name event) s ctx).0,
        ok (before "event" (type_name event) s ctx).1,
      );
      after_publish = λ s ctx event err duration. after s ctx err (pos duration);
    }
