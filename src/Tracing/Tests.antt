-- ===== src/Tracing/Tests.antt =====
-- A traced command. The state is the recorded spans and the ids to come.
use ddd_qce.Common.{
  ℕ, ◌≡◌, ◌≢◌, refl, String, true, false, ap, Option, none, some, List, [], ◌∷◌, ◌++◌, arith,
  str_eq,
}
use ddd_qce.Errors.{Err, err_not_found}
use ddd_qce.Trace.{Span}
use ddd_qce.Aspect.{run_command_aspects}
use ddd_qce.Tracing.{
  TraceContext, TraceTools, before, get_trace_id, get_span_id, get_parent_span_id, trace_id_for,
  with_trace, with_parent_span,
}
use ddd_qce.Tracing.Spans.{Says, Records, IsTraceOf, traced, traced-recorded}

abbrev Recorded : Type 0
Recorded = List Span × List String

abbrev next_id : Recorded → Recorded × String
next_id (spans, []) = ((spans, []), "last")
next_id (spans, id ∷ ids) = ((spans, ids), id)

abbrev tools : TraceTools Recorded
tools = record {
  has_store = true;
  record_span = λ s span. ((s.0 ++ span ∷ [], s.1), none);
  log_failure = λ s e. s;
  new_id = next_id;
  now = λ s. 5;
  error_text = λ e. "failed";
}

abbrev no_trace : TraceContext
no_trace = record { trace = none; parent_span_id = none; span = none }

abbrev no_spans : Recorded
no_spans = ([], "t1" ∷ "s1" ∷ "s2" ∷ [])

abbrev not_found : Recorded → TraceContext → Recorded × Option ℕ × Option Err
not_found s ctx = (s, none, some err_not_found)

traced-recorded_example :
    let (s1, ctx1) = before tools "command" "Pay" no_spans no_trace in
    let (s2, result, err) = run_command_aspects {Msg = ℕ} (λ s. 5) s1 ctx1 0 not_found [] in
    (span : Span) × (s3 : Recorded) × (traced {Msg = ℕ} tools
        (λ m. "Pay")
        (λ s. 5)
        not_found
        no_spans
        no_trace
        0
        []
      ≡ (s3, result, err))
    × Records tools s2 span s3
    × IsTraceOf tools no_spans no_trace span.trace_id
    × (get_trace_id ctx1 ≡ span.trace_id)
    × (get_span_id ctx1 ≡ span.id)
    × (span.parent_id ≡ get_span_id no_trace)
    × (get_parent_span_id ctx1 ≡ get_span_id no_trace)
    × (span.span_type ≡ "command")
    × (span.name ≡ "Pay")
    × Says err span.status
traced-recorded_example =
    traced-recorded tools (λ m. "Pay") (λ s. 5) not_found no_spans no_trace 0 [] refl

ids_not_empty : get_trace_id (before tools "command" "Pay" no_spans no_trace).1 ≢ ""
unfolding before get_trace_id trace_id_for with_trace with_parent_span
ids_not_empty h = let k : false ≡ true = ap (λ x. str_eq x "") h in absurd (ground (arith, k))
