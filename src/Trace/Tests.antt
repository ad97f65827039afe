-- ===== src/Trace/Tests.antt =====
-- Runs of the trace store on concrete spans.
use ddd_qce.Common.{
  ℕ, ◌≤◌, ◌≡◌, refl, String, [], ◌∷◌, ◌++◌, length, drop, lookup, Bool-cases, inl, inr, str_eq,
}
use ddd_qce.Common.Int.{pos}
use ddd_qce.Errors.{returns}
use ddd_qce.Trace.{Span, InMemoryTraceStore, record_span}
use ddd_qce.Trace.Store.{IsIndexed, record_span-IsIndexed}

abbrev span_at : String → ℕ → Span
span_at trace t = record {
  id = "s";
  trace_id = trace;
  parent_id = "";
  span_type = "command";
  name = "CreateOrder";
  status = "ok";
  err = "";
  started_at = t;
  duration = pos 3;
}

abbrev no_spans : InMemoryTraceStore
no_spans = record { spans = []; trace_index = []; ttl = pos 100; max_spans = pos 1 }

no_spans-IsIndexed : IsIndexed no_spans
unfolding lookup
no_spans-IsIndexed id = refl

record_span-IsIndexed_example :
    (s' : InMemoryTraceStore) × (record_span no_spans (span_at "t" 50) 60 ≡ returns s')
    × IsIndexed s'
    × (length s'.spans ≤ 1)
    × ((n : ℕ) × (s'.spans ≡ drop n ([] ++ span_at "t" 50 ∷ [])))
record_span-IsIndexed_example =
    record_span-IsIndexed no_spans (span_at "t" 50) 60 1 no_spans-IsIndexed refl

abbrev one_span : InMemoryTraceStore
one_span = record {
  spans = span_at "t" 50 ∷ [];
  trace_index = ("t", 0 ∷ []) ∷ [];
  ttl = pos 100;
  max_spans = pos 1;
}

one_span-IsIndexed : IsIndexed one_span
unfolding lookup
one_span-IsIndexed id = elim (Bool-cases (str_eq "t" id)) [
  | inl e ↦ rw (e) refl
  | inr e ↦ rw (e) refl
]
