-- ===== src/Tracing/Spans.antt =====
-- The span that aspect/builtin/tracing.go records around the rest of a command chain.
use ddd_qce.Common.{sym, subst, str_eq, str_eq_iff}
use ddd_qce.Common.{
  ℕ, ◌-◌, ◌≡◌, ◌≢◌, inl, inr, refl, ap, String, true, false, Option, none, some, List, ◌∷◌, arith,
  Bool-cases, if◌then◌else◌, str_eq_ne,
}
use ddd_qce.Common.Int.{ℤ, pos}
use ddd_qce.Errors.{Err, is_domain_error}
use ddd_qce.Trace.{Span}
use ddd_qce.Aspect.{CommandAspect, after_error, run_command_aspects}
use ddd_qce.Tracing.{
  TraceContext, TraceTools, new_span, get_trace_id, get_span_id, get_parent_span_id, with_trace,
  with_parent_span, trace_id_for, before, finish_span, logged, after, tracing_command,
  status_success, status_error, status_business_error,
}

-- What recording a span leaves: the state of the store's call, and after a failure the log of it.
pub data Records {S : Type 0} (tools : TraceTools S) (s : S) (span : Span) : S → Type 0 where
  stored : {t : S} → tools.record_span s span ≡ (t, none) → Records tools s span t
  lost :
      {t : S} {e : Err}
      → tools.record_span s span ≡ (t, some e)
      → Records tools s span (tools.log_failure t e)

-- The trace that the caller's context names, and a new one if it names none.
pub data IsTraceOf {S : Type 0} (tools : TraceTools S) (s : S) (ctx : TraceContext)
    : String → Type 0 where
  callers : get_trace_id ctx ≢ "" → IsTraceOf tools s ctx (get_trace_id ctx)
  new_trace : get_trace_id ctx ≡ "" → IsTraceOf tools s ctx (tools.new_id s).1

-- What the status of a span says of the error.
pub data Says : Option Err → String → Type 0 where
  success : Says none status_success
  business : {e : Err} → is_domain_error e ≡ true → Says (some e) status_business_error
  failure : {e : Err} → is_domain_error e ≡ false → Says (some e) status_error

module _ {S : Type 0} (tools : TraceTools S) where
  finish_span-Says :
      (span : Span) (err : Option Err) (d : ℤ) → Says err (finish_span tools span err d).status
  unfolding finish_span
  finish_span-Says span none d = success
  finish_span-Says span (some e) d = elim (Bool-cases (is_domain_error e)) [
    | inl h ↦ rw (h) (business h)
    | inr h ↦ rw (h) (failure h)
  ]

  finish_span-ids :
      (span : Span) (err : Option Err) (d : ℤ)
      → let done = finish_span tools span err d in
        (done.id ≡ span.id)
        × (done.trace_id ≡ span.trace_id)
        × (done.parent_id ≡ span.parent_id)
        × (done.span_type ≡ span.span_type)
        × (done.name ≡ span.name)
  unfolding finish_span
  finish_span-ids span none d = (refl, refl, refl, refl, refl)
  finish_span-ids span (some e) d = (refl, refl, refl, refl, refl)

  logged-Records :
      (s t : S) (span : Span) (err : Option Err)
      → tools.record_span s span ≡ (t, err)
      → Records tools s span (logged tools (t, err))
  logged-Records s t span none h = stored h
  logged-Records s t span (some e) h = lost h

  trace_id_for-IsTraceOf :
      (s : S) (ctx : TraceContext) → IsTraceOf tools s ctx (trace_id_for tools s ctx).1
  unfolding trace_id_for
  trace_id_for-IsTraceOf s ctx = elim (Bool-cases (str_eq (get_trace_id ctx) "")) [
    | inl h ↦ rw (h) (new_trace (ground (arith, h, str_eq_iff (get_trace_id ctx) "")))
    | inr h ↦
        rw (h) (callers (λ e. absurd (ground (arith, h, str_eq_iff (get_trace_id ctx) "", e))))
  ]

  after-record_span :
      (s : S) (ctx : TraceContext) (span : Span) (err : Option Err) (d : ℤ)
      → ctx.span ≡ some span
      → tools.has_store ≡ true
      → after tools s ctx err d
        ≡ (logged tools (tools.record_span s (finish_span tools span err d)), none)
  unfolding after
  after-record_span s ctx span err d h k = ground (arith, h, k)

module _ {S Msg Res : Type 0} (tools : TraceTools S) (type_name : Msg → String) (clock : S → ℕ)
    (next : S → TraceContext → S × Option Res × Option Err) where
  -- A command under the tracing aspect and the aspects inside it.
  abbrev pub traced :
      S
      → TraceContext
      → Msg
      → List (CommandAspect S TraceContext Msg Res)
      → S × Option Res × Option Err
  traced s ctx cmd inner =
      run_command_aspects clock s ctx cmd next (tracing_command tools type_name ∷ inner)

  -- Tracing with a store changes neither the result nor the error of the rest of the chain, which
  -- runs in the context of a new span, and records one span of the command after it: the new one,
  -- whose parent is the span of the caller's context, whose trace is the caller's if its id is not
  -- empty and a new one if it is, and whose status is success without an error, business_error for
  -- a domain error and error for any other. A failure of the store is logged and no error.
  pub traced-recorded :
      (s : S) (ctx : TraceContext) (cmd : Msg) (inner : List (CommandAspect S TraceContext Msg Res))
      → tools.has_store ≡ true
      → let (s1, ctx1) = before tools "command" (type_name cmd) s ctx in
        let (s2, result, err) = run_command_aspects clock s1 ctx1 cmd next inner in
        (span : Span) × (s3 : S) × (traced s ctx cmd inner ≡ (s3, result, err))
        × Records tools s2 span s3
        × IsTraceOf tools s ctx span.trace_id
        × (get_trace_id ctx1 ≡ span.trace_id)
        × (get_span_id ctx1 ≡ span.id)
        × (span.parent_id ≡ get_span_id ctx)
        × (get_parent_span_id ctx1 ≡ get_span_id ctx)
        × (span.span_type ≡ "command")
        × (span.name ≡ type_name cmd)
        × Says err span.status
  unfolding tracing_command run_command_aspects after before with_trace with_parent_span
      get_trace_id get_span_id get_parent_span_id after_error
  traced-recorded s ctx cmd inner h =
      let (s1, ctx1) = before tools "command" (type_name cmd) s ctx in
      let r = run_command_aspects clock s1 ctx1 cmd next inner in
      let found = trace_id_for tools s ctx in
      let fresh = tools.new_id found.0 in
      let span =
        new_span fresh.1 found.1 (get_span_id ctx) "command" (type_name cmd) (tools.now fresh.0) in
      let d = pos (clock r.0 - clock s1) in
      let done = finish_span tools span r.2 d in
      let (same_id, same_trace, same_parent, same_type, same_name) =
        finish_span-ids tools span r.2 d in
      (
        done,
        logged tools (tools.record_span r.0 done),
        ap (λ p. (p.0, r.1, after_error r.2 p.1))
            (after-record_span tools r.0 ctx1 span r.2 d refl h),
        logged-Records tools r.0 (tools.record_span r.0 done).0 done (tools.record_span r.0 done).1
            refl,
        subst (IsTraceOf tools s ctx) (sym same_trace) (trace_id_for-IsTraceOf tools s ctx),
        sym same_trace,
        sym same_id,
        same_parent,
        refl,
        same_type,
        same_name,
        finish_span-Says tools span r.2 d,
      )

-- A command that is sent from inside a traced one, in the context of its span, gets a span of the
-- same trace whose parent is that span, if the ids are not empty.
pub before-before :
    {S : Type 0} (tools : TraceTools S) (kind name kind' name' : String) (s s' : S)
    → (ctx : TraceContext)
    → let (s1, ctx1) = before tools kind name s ctx in
      get_trace_id ctx1 ≢ ""
      → let (s2, ctx2) = before tools kind' name' s' ctx1 in
        (get_trace_id ctx2 ≡ get_trace_id ctx1) × (get_parent_span_id ctx2 ≡ get_span_id ctx1)
unfolding before with_trace with_parent_span get_trace_id get_span_id get_parent_span_id
    trace_id_for
before-before tools kind name kind' name' s s' ctx ne = (
  ap (λ b. (if b then tools.new_id s' else (s', (trace_id_for tools s ctx).1)).1)
      (str_eq_ne (trace_id_for tools s ctx).1 "" ne),
  refl,
)
