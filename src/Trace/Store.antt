-- ===== src/Trace/Store.antt =====
-- RecordSpan and GetTrace of trace/store.go.
use ddd_qce.Common.{
  ℕ, zero, suc, ◌+◌, ◌-◌, ◌≤◌, ◌≡◌, refl, sym, ap, ◌∙◌, String, Bool, Option, none, some, List, [],
  ◌∷◌, ◌++◌, length, length-drop, drop, arith, if◌then◌else◌, str_eq, str_eq_iff, lookup,
  lookup-insert, lookup-nil, or_nil, append-nil, Bool-cases, inl, inr,
}
use ddd_qce.Common.Int.{ℤ, pos, pos_part, neg_part, ltb_ℤ}
use ddd_qce.Errors.{Result, ok, error, Run, returns}
use ddd_qce.Trace.{
  Span, InMemoryTraceStore, add_index, rebuild_index, count_expired, evict_first, evict,
  record_span, get_trace, trace_not_found,
}
use ddd_qce.Trace.Index.{
  positions, extended, lookup-rebuild_from, positions-append, of_trace, spans_at-all,
  positions-of_trace,
}

-- The index holds the indexes of every trace's spans, and no trace without one.
abbrev pub IsIndexed : InMemoryTraceStore → Type 0
IsIndexed s = (id : String) → lookup id s.trace_index ≡ extended none (positions 0 id s.spans)

abbrev recorded : InMemoryTraceStore → Span → InMemoryTraceStore
recorded s span = record s {
  spans = s.spans ++ span ∷ [];
  trace_index = add_index span.trace_id (length s.spans) s.trace_index;
}

extended-nil :
    (xs : List ℕ) (i : ℕ)
    → some (or_nil (extended none xs) ++ i ∷ []) ≡ extended none (xs ++ i ∷ [])
extended-nil [] i = refl
extended-nil (x ∷ xs) i = refl

recorded-IsIndexed :
    (s : InMemoryTraceStore) (span : Span) → IsIndexed s → IsIndexed (recorded s span)
unfolding add_index
recorded-IsIndexed s span h id =
    let own = span.trace_id in
    let n = length s.spans in
    let new : Option (List ℕ) = some (or_nil (lookup own s.trace_index) ++ n ∷ []) in
    let at : Bool → List ℕ = λ b. positions 0 id s.spans ++ (if b then n ∷ [] else []) in
    let entries : positions 0 id (s.spans ++ span ∷ []) ≡ at (str_eq own id) =
      positions-append 0 id s.spans span
      ∙ ap (λ k. positions 0 id s.spans ++ (if str_eq own id then k ∷ [] else [])) {x = 0 + n}
          {y = n} (omega arith) in
    lookup-insert own id (or_nil (lookup own s.trace_index) ++ n ∷ []) s.trace_index
    ∙ (elim (Bool-cases (str_eq own id)) [
      | inl e ↦
          ap (λ b. if b then new else lookup id s.trace_index) e
          ∙ ap (λ o. some (or_nil o ++ n ∷ [])) (h own)
          ∙ extended-nil (positions 0 own s.spans) n
          ∙ ap (λ k. extended none (positions 0 k s.spans ++ n ∷ [])) ((str_eq_iff own id).0 e)
          ∙ ap (extended none) (sym (entries ∙ ap at e))
      | inr e ↦
          ap (λ b. if b then new else lookup id s.trace_index) e
          ∙ h id
          ∙ ap (extended none) (sym (entries ∙ ap at e ∙ append-nil (positions 0 id s.spans)))
    ])

rebuild_index-IsIndexed : (s : InMemoryTraceStore) → IsIndexed (rebuild_index s)
unfolding rebuild_index
rebuild_index-IsIndexed s id =
    lookup-rebuild_from 0 [] s.spans id
    ∙ ap (λ o. extended o (positions 0 id s.spans)) (lookup-nil id)

rebuild_index-spans : (s : InMemoryTraceStore) → (rebuild_index s).spans ≡ s.spans
unfolding rebuild_index
rebuild_index-spans s = refl

-- What an eviction of the first n spans leaves.
abbrev Evicted : InMemoryTraceStore → ℕ → Run InMemoryTraceStore → Type 0
Evicted s n r =
    (s' : InMemoryTraceStore) × (r ≡ returns s') × IsIndexed s' × (s'.spans ≡ drop n s.spans)

evict_first-Evicted :
    (s : InMemoryTraceStore) (n : ℕ)
    → IsIndexed s
    → n ≤ length s.spans
    → Evicted s n (evict_first s n)
unfolding evict_first
evict_first-Evicted s zero h le = (s, ground arith, h, refl)
evict_first-Evicted s (suc n) h le =
    let s' = record s { spans = drop (suc n) s.spans } in
    (rebuild_index s', ground arith, rebuild_index-IsIndexed s', rebuild_index-spans s')

count_expired-le :
    (ttl : ℤ) (now : ℕ) (spans : List Span) → count_expired ttl now spans ≤ length spans
unfolding count_expired
count_expired-le ttl now [] = omega arith
count_expired-le ttl now (s ∷ rest) = ground (arith, count_expired-le ttl now rest)

-- How many spans an eviction drops.
abbrev pub dropped : InMemoryTraceStore → ℕ → ℕ
dropped s now =
    let expired = count_expired s.ttl now s.spans in
    if ltb_ℤ s.max_spans (pos (length s.spans - expired))
    then length s.spans + neg_part s.max_spans - pos_part s.max_spans
    else expired

dropped-le :
    (s : InMemoryTraceStore) (now m : ℕ)
    → s.max_spans ≡ pos m
    → (dropped s now ≤ length s.spans) × (length s.spans - dropped s now ≤ m)
dropped-le s now m h =
    let e = count_expired-le s.ttl now s.spans in (ground (arith, e), ground (arith, e))

evict-Evicted :
    (s : InMemoryTraceStore) (now m : ℕ)
    → IsIndexed s
    → s.max_spans ≡ pos m
    → Evicted s (dropped s now) (evict s now)
unfolding evict
evict-Evicted s now m h q = evict_first-Evicted s (dropped s now) h (dropped-le s now m q).0

-- RecordSpan on an exact index with a limit that is not negative returns, keeps the index exact,
-- keeps no more spans than the limit, and has only dropped spans at the front: what is left is an
-- end of the old spans and the new one.
pub record_span-IsIndexed :
    (s : InMemoryTraceStore) (span : Span) (now m : ℕ)
    → IsIndexed s
    → s.max_spans ≡ pos m
    → (s' : InMemoryTraceStore) × (record_span s span now ≡ returns s')
      × IsIndexed s'
      × (length s'.spans ≤ m)
      × ((n : ℕ) × (s'.spans ≡ drop n (s.spans ++ span ∷ [])))
unfolding record_span
record_span-IsIndexed s span now m h q =
    let t = recorded s span in
    let n = dropped t now in
    let (s', r, i, d) = evict-Evicted t now m (recorded-IsIndexed s span h) q in
    (
      s',
      r,
      i,
      omega (arith, ap length d, length-drop {0} n t.spans, (dropped-le t now m q).1),
      (n, d),
    )

-- On an exact index, GetTrace returns the spans of the trace in the order they were recorded, and
-- reports ErrNotFound if there are none; it never reads past the spans.
pub get_trace-of_trace :
    (s : InMemoryTraceStore) (id : String)
    → IsIndexed s
    → get_trace s id ≡ (elim (of_trace id s.spans) as (λ x. Run (Result (List Span))) [
      | [] ↦ returns (error (trace_not_found id))
      | span ∷ spans ↦ returns (ok (span ∷ spans))
    ])
unfolding get_trace
get_trace-of_trace s id h =
    let at = spans_at-all s.spans id in
    elim (positions-of_trace 0 s.spans id) [
      | inl (p, q) ↦ ground (arith, h id)
      | inr (j, js, t, ts, p, q) ↦ ground (arith, h id)
    ]
