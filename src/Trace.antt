-- ===== src/Trace.antt =====
-- trace/store.go: the in-memory store of trace spans, with its index and its eviction.
-- Times are numbers; a duration is an integer. `strings.Contains` is a parameter.
pub mod Index
pub mod Store
mod Tests
use ddd_qce.Common.{
  ℕ, zero, suc, ◌+◌, ◌-◌, String, Bool, true, false, not, ◌&&◌, ◌||◌, Option, none, some, List, [],
  ◌∷◌, ◌++◌, length, drop, get_elem?, ltb, leb, if◌then◌else◌, str_eq, Dict, lookup, insert, or_nil,
}
use ddd_qce.Common.Int.{ℤ, pos, pos_part, neg_part, ltb_ℤ}
use ddd_qce.Errors.{Err, Result, ok, error, Arg, wrap, err_not_found, Run, returns, panics}

pub record Span : Type 0 where
  pub id : String
  pub trace_id : String
  pub parent_id : String
  pub span_type : String
  pub name : String
  pub status : String
  pub err : String
  pub started_at : ℕ
  pub duration : ℤ

pub record InMemoryTraceStore : Type 0 where
  pub spans : List Span
  pub trace_index : Dict (List ℕ)
  pub ttl : ℤ
  pub max_spans : ℤ

-- A time that is not set is none.
pub record TraceFilter : Type 0 where
  pub trace_id : String
  pub span_type : String
  pub status : String
  pub start_time : Option ℕ
  pub end_time : Option ℕ
  pub name_contains : String

unfoldable pub add_index : String → ℕ → Dict (List ℕ) → Dict (List ℕ)
add_index id i index = insert id (or_nil (lookup id index) ++ i ∷ []) index

-- The loop of rebuildIndex, from index i on.
unfoldable pub rebuild_from : ℕ → Dict (List ℕ) → List Span → Dict (List ℕ)
unfolding add_index
rebuild_from i index [] = index
rebuild_from i index (s ∷ rest) = rebuild_from (suc i) (add_index s.trace_id i index) rest

unfoldable pub rebuild_index : InMemoryTraceStore → InMemoryTraceStore
unfolding rebuild_from
rebuild_index s = record s { trace_index = rebuild_from 0 [] s.spans }

-- `StartedAt.Before(now.Add(-ttl))`.
unfoldable pub is_expired : ℤ → ℕ → Span → Bool
is_expired ttl now s = ltb (s.started_at + pos_part ttl) (now + neg_part ttl)

-- How many spans at the front have expired.
unfoldable pub count_expired : ℤ → ℕ → List Span → ℕ
unfolding is_expired
count_expired ttl now [] = 0
count_expired ttl now (s ∷ rest) =
    let n = count_expired ttl now rest in if is_expired ttl now s then suc n else 0

-- `spans[firstValid:]` panics past the end, where maxSpans is negative.
unfoldable pub evict_first : InMemoryTraceStore → ℕ → Run InMemoryTraceStore
unfolding rebuild_index
evict_first s first_valid =
    if ltb (length s.spans) first_valid
    then panics
    else if ltb 0 first_valid
    then returns (rebuild_index (record s { spans = drop first_valid s.spans }))
    else returns s

unfoldable pub evict : InMemoryTraceStore → ℕ → Run InMemoryTraceStore
unfolding count_expired evict_first
evict s now =
    let expired = count_expired s.ttl now s.spans in
    evict_first s (
      if ltb_ℤ s.max_spans (pos (length s.spans - expired))
      then length s.spans + neg_part s.max_spans - pos_part s.max_spans
      else expired)

unfoldable pub record_span : InMemoryTraceStore → Span → ℕ → Run InMemoryTraceStore
unfolding add_index evict
record_span s span now =
    evict
      (record s {
        spans = s.spans ++ span ∷ [];
        trace_index = add_index span.trace_id (length s.spans) s.trace_index;
      })
      now

-- The spans at the indexes; none if one is out of range, which panics.
unfoldable pub spans_at : List Span → List ℕ → Option (List Span)
spans_at spans [] = some []
spans_at spans (i ∷ is) =
    let rest = spans_at spans is in
    elim (get_elem? spans i) [
      | none ↦ none
      | some s ↦ elim rest [ none ↦ none | some ss ↦ some (s ∷ ss) ]
    ]

abbrev pub trace_not_found : String → Err
trace_not_found id = wrap "trace %s: %w" (Arg.str id ∷ []) err_not_found

unfoldable pub get_trace : InMemoryTraceStore → String → Run (Result (List Span))
unfolding spans_at
get_trace s trace_id = elim (lookup trace_id s.trace_index) [
  | none ↦ returns (error (trace_not_found trace_id))
  | some indexes ↦ elim (spans_at s.spans indexes) [
    | none ↦ panics
    | some spans ↦ returns (ok spans)
  ]
]

unfoldable pub any_match : List Span → (Span → Bool) → Bool
any_match [] pred = false
any_match (s ∷ rest) pred = if pred s then true else any_match rest pred

module _ (contains : String → String → Bool) where
  unfoldable pub matches_filter : List Span → TraceFilter → Bool
  unfolding any_match
  matches_filter spans filter =
      if not (str_eq filter.trace_id "")
        && not (any_match spans (λ s. str_eq s.trace_id filter.trace_id))
      then false
      else if not (str_eq filter.span_type "")
          && not (any_match spans (λ s. str_eq s.span_type filter.span_type))
      then false
      else if not (str_eq filter.status "")
          && not (any_match spans (λ s. str_eq s.status filter.status))
      then false
      else if elim filter.start_time [
        | none ↦ false
        | some t ↦ not (any_match spans (λ s. leb t s.started_at))
      ]
      then false
      else if elim filter.end_time [
        | none ↦ false
        | some t ↦ not (any_match spans (λ s. leb s.started_at t))
      ]
      then false
      else if not (str_eq filter.name_contains "")
          && not (any_match spans (λ s. contains s.name filter.name_contains))
      then false
      else true

  -- The loop of ListTraces over the entries of the index; none if an index is out of range.
  unfoldable pub list_from_index : List Span → TraceFilter → Dict (List ℕ) → Option (List String)
  unfolding spans_at matches_filter
  list_from_index spans filter [] = some []
  list_from_index spans filter ((trace_id, indexes) ∷ entries) =
      let rest = list_from_index spans filter entries in
      if not (str_eq filter.trace_id "") && not (str_eq trace_id filter.trace_id)
      then rest
      else elim (spans_at spans indexes) [
        | none ↦ none
        | some found ↦
            if matches_filter found filter
            then elim rest [ none ↦ none | some ids ↦ some (trace_id ∷ ids) ]
            else rest
      ]

  unfoldable pub list_traces : InMemoryTraceStore → TraceFilter → Run (List String)
  unfolding list_from_index
  list_traces s filter = elim (list_from_index s.spans filter s.trace_index) [
    | none ↦ panics
    | some ids ↦ returns ids
  ]
