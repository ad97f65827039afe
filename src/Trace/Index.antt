-- ===== src/Trace/Index.antt =====
-- The index of trace/store.go: what rebuildIndex and RecordSpan make of it, and what it finds.
use ddd_qce.Common.{
  ℕ, suc, ◌+◌, ◌≡◌, refl, sym, ap, ◌∙◌, String, Option, some, List, [], ◌∷◌, ◌++◌, length,
  length-append, get_elem?, arith, if◌then◌else◌, str_eq, str_eq_iff, Dict, lookup, lookup-insert,
  or_nil, append_assoc, filter_by, Bool-cases, ◌⊎◌, inl, inr,
}
use ddd_qce.Trace.{Span, add_index, rebuild_from, spans_at}

-- The indexes of the spans of a trace.
abbrev pub positions : ℕ → String → List Span → List ℕ
positions i id [] = []
positions i id (s ∷ rest) =
    if str_eq s.trace_id id then i ∷ positions (suc i) id rest else positions (suc i) id rest

-- An entry of the index, with more indexes at its end.
abbrev pub extended : Option (List ℕ) → List ℕ → Option (List ℕ)
extended o [] = o
extended o (i ∷ is) = some (or_nil o ++ i ∷ is)

extended-append :
    (o : Option (List ℕ)) (i : ℕ) (is : List ℕ)
    → extended (some (or_nil o ++ i ∷ [])) is ≡ extended o (i ∷ is)
extended-append o i [] = refl
extended-append o i (j ∷ js) = ap (λ l. some l) (append_assoc (or_nil o) (i ∷ []) (j ∷ js))

pub lookup-rebuild_from :
    (i : ℕ) (index : Dict (List ℕ)) (spans : List Span) (id : String)
    → lookup id (rebuild_from i index spans) ≡ extended (lookup id index) (positions i id spans)
unfolding rebuild_from add_index
lookup-rebuild_from i index [] id = refl
lookup-rebuild_from i index (s ∷ rest) id =
    let next = add_index s.trace_id i index in
    let l = lookup-insert s.trace_id id (or_nil (lookup s.trace_id index) ++ i ∷ []) index in
    let ih = lookup-rebuild_from (suc i) next rest id in
    elim (Bool-cases (str_eq s.trace_id id)) [
      | inl e ↦ ground (
        arith,
        str_eq_iff s.trace_id id,
        extended-append (lookup id index) i (positions (suc i) id rest),
      )
      | inr e ↦ ground (arith)
    ]

pub positions-append :
    (i : ℕ) (id : String) (spans : List Span) (s : Span)
    → positions i id (spans ++ s ∷ [])
      ≡ positions i id spans ++ (if str_eq s.trace_id id then (i + length spans) ∷ [] else [])
positions-append i id [] s = ground arith
positions-append i id (x ∷ rest) s = ground (arith, positions-append (suc i) id rest s)

get_elem?-length :
    (before : List Span) (s : Span) (rest : List Span)
    → get_elem? (before ++ s ∷ rest) (length before) ≡ some s
get_elem?-length [] s rest = refl
get_elem?-length (b ∷ before) s rest = get_elem?-length before s rest

abbrev pub of_trace : String → List Span → List Span
of_trace id = filter_by (λ s. str_eq s.trace_id id)

-- The spans at the indexes of a trace are the spans of the trace.
spans_at-positions :
    (before spans : List Span) (id : String)
    → spans_at (before ++ spans) (positions (length before) id spans) ≡ some (of_trace id spans)
unfolding spans_at
spans_at-positions before [] id = refl
spans_at-positions before (s ∷ rest) id =
    let all = before ++ s ∷ rest in
    let next : spans_at all (positions (suc (length before)) id rest) ≡ some (of_trace id rest) =
      ap (λ n. spans_at all (positions n id rest)) {x = suc (length before)}
        {y = length (before ++ s ∷ [])} (omega (arith, length-append {0} before (s ∷ [])))
      ∙ ap (λ l. spans_at l (positions (length (before ++ s ∷ [])) id rest))
          (sym (append_assoc before (s ∷ []) rest))
      ∙ spans_at-positions (before ++ s ∷ []) rest id in
    ground (arith, get_elem?-length before s rest)

pub spans_at-all :
    (spans : List Span) (id : String)
    → spans_at spans (positions 0 id spans) ≡ some (of_trace id spans)
spans_at-all spans id = spans_at-positions [] spans id

pub positions-of_trace :
    (i : ℕ) (spans : List Span) (id : String)
    → ((positions i id spans ≡ []) × (of_trace id spans ≡ []))
      ⊎ ((j : ℕ) × (js : List ℕ) × (s : Span) × (ss : List Span) × (positions i id spans ≡ j ∷ js)
          × (of_trace id spans ≡ s ∷ ss))
positions-of_trace i [] id = inl (refl, refl)
positions-of_trace i (s ∷ rest) id = elim (Bool-cases (str_eq s.trace_id id)) [
  | inl e ↦ inr (i, positions (suc i) id rest, s, of_trace id rest, ground arith, ground arith)
  | inr e ↦ elim (positions-of_trace (suc i) rest id) [
    | inl (p, q) ↦ inl (ground arith, ground arith)
    | inr (j, js, t, ts, p, q) ↦ inr (j, js, t, ts, ground arith, ground arith)
  ]
]
