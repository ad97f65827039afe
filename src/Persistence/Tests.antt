-- ===== src/Persistence/Tests.antt =====
-- A command that fails under the persistence aspect. The state is the recorded commands.
use ddd_qce.Common.{
  ℕ, ◌≡◌, ap, String, true, false, not, is_some, Option, none, some, List, [], ◌∷◌, ◌++◌, arith,
  str_eq,
}
use ddd_qce.Errors.{Err, ok, err_not_found}
use ddd_qce.Aspect.{after_error, run_command_aspects}
use ddd_qce.MessageReader.{CommandEntry, match_command_filter}
use ddd_qce.Persistence.{MessageStore, MessageView}
use ddd_qce.Persistence.Entries.{HasTexts, status_filter, persisted, persisted-recorded}

abbrev view : MessageView (List CommandEntry) String ℕ ℕ
view = record {
  trace_id = λ ctx. ctx;
  span_id = λ ctx. "span";
  handler_type = λ ctx. none;
  type_name = λ m. "Pay";
  marshal = λ m. ok "{}";
  aggregate_id = λ m. "a";
  event_name = λ m. "Paid";
  result_name = λ r. "Receipt";
  marshal_result = λ r. ok "{}";
  marshal_failed = λ e. "null";
  error_text = λ e. "failed";
  now = λ s. 5;
}

abbrev store : MessageStore (List CommandEntry)
store = record {
  record_command = λ s e. (s ++ e ∷ [], none);
  record_query = λ s e. (s, none);
  record_event = λ s e. (s, none);
  record_event_handler = λ s e. (s, none);
}

view-HasTexts : HasTexts view
view-HasTexts e h = let k : false ≡ true = ap (λ x. str_eq x "") h in absurd (ground (arith, k))

abbrev not_found : List CommandEntry → String → List CommandEntry × Option ℕ × Option Err
not_found s ctx = (s, none, some err_not_found)

persisted-recorded_example :
    let (s', result, err) = run_command_aspects {Msg = ℕ} (λ s. 5) [] "trace" 0 not_found [] in
    (entry : CommandEntry) × (let (s'', e) = store.record_command s' entry in
      persisted view store (λ s. 5) not_found [] "trace" 0 [] ≡ (s'', result, after_error err e))
    × (entry.trace_id ≡ "trace")
    × (entry.span_id ≡ "span")
    × (match_command_filter entry (status_filter "success") ≡ not (is_some err))
    × (match_command_filter entry (status_filter "error") ≡ is_some err)
persisted-recorded_example =
    persisted-recorded view store (λ s. 5) not_found view-HasTexts [] "trace" 0 []
