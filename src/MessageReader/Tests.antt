-- ===== src/MessageReader/Tests.antt =====
-- Runs of the queries over recorded messages.
use ddd_qce.Common.{
  ℕ, suc, ◌*◌, ◌≤◌, ◌≡◌, refl, sym, subst, List, [], ◌∷◌, arith, none, length, String, true,
}
use ddd_qce.Common.Int.{pos, negsuc}
use ddd_qce.Errors.{returns, panics}
use ddd_qce.MessageReader.{
  CommandEntry, ObservableMessageStore, MessageFilter, query_commands, record_command,
  match_command_filter,
}
use ddd_qce.MessageReader.Pages.{walk, matching, walk-matching, query_commands-record_command}

abbrev command_entry : String → String → CommandEntry
command_entry kind err = record {
  trace_id = "t";
  span_id = "s";
  command_type = kind;
  command_data = "";
  result_type = "";
  result_data = "";
  err = err;
  duration = pos 1;
  created_at = 1;
}

abbrev three : ObservableMessageStore
three = record {
  inner = record {
    commands =
        command_entry "Place" "" ∷ command_entry "Pay" "" ∷ command_entry "Place" "full" ∷ [];
    queries = [];
    events = [];
    handlers = [];
    max_size = pos 3;
  };
  max_size = pos 3;
}

abbrev placed : MessageFilter
placed = record {
  message_type = "Place";
  trace_id = "";
  aggregate_id = "";
  status = "";
  since = none;
  limit = pos 0;
  offset = pos 0;
}

matches_placed :
    matching three placed ≡ command_entry "Place" "full" ∷ command_entry "Place" "" ∷ []
unfolding match_command_filter
matches_placed = refl

two_match : length (matching three placed) ≤ 2 * suc 0
two_match = subst (λ xs. length xs ≤ 2 * suc 0) (sym matches_placed) (omega arith)

late_matches : match_command_filter (command_entry "Place" "late") placed ≡ true
unfolding match_command_filter
late_matches = refl

walk-matching_example : walk three placed 0 2 0 ≡ returns (matching three placed)
walk-matching_example = walk-matching three placed 0 2 two_match

query_commands-record_command_example :
    (s' : ObservableMessageStore) × (rest : List CommandEntry) × (total : ℕ) × (record_command three
        (command_entry "Place" "late")
      ≡ returns s')
    × (query_commands s' (record placed { limit = pos 1; offset = pos 0 })
        ≡ returns (record { items = command_entry "Place" "late" ∷ rest; total = total }))
query_commands-record_command_example =
    query_commands-record_command three (command_entry "Place" "late") placed 0 2 refl late_matches

-- A negative offset panics.
negative_offset : query_commands three (record placed { offset = negsuc 0 }) ≡ panics
unfolding query_commands match_command_filter
negative_offset = refl
