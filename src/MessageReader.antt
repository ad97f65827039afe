-- ===== src/MessageReader.antt =====
-- observability/message_reader.go: the pages of the recorded messages that match a filter, over the
-- store of MessageStore with the entries of aspect/builtin/persistence.go. Times are numbers, and
-- a time that is not set is none.
pub mod Pages
mod Tests
use ddd_qce.Common.{
  ℕ, ◌+◌, ◌-◌, String, Bool, true, false, not, ◌&&◌, ◌||◌, Option, none, some, List, [], ◌∷◌, ◌++◌,
  length, drop, take, ltb, if◌then◌else◌, str_eq, min,
}
use ddd_qce.Common.Int.{ℤ, pos, negsuc, pos_part, ltb_ℤ}
use ddd_qce.Errors.{Run, returns, panics}
use ddd_qce.MessageStore.{
  InMemoryMessageStore, record_command as inner_command, record_query as inner_query,
  record_event as inner_event,
}

pub record CommandEntry : Type 0 where
  pub trace_id : String
  pub span_id : String
  pub command_type : String
  pub command_data : String
  pub result_type : String
  pub result_data : String
  pub err : String
  pub duration : ℤ
  pub created_at : ℕ

pub record QueryEntry : Type 0 where
  pub trace_id : String
  pub span_id : String
  pub query_type : String
  pub query_data : String
  pub result_type : String
  pub result_data : String
  pub err : String
  pub duration : ℤ
  pub created_at : ℕ

pub record EventEntry : Type 0 where
  pub trace_id : String
  pub span_id : String
  pub aggregate_id : String
  pub event_type : String
  pub event_data : String
  pub handler_count : ℤ
  pub err : String
  pub duration : ℤ
  pub created_at : ℕ

pub record EventHandlerEntry : Type 0 where
  pub trace_id : String
  pub span_id : String
  pub aggregate_id : String
  pub event_type : String
  pub handler_type : String
  pub status : String
  pub err : String
  pub duration : ℤ
  pub created_at : ℕ

pub record QueryResult (A : Type 0) : Type 0 where
  pub items : List A
  pub total : ℕ

pub record MessageFilter : Type 0 where
  pub message_type : String
  pub trace_id : String
  pub aggregate_id : String
  pub status : String
  pub since : Option ℕ
  pub limit : ℤ
  pub offset : ℤ

pub record ObservableMessageStore : Type 0 where
  pub inner : InMemoryMessageStore CommandEntry QueryEntry EventEntry EventHandlerEntry
  pub max_size : ℤ

-- The store of the recorder's result, or its panic.
abbrev pub with_inner :
    ObservableMessageStore
    → Run (InMemoryMessageStore CommandEntry QueryEntry EventEntry EventHandlerEntry)
    → Run ObservableMessageStore
with_inner s panics = panics
with_inner s (returns inner) = returns (record s { inner = inner })

unfoldable pub record_command : ObservableMessageStore → CommandEntry → Run ObservableMessageStore
record_command s entry = with_inner s (inner_command s.inner entry)

unfoldable pub record_query : ObservableMessageStore → QueryEntry → Run ObservableMessageStore
record_query s entry = with_inner s (inner_query s.inner entry)

unfoldable pub record_event : ObservableMessageStore → EventEntry → Run ObservableMessageStore
record_event s entry = with_inner s (inner_event s.inner entry)

-- Handler entries are not kept.
unfoldable pub record_event_handler :
    ObservableMessageStore → EventHandlerEntry → Run ObservableMessageStore
record_event_handler s entry = returns s

-- Type, trace id, error and time of an entry against the filter.
unfoldable pub match_string_filter : String → String → String → ℕ → MessageFilter → Bool
match_string_filter entry_type trace_id err created_at f =
    if not (str_eq f.message_type "") && not (str_eq entry_type f.message_type)
    then false
    else if not (str_eq f.trace_id "") && not (str_eq trace_id f.trace_id)
    then false
    else if str_eq f.status "error" && str_eq err ""
    then false
    else if str_eq f.status "success" && not (str_eq err "")
    then false
    else elim f.since [ none ↦ true | some t ↦ not (ltb created_at t) ]

unfoldable pub match_command_filter : CommandEntry → MessageFilter → Bool
unfolding match_string_filter
match_command_filter e f = match_string_filter e.command_type e.trace_id e.err e.created_at f

unfoldable pub match_query_filter : QueryEntry → MessageFilter → Bool
unfolding match_string_filter
match_query_filter e f = match_string_filter e.query_type e.trace_id e.err e.created_at f

unfoldable pub match_event_filter : EventEntry → MessageFilter → Bool
unfolding match_string_filter
match_event_filter e f =
    if not (str_eq f.aggregate_id "") && not (str_eq e.aggregate_id f.aggregate_id)
    then false
    else match_string_filter e.event_type e.trace_id e.err e.created_at f

module _ {A : Type 0} where
  -- The loop from the last entry back to the first.
  unfoldable pub scan_back : (A → Bool) → List A → List A
  scan_back matches [] = []
  scan_back matches (e ∷ es) = scan_back matches es ++ (if matches e then e ∷ [] else [])

  -- `filtered[offset:]` and `remaining[:limit]`; a negative offset panics.
  unfoldable pub page : List A → ℤ → ℤ → Run (QueryResult A)
  page filtered max_items start =
      let total = length filtered in
      let offset = if ltb_ℤ (pos total) start then pos total else start in
      if ltb_ℤ offset (pos 0)
      then panics
      else let remaining = drop (pos_part offset) filtered in
        let limit =
          if not (ltb_ℤ (pos 0) max_items) || ltb_ℤ (pos (length remaining)) max_items
          then pos (length remaining)
          else max_items in
        returns (record { items = take (pos_part limit) remaining; total = total })

unfoldable pub query_commands :
    ObservableMessageStore → MessageFilter → Run (QueryResult CommandEntry)
unfolding scan_back page
query_commands s f =
    page (scan_back (λ e. match_command_filter e f) s.inner.commands) f.limit f.offset

unfoldable pub query_queries : ObservableMessageStore → MessageFilter → Run (QueryResult QueryEntry)
unfolding scan_back page
query_queries s f = page (scan_back (λ e. match_query_filter e f) s.inner.queries) f.limit f.offset

unfoldable pub query_events : ObservableMessageStore → MessageFilter → Run (QueryResult EventEntry)
unfolding scan_back page
query_events s f = page (scan_back (λ e. match_event_filter e f) s.inner.events) f.limit f.offset
