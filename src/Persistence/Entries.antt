-- ===== src/Persistence/Entries.antt =====
-- The entry that the PersistenceAspect of aspect/builtin/persistence.go records for a command, and the
-- filters of the message reader on it.
use ddd_qce.Common.{
  ℕ, ◌-◌, ◌≡◌, ◌≢◌, refl, String, not, Option, none, some, is_some, List, ◌∷◌, str_eq_ne,
}
use ddd_qce.Common.Int.{ℤ, pos}
use ddd_qce.Errors.{Err}
use ddd_qce.Aspect.{CommandAspect, after_error, run_command_aspects}
use ddd_qce.MessageReader.{CommandEntry, MessageFilter, match_command_filter}
use ddd_qce.Persistence.{MessageStore, MessageView, command_entry, persistence_command}

-- A filter on the status alone.
abbrev pub status_filter : String → MessageFilter
status_filter status = record {
  message_type = "";
  trace_id = "";
  aggregate_id = "";
  status = status;
  since = none;
  limit = pos 0;
  offset = pos 0;
}

module _ {S Ctx Msg Res : Type 0} (view : MessageView S Ctx Msg Res) where
  -- The texts of errors are not empty.
  abbrev pub HasTexts : Type 0
  HasTexts = (e : Err) → view.error_text e ≢ ""

  command_entry-success :
      (texts : HasTexts) (s : S) (ctx : Ctx) (cmd : Msg) (result : Option Res) (err : Option Err)
      → (d : ℤ)
      → match_command_filter (command_entry view s ctx cmd result err d) (status_filter "success")
        ≡ not (is_some err)
  unfolding match_command_filter command_entry
  command_entry-success texts s ctx cmd result none d = refl
  command_entry-success texts s ctx cmd result (some e) d =
      rw (str_eq_ne (view.error_text e) "" (texts e)) refl

  command_entry-error :
      (texts : HasTexts) (s : S) (ctx : Ctx) (cmd : Msg) (result : Option Res) (err : Option Err)
      → (d : ℤ)
      → match_command_filter (command_entry view s ctx cmd result err d) (status_filter "error")
        ≡ is_some err
  unfolding match_command_filter command_entry
  command_entry-error texts s ctx cmd result none d = refl
  command_entry-error texts s ctx cmd result (some e) d =
      rw (str_eq_ne (view.error_text e) "" (texts e)) refl

module _ {S Ctx Msg Res : Type 0} (view : MessageView S Ctx Msg Res) (store : MessageStore S)
    (clock : S → ℕ) (next : S → Ctx → S × Option Res × Option Err) where
  -- A command under the persistence aspect and the aspects inside it.
  abbrev pub persisted :
      S → Ctx → Msg → List (CommandAspect S Ctx Msg Res) → S × Option Res × Option Err
  persisted s ctx cmd inner =
      run_command_aspects clock s ctx cmd next (persistence_command view store ∷ inner)

  -- The aspect runs the rest of the chain in the same context and then records one entry, of the
  -- context's trace and span; the result is that of the rest, and the error of the store, if any, is
  -- joined to the error of the rest. The message reader finds the entry under the status success if
  -- the rest reported no error and under error if it did, and never under both, if the texts of
  -- errors are not empty.
  pub persisted-recorded :
      (texts : HasTexts view) (s : S) (ctx : Ctx) (cmd : Msg)
      → (inner : List (CommandAspect S Ctx Msg Res))
      → let (s', result, err) = run_command_aspects clock s ctx cmd next inner in
        (entry : CommandEntry) × (let (s'', e) = store.record_command s' entry in
          persisted s ctx cmd inner ≡ (s'', result, after_error err e))
        × (entry.trace_id ≡ view.trace_id ctx)
        × (entry.span_id ≡ view.span_id ctx)
        × (match_command_filter entry (status_filter "success") ≡ not (is_some err))
        × (match_command_filter entry (status_filter "error") ≡ is_some err)
  unfolding run_command_aspects persistence_command command_entry
  persisted-recorded texts s ctx cmd inner =
      let r = run_command_aspects clock s ctx cmd next inner in
      let d = pos (clock r.0 - clock s) in
      (
        command_entry view r.0 ctx cmd r.1 r.2 d,
        refl,
        refl,
        refl,
        command_entry-success view texts r.0 ctx cmd r.1 r.2 d,
        command_entry-error view texts r.0 ctx cmd r.1 r.2 d,
      )
