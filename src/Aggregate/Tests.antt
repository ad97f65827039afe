-- ===== src/Aggregate/Tests.antt =====
-- Replay of concrete events: the state is a sum.
use ddd_qce.Common.{ℕ, ◌+◌, ◌≡◌, refl, String, Option, none, [], ◌∷◌, length, arith}
use ddd_qce.Common.Int.{pos, negsuc}
use ddd_qce.Errors.{Err}
use ddd_qce.Aggregate.{
  Aggregate, expected_version, load_from_history, mark_events_as_committed, apply_change,
}
use ddd_qce.Aggregate.Replay.{apply_changes, load_from_history-apply_changes}

abbrev add_up : ℕ → ℕ → ℕ × Option Err
add_up st e = (st + e, none)

abbrev a_number : ℕ → String
a_number e = "number"

abbrev total : Aggregate ℕ ℕ
total = record {
  root = record { id = "a"; version = pos 3; snapshot_version = negsuc 0; uncommitted_events = [] };
  state = 10;
}

two_changes : (apply_changes a_number add_up total (1 ∷ 2 ∷ [])).1 ≡ none
unfolding apply_change
two_changes = refl

load_from_history-apply_changes_example :
    let agg' = (apply_changes a_number add_up total (1 ∷ 2 ∷ [])).0 in
    (agg'.root.uncommitted_events ≡ 1 ∷ 2 ∷ [])
    × (agg'.root.version ≡ pos (3 + length {A = ℕ} (1 ∷ 2 ∷ [])))
    × (expected_version agg'.root ≡ pos 3)
    × (load_from_history a_number add_up total agg'.root.uncommitted_events
        ≡ (record agg' { root = mark_events_as_committed agg'.root }, none))
load_from_history-apply_changes_example =
    load_from_history-apply_changes a_number add_up total (1 ∷ 2 ∷ []) 3 refl refl (omega arith)
      two_changes
