-- ===== src/Aggregate.antt =====
-- domain/aggregate/aggregate.go over domain/entity/entity.go: the root of an aggregate, and how
-- events change it. An aggregate is its root and its domain state `St`; `When` is the
-- application's code, a parameter that acts on the domain state, and so is the type name of an
-- event. A version is a Go int, whose sums are of 64 bits.
pub mod Replay
mod Tests
use ddd_qce.Common.{
  ℕ, String, Bool, true, false, Option, none, some, List, [], ◌∷◌, ◌++◌, length, if◌then◌else◌,
  str_eq,
}
use ddd_qce.Common.Int.{ℤ, pos, negsuc, ltb_ℤ, add64, sub_ℕ}
use ddd_qce.Errors.{Err, Result, ok, error, Arg, text, wrap}

pub record AggregateRoot (E : Type 0) : Type 0 where
  pub id : String
  pub version : ℤ
  pub snapshot_version : ℤ
  pub uncommitted_events : List E

pub record Aggregate (E St : Type 0) : Type 0 where
  pub root : AggregateRoot E
  pub state : St

-- The JSON form of a root.
pub record AggregateRootJson : Type 0 where
  pub id : String
  pub version : ℤ
  pub snapshot_version : ℤ

abbrev pub err_no_id : Err
err_no_id = text "entity: id is required" []

module _ {E : Type 0} where
  unfoldable pub new_aggregate_root : String → Result (AggregateRoot E)
  new_aggregate_root id =
      if str_eq id ""
      then error err_no_id
      else ok (record {
        id = id;
        version = pos 0;
        snapshot_version = negsuc 0;
        uncommitted_events = [];
      })

  -- `version - len(uncommittedEvents)`.
  unfoldable pub expected_version : AggregateRoot E → ℤ
  expected_version r = add64 r.version (sub_ℕ 0 (length r.uncommitted_events))

  unfoldable pub set_snapshot_version : AggregateRoot E → ℤ → AggregateRoot E
  set_snapshot_version r v = record r { version = v; snapshot_version = v }

  unfoldable pub mark_events_as_committed : AggregateRoot E → AggregateRoot E
  mark_events_as_committed r = record r { uncommitted_events = [] }

  unfoldable pub validate : AggregateRoot E → Option Err
  validate r =
      if str_eq r.id ""
      then some (wrap "aggregate: %w" [] err_no_id)
      else if ltb_ℤ r.version (pos 0)
      then some (text "aggregate: version cannot be negative" [])
      else none

  unfoldable pub to_json : AggregateRoot E → AggregateRootJson
  to_json r = record { id = r.id; version = r.version; snapshot_version = r.snapshot_version }

  unfoldable pub from_json : AggregateRoot E → AggregateRootJson → AggregateRoot E
  from_json r j = record r { id = j.id; version = j.version; snapshot_version = j.snapshot_version }

module _ {E St : Type 0} (type_name : E → String) (when : St → E → St × Option Err) where
  unfoldable pub apply_change : Aggregate E St → E → Aggregate E St × Option Err
  apply_change agg evt =
      let (st, e) = when agg.state evt in
      elim e [
        | some err ↦ (
          record agg { state = st },
          some (wrap "apply event %T: %w" (Arg.str (type_name evt) ∷ []) err),
        )
        | none ↦ (
          record {
            state = st;
            root = record agg.root {
              uncommitted_events = agg.root.uncommitted_events ++ evt ∷ [];
              version = add64 agg.root.version (pos 1);
            };
          },
          none,
        )
      ]

  unfoldable pub apply_history : Aggregate E St → E → Aggregate E St × Option Err
  apply_history agg evt =
      let (st, e) = when agg.state evt in
      elim e [
        | some err ↦ (
          record agg { state = st },
          some (wrap "apply event %T: %w" (Arg.str (type_name evt) ∷ []) err),
        )
        | none ↦ (
          record {
            state = st;
            root = record agg.root { version = add64 agg.root.version (pos 1) };
          },
          none,
        )
      ]

  unfoldable pub load_from_history : Aggregate E St → List E → Aggregate E St × Option Err
  unfolding apply_history
  load_from_history agg [] = (agg, none)
  load_from_history agg (evt ∷ evts) =
      let (agg', e) = apply_history agg evt in
      let rest = load_from_history agg' evts in elim e [ some err ↦ (agg', some err) | none ↦ rest ]
