-- ===== src/Aggregate/Replay.antt =====
-- Event sourcing in domain/aggregate/aggregate.go: what ApplyChange records, LoadFromHistory
-- replays.
use ddd_qce.Common.{
  ℕ, ◌+◌, ◌-◌, ◌≤◌, ◌<◌, ◌≡◌, refl, sym, ap, ◌∙◌, String, Option, none, some, List, [], ◌∷◌, ◌++◌,
  length, append-nil, append_assoc, arith, inl, inr, Option-cases,
}
use ddd_qce.Common.Int.{pos, add64, add64-small, sub_ℕ}
use ddd_qce.Errors.{Err}
use ddd_qce.Aggregate.{
  Aggregate, expected_version, apply_change, apply_history, load_from_history,
  mark_events_as_committed,
}

-- A version in range less a length is their difference.
pub add64-sub :
    (v n : ℕ) → n ≤ v → v < 9223372036854775808 → add64 (pos v) (sub_ℕ 0 n) ≡ pos (v - n)
unfolding add64
add64-sub v n h k = ground arith

module _ {E St : Type 0} (type_name : E → String) (when : St → E → St × Option Err) where
  -- A handler's chain of ApplyChange calls, up to the first that fails.
  abbrev pub apply_changes : Aggregate E St → List E → Aggregate E St × Option Err
  apply_changes agg [] = (agg, none)
  apply_changes agg (evt ∷ evts) = elim (apply_change type_name when agg evt).1 [
    | some err ↦ ((apply_change type_name when agg evt).0, some err)
    | none ↦ apply_changes (apply_change type_name when agg evt).0 evts
  ]

  abbrev pub with_events : Aggregate E St → List E → Aggregate E St
  with_events agg es = record agg { root = record agg.root { uncommitted_events = es } }

  apply_history-with_events :
      (agg : Aggregate E St) (xs : List E) (e : E)
      → apply_history type_name when (with_events agg xs) e ≡ (
        with_events (apply_change type_name when agg e).0 xs,
        (apply_change type_name when agg e).1,
      )
  unfolding apply_history apply_change
  apply_history-with_events agg xs e = elim (Option-cases (when agg.state e).1) [
    | inl q ↦ ground arith
    | inr (x, q) ↦ ground arith
  ]

  pub load_from_history-nil :
      (agg : Aggregate E St) → load_from_history type_name when agg [] ≡ (agg, none)
  unfolding load_from_history
  load_from_history-nil agg = refl

  pub load_from_history-step :
      (agg agg' : Aggregate E St) (o : Option Err) (e : E) (es : List E)
      → apply_history type_name when agg e ≡ (agg', o)
      → load_from_history type_name when agg (e ∷ es)
        ≡ (elim o [ some err ↦ (agg', some err) | none ↦ load_from_history type_name when agg' es ])
  unfolding load_from_history
  load_from_history-step agg agg' o e es h =
      ap
        (λ r. elim r.1 as (λ x. Aggregate E St × Option Err) [
          | some err ↦ (r.0, some err)
          | none ↦ load_from_history type_name when r.0 es
        ])
        h

  -- More events after a history that was replayed without an error.
  pub load_from_history-append :
      (agg agg' : Aggregate E St) (es ys : List E)
      → load_from_history type_name when agg es ≡ (agg', none)
      → load_from_history type_name when agg (es ++ ys) ≡ load_from_history type_name when agg' ys
  unfolding load_from_history
  load_from_history-append agg agg' [] ys h = ap (λ r. load_from_history type_name when r.0 ys) h
  load_from_history-append agg agg' (x ∷ xs) ys h =
      let r = apply_history type_name when agg x in
      elim (Option-cases r.1) [
        | inl q ↦
            let first : apply_history type_name when agg x ≡ (r.0, none) =
              ap (λ (o : Option Err). (r.0, o)) q in
            load_from_history-step agg r.0 none x (xs ++ ys) first
            ∙ load_from_history-append r.0 agg' xs ys
                (sym (load_from_history-step agg r.0 none x xs first) ∙ h)
        | inr (err, q) ↦
            let first : apply_history type_name when agg x ≡ (r.0, some err) =
              ap (λ (o : Option Err). (r.0, o)) q in
            let step = load_from_history-step agg r.0 (some err) x xs first in
            absurd (ground (arith, ap (λ p. p.1) (sym step ∙ h)))
      ]

  apply_changes-ok :
      (agg : Aggregate E St) (e : E) (es : List E)
      → (apply_change type_name when agg e).1 ≡ none
      → apply_changes agg (e ∷ es) ≡ apply_changes (apply_change type_name when agg e).0 es
  apply_changes-ok agg e es q = ground arith

  apply_changes-error :
      (agg : Aggregate E St) (e : E) (es : List E) (x : Err)
      → (apply_change type_name when agg e).1 ≡ some x
      → apply_changes agg (e ∷ es) ≡ ((apply_change type_name when agg e).0, some x)
  apply_changes-error agg e es x q = ground arith

  replay :
      (agg : Aggregate E St) (xs es : List E)
      → load_from_history type_name when (with_events agg xs) es
        ≡ (with_events (apply_changes agg es).0 xs, (apply_changes agg es).1)
  replay agg xs [] = load_from_history-nil (with_events agg xs)
  replay agg xs (e ∷ es) =
      let r = apply_change type_name when agg e in
      let here = with_events agg xs in
      let there = with_events r.0 xs in
      let step = apply_history-with_events agg xs e in
      let pair : Aggregate E St × Option Err → Aggregate E St × Option Err =
        λ t. (with_events t.0 xs, t.1) in
      elim (Option-cases r.1) [
        | inl q ↦
            load_from_history-step here there none e es (step ∙ ap (λ o. (there, o)) q)
            ∙ replay r.0 xs es
            ∙ sym (ap pair (apply_changes-ok agg e es q))
        | inr (x, q) ↦
            load_from_history-step here there (some x) e es (step ∙ ap (λ o. (there, o)) q)
            ∙ sym (ap pair (apply_changes-error agg e es x q))
      ]

  events-apply_change :
      (agg : Aggregate E St) (e : E)
      → (apply_change type_name when agg e).1 ≡ none
      → ((apply_change type_name when agg e).0.root.uncommitted_events
          ≡ agg.root.uncommitted_events ++ e ∷ [])
        × ((apply_change type_name when agg e).0.root.version ≡ add64 agg.root.version (pos 1))
  unfolding apply_change
  events-apply_change agg e h = elim (Option-cases (when agg.state e).1) [
    | inl q ↦ ground arith
    | inr (x, q) ↦ ground arith
  ]

  apply_changes-cons :
      (agg : Aggregate E St) (e : E) (es : List E)
      → (apply_changes agg (e ∷ es)).1 ≡ none
      → ((apply_change type_name when agg e).1 ≡ none)
        × (apply_changes agg (e ∷ es) ≡ apply_changes (apply_change type_name when agg e).0 es)
  apply_changes-cons agg e es h = elim (Option-cases (apply_change type_name when agg e).1) [
    | inl q ↦ ground arith
    | inr (x, q) ↦ ground arith
  ]

  changed :
      (agg : Aggregate E St) (es : List E) (v : ℕ)
      → (apply_changes agg es).1 ≡ none
      → agg.root.version ≡ pos v
      → v + length es < 9223372036854775808
      → ((apply_changes agg es).0.root.uncommitted_events ≡ agg.root.uncommitted_events ++ es)
        × ((apply_changes agg es).0.root.version ≡ pos (v + length es))
  changed agg [] v h q small =
      (sym (append-nil agg.root.uncommitted_events), q ∙ ap pos (omega arith))
  changed agg (e ∷ es) v h q small =
      let (ok, eq) = apply_changes-cons agg e es h in
      let (evs, ver) = events-apply_change agg e ok in
      let next = (apply_change type_name when agg e).0 in
      let ih =
        changed next es (v + 1) (ap (λ r. r.1) (sym eq) ∙ h)
          (ver ∙ ap (λ x. add64 x (pos 1)) q ∙ add64-small v 1 (omega arith)) (omega arith) in
      rw (eq) (
        ih.0 ∙ ap (λ l. l ++ es) evs ∙ append_assoc agg.root.uncommitted_events (e ∷ []) es,
        ih.1 ∙ ap pos (omega arith),
      )

  -- Event sourcing round trip: if ApplyChange takes the events one after the other on an aggregate
  -- with nothing uncommitted, and the version stays in range, then the uncommitted events are those
  -- events, the version has grown by their number, ExpectedVersion is the version from before, and
  -- LoadFromHistory of the uncommitted events on the old aggregate gives the new one, but with
  -- nothing uncommitted.
  pub load_from_history-apply_changes :
      (agg : Aggregate E St) (es : List E) (v : ℕ)
      → agg.root.uncommitted_events ≡ []
      → agg.root.version ≡ pos v
      → v + length es < 9223372036854775808
      → (apply_changes agg es).1 ≡ none
      → let agg' = (apply_changes agg es).0 in
        (agg'.root.uncommitted_events ≡ es)
        × (agg'.root.version ≡ pos (v + length es))
        × (expected_version agg'.root ≡ agg.root.version)
        × (load_from_history type_name when agg agg'.root.uncommitted_events
            ≡ (record agg' { root = mark_events_as_committed agg'.root }, none))
  unfolding expected_version mark_events_as_committed
  load_from_history-apply_changes agg es v none_yet q small h =
      let (evs0, ver) = changed agg es v h q small in
      let evs = evs0 ∙ ap (λ l. l ++ es) none_yet in
      let agg' = (apply_changes agg es).0 in
      (
        evs,
        ver,
        ap (λ x. add64 x (sub_ℕ 0 (length agg'.root.uncommitted_events))) ver
            ∙ ap (λ l. add64 (pos (v + length es)) (sub_ℕ 0 (length l))) evs
            ∙ add64-sub (v + length es) (length es) (omega arith) small
            ∙ ap pos (omega arith)
            ∙ sym q,
        ap (λ l. load_from_history type_name when agg l) evs
            ∙ ap (λ l. load_from_history type_name when (with_events agg l) es) none_yet
            ∙ replay agg [] es
            ∙ ap (λ o. (with_events agg' [], o)) h,
      )
