-- ===== src/EventStore/Consistency.antt =====
-- Append of cqrs/impl/memory/event_store.go: the global stream agrees with the streams of the
-- aggregates.
use ddd_qce.Errors.{wrap}
use ddd_qce.Common.{ℕ, suc, none, some, ap, ◌∙◌, append_assoc}
use ddd_qce.Common.{
  ◌+◌, ◌≡◌, refl, sym, subst, String, Bool, Option, List, [], ◌∷◌, ◌++◌, length, arith, str_eq,
  str_eq_iff, lookup-insert, append-nil, length-append, map, filter_by, filter_by-append,
  Bool-cases, ◌⊎◌, inl, inr, Option-cases,
}
use ddd_qce.Common.Int.{ℤ, pos, eqb_ℤ}
use mathlib.Core.List.{map-append}
use ddd_qce.Errors.{Err, ok, error}
use ddd_qce.EventStore.{
  BaseEvent, EventSourceStore, stream, copied, store_event, aggregate_of, append_all, append,
}
use ddd_qce.EventStore.Global.{NumberedFrom, NumberedFrom-append}

module _ {T : Type 0} (metadata : T → Option BaseEvent) where
  -- The global stream is numbered 1, 2, …, and the stream of every aggregate is the part of it
  -- that names the aggregate, in order.
  pub record IsConsistent (s : EventSourceStore T) : Type 0 where
    pub numbered : NumberedFrom 0 s.global_events
    pub counted : s.next_position ≡ length s.global_events
    pub projects :
        (id : String)
        → stream s id
          ≡ filter_by
              (λ e. str_eq (aggregate_of metadata e) id)
              (map (λ g. g.event) s.global_events)

  copied-same : (s : EventSourceStore T) (o : Option Err) (e c : T) → copied s o e ≡ ok c → c ≡ e
  unfolding copied
  copied-same s o e c h = ground arith

  abbrev names : String → T → Bool
  names id e = str_eq (aggregate_of metadata e) id

  store_event-IsConsistent :
      (s : EventSourceStore T) (e : T)
      → IsConsistent s
      → IsConsistent (store_event s (aggregate_of metadata e) e)
  unfolding store_event stream
  store_event-IsConsistent s e c =
      let own = aggregate_of metadata e in
      record {
        numbered = NumberedFrom-append 0 s.global_events _ c.numbered (omega (arith, c.counted));
        counted = omega (
          arith,
          c.counted,
          length-append {0} s.global_events
              (record { position = s.next_position + 1; event = e } ∷ []),
        );
        projects = λ id. rw (map-append) (
            rw (filter_by-append (names id) (map (λ g. g.event) s.global_events) (e ∷ [])) (
              ground (
                arith,
                c.projects id,
                c.projects own,
                str_eq_iff own id,
                lookup-insert own id (stream s own ++ e ∷ []) s.events,
                append-nil (stream s id),
              )));
      }

  copied-cases :
      (s : EventSourceStore T) (o : Option Err) (e : T)
      → ((x : Err) × (copied s o e ≡ error x)) ⊎ (copied s o e ≡ ok e)
  unfolding copied
  copied-cases s o e = elim (Bool-cases s.shallow_copy) [
    | inl h ↦ inr (rw (h))
    | inr h ↦ elim (Option-cases o) [ inl k ↦ inr (rw (h, k)) | inr (x, k) ↦ inl (x, rw (h, k)) ]
  ]

-- The events of the global stream, in order.
abbrev pub all_events : {T : Type 0} → EventSourceStore T → List T
all_events s = map (λ g. g.event) s.global_events

-- What was stored of the events that a call of Append got: all of them if it reports no error, and
-- else the first few.
pub data Stored {T : Type 0} (s : EventSourceStore T) (es : List T)
    : EventSourceStore T × Option Err → Type 0 where
  all_stored :
      {s' : EventSourceStore T} → all_events s' ≡ all_events s ++ es → Stored s es (s', none)
  some_stored :
      {s' : EventSourceStore T} {x : Err} (first rest : List T)
      → es ≡ first ++ rest
      → all_events s' ≡ all_events s ++ first
      → Stored s es (s', some x)

module _ {T : Type 0} (metadata : T → Option BaseEvent) (allocs : ℕ → Option Err) where
  append_all-error :
      (s : EventSourceStore T) (i : ℕ) (e : T) (es : List T) (x : Err)
      → copied s (allocs i) e ≡ error x
      → append_all metadata allocs s i (e ∷ es) ≡ (s, some (wrap "copy event: %w" [] x))
  unfolding append_all
  append_all-error s i e es x h = ground arith

  append_all-ok :
      (s : EventSourceStore T) (i : ℕ) (e : T) (es : List T)
      → copied s (allocs i) e ≡ ok e
      → append_all metadata allocs s i (e ∷ es)
        ≡ append_all metadata allocs (store_event s (aggregate_of metadata e) e) (suc i) es
  unfolding append_all
  append_all-ok s i e es h = ground arith

  all_events-store_event :
      (s : EventSourceStore T) (id : String) (e : T)
      → all_events (store_event s id e) ≡ all_events s ++ e ∷ []
  unfolding store_event
  all_events-store_event s id e = rw (map-append) refl

  Stored-cons :
      (s : EventSourceStore T) (e : T) (es : List T) (r : EventSourceStore T × Option Err)
      → Stored (store_event s (aggregate_of metadata e) e) es r
      → Stored s (e ∷ es) r
  Stored-cons s e es (s', none) (all_stored h) =
      let one = all_events-store_event s (aggregate_of metadata e) e in
      all_stored (h ∙ ap (λ l. l ++ es) one ∙ append_assoc (all_events s) (e ∷ []) es)
  Stored-cons s e es (s', some x) (some_stored first rest k h) =
      let one = all_events-store_event s (aggregate_of metadata e) e in
      some_stored (e ∷ first) rest (ap (◌∷◌ e) k)
        (h ∙ ap (λ l. l ++ first) one ∙ append_assoc (all_events s) (e ∷ []) first)

  -- A store after some events of a call.
  abbrev Kept : EventSourceStore T → List T → EventSourceStore T × Option Err → Type 0
  Kept s es r = IsConsistent metadata r.0 × Stored s es r

  append_all-Kept :
      (s : EventSourceStore T) (i : ℕ) (es : List T)
      → IsConsistent metadata s
      → Kept s es (append_all metadata allocs s i es)
  unfolding append_all
  append_all-Kept s i [] c = (c, all_stored (sym (append-nil (all_events s))))
  append_all-Kept s i (e ∷ es) c = elim (copied-cases metadata s (allocs i) e) [
    | inl (x, h) ↦
        subst (Kept s (e ∷ es)) (sym (append_all-error s i e es x h))
          (c, some_stored [] (e ∷ es) refl (sym (append-nil (all_events s))))
    | inr h ↦
        let (c', st) =
          append_all-Kept (store_event s (aggregate_of metadata e) e) (suc i) es
            (store_event-IsConsistent metadata s e c) in
        subst (Kept s (e ∷ es)) (sym (append_all-ok s i e es h)) (
          c',
          Stored-cons s e es
              (append_all metadata allocs (store_event s (aggregate_of metadata e) e) (suc i) es)
              st,
        )
  ]

  -- Append keeps the store consistent whatever it is called with, also where it refuses the version
  -- and where any of its copies fails: the global stream stays numbered without a gap, and every
  -- aggregate's stream stays the part of it that names the aggregate. The global stream grows by all
  -- the events if Append reports no error, and else by the first few of them: an error can leave
  -- some events stored.
  pub append-IsConsistent :
      (s : EventSourceStore T) (id : String) (expected : ℤ) (es : List T)
      → IsConsistent metadata s
      → let r = append metadata allocs s id expected es in IsConsistent metadata r.0 × Stored s es r
  unfolding append
  append-IsConsistent s id expected es c =
      elim (Bool-cases (eqb_ℤ (pos (length (stream s id))) expected)) [
        | inl h ↦ rw (h) (append_all-Kept s 0 es c)
        | inr h ↦ rw (h) (c, some_stored [] es refl (sym (append-nil (all_events s))))
      ]
