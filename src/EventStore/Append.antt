-- ===== src/EventStore/Append.antt =====
-- Append and Load of cqrs/impl/memory/event_store.go: optimistic concurrency and round trips.
use ddd_qce.Common.{
  drop-nil, drop_of_length_le, ltb, ℕ, suc, ◌≡◌, ◌≢◌, refl, sym, ap, ◌∙◌, String, true, Option,
  none, some, List, [], ◌∷◌, ◌++◌, length, drop, All, lookup, or_nil, arith, Bool-cases,
  Option-cases, inl, inr, lookup-insert_self, lookup-insert_ne, append-nil, append_assoc,
  length-append, drop-length-append,
}
use ddd_qce.Common.Int.{ℤ, pos, eqb_ℤ_refl, eqb_ℤ_ne, pos_part}
use ddd_qce.Errors.{Err, ok, errors_is, concurrency_code, returns}
use ddd_qce.EventStore.{
  BaseEvent, EventSourceStore, stream, copied, store_event, load, load_from, load_copies,
  conflict_error, aggregate_of, append_all, append,
}

-- No allocation of a call fails.
abbrev pub NeverFails : (ℕ → Option Err) → Type 0
NeverFails allocs = (i : ℕ) → allocs i ≡ none

module _ {T : Type 0} where
  pub copied-ok : (s : EventSourceStore T) (o : Option Err) (e : T) → o ≡ none → copied s o e ≡ ok e
  unfolding copied
  copied-ok s o e h = ground arith

  stream-store_event_self :
      (s : EventSourceStore T) (id : String) (e : T)
      → stream (store_event s id e) id ≡ stream s id ++ e ∷ []
  unfolding store_event
  stream-store_event_self s id e =
      ap or_nil (lookup-insert_self id (stream s id ++ e ∷ []) s.events)

  stream-store_event_ne :
      (s : EventSourceStore T) (id k : String) (e : T)
      → id ≢ k
      → stream (store_event s id e) k ≡ stream s k
  unfolding store_event
  stream-store_event_ne s id k e h =
      ap or_nil (lookup-insert_ne id k (stream s id ++ e ∷ []) s.events h)

module _ {T : Type 0} (allocs : ℕ → Option Err) where
  load_copies-ok :
      (s : EventSourceStore T) (i : ℕ) (es : List T)
      → NeverFails allocs
      → load_copies allocs s i es ≡ ok es
  unfolding load_copies
  load_copies-ok s i [] h = refl
  load_copies-ok s i (e ∷ es) h =
      ground (arith, copied-ok s (allocs i) e (h i), load_copies-ok s (suc i) es h)

  load_from-drop :
      (s : EventSourceStore T) (evs : List T) (n : ℕ)
      → NeverFails allocs
      → load_from allocs s evs (pos n) ≡ returns (ok (drop n evs))
  unfolding load_from
  load_from-drop s evs n h = elim (Bool-cases (ltb n (length evs))) [
    | inl e ↦ ground (arith, load_copies-ok s 0 (drop n evs) h)
    | inr e ↦ ground (arith, drop_of_length_le n evs)
  ]

  -- Load after a version that is not negative returns the events of the stream past it, none if
  -- there are not that many, provided that no copy fails.
  pub load-drop :
      (s : EventSourceStore T) (id : String) (n : ℕ)
      → NeverFails allocs
      → load allocs s id (pos n) ≡ returns (ok (drop n (stream s id)))
  unfolding load stream
  load-drop s id n h = elim (Option-cases (lookup id s.events)) [
    | inl e ↦ rw (e, load, drop-nil)
    | inr (evs, e) ↦ rw (e, load) (load_from-drop s evs n h)
  ]

module _ {T : Type 0} (metadata : T → Option BaseEvent) where
  abbrev pub BelongTo : String → List T → Type 0
  BelongTo id = All (λ e. aggregate_of metadata e ≡ id)

  -- What appending events has done: nothing failed, the events stand at the end of the stream of
  -- `id`, and every other stream is as it was.
  abbrev pub Appended :
      EventSourceStore T → String → List T → EventSourceStore T × Option Err → Type 0
  Appended s id es r =
      (r.1 ≡ none)
      × (stream r.0 id ≡ stream s id ++ es)
      × ((k : String) → id ≢ k → stream r.0 k ≡ stream s k)

  -- Append at any other version stores nothing and reports ErrConcurrency.
  pub append-conflict :
      (allocs : ℕ → Option Err) (s : EventSourceStore T) (id : String) (expected : ℤ)
      → (es : List T) → pos (length (stream s id)) ≢ expected
      → ((append metadata allocs s id expected es).0 ≡ s)
        × ((e : Err) × ((append metadata allocs s id expected es).1 ≡ some e)
            × (errors_is e concurrency_code ≡ true))
  unfolding append errors_is
  append-conflict allocs s id expected es h =
      rw (eqb_ℤ_ne (pos (length (stream s id))) expected h)
        (refl, (conflict_error id expected (length (stream s id)), refl, refl))

module _ {T : Type 0} (metadata : T → Option BaseEvent) (allocs : ℕ → Option Err) where
  append_all-cons :
      (s : EventSourceStore T) (i : ℕ) (e : T) (es : List T)
      → NeverFails allocs
      → append_all metadata allocs s i (e ∷ es)
        ≡ append_all metadata allocs (store_event s (aggregate_of metadata e) e) (suc i) es
  unfolding append_all
  append_all-cons s i e es h = ground (arith, copied-ok s (allocs i) e (h i))

  append_all-Appended :
      (s : EventSourceStore T) (id : String) (i : ℕ) (es : List T)
      → NeverFails allocs
      → BelongTo metadata id es
      → Appended metadata s id es (append_all metadata allocs s i es)
  unfolding append_all
  append_all-Appended s id i [] h b = (refl, sym (append-nil (stream s id)), λ k d. refl)
  append_all-Appended s id i (e ∷ es) h b =
      let s' = store_event s id e in
      let ih = append_all-Appended s' id (suc i) es h b.1 in
      rw (append_all-cons s i e es h, b.0)
        (
          ih.0,
          ih.1
              ∙ ap (λ x. x ++ es) (stream-store_event_self s id e)
              ∙ append_assoc (stream s id) (e ∷ []) es,
          λ k d. ih.2 k d ∙ stream-store_event_ne s id k e d,
        )

  -- Append of events of one aggregate at its current version succeeds where no copy fails: they
  -- come to stand, in order, at the end of its stream, and no other stream changes.
  pub append-Appended :
      (s : EventSourceStore T) (id : String) (es : List T)
      → NeverFails allocs
      → BelongTo metadata id es
      → Appended metadata s id es (append metadata allocs s id (pos (length (stream s id))) es)
  unfolding append
  append-Appended s id es h b =
      rw (eqb_ℤ_refl (length (stream s id))) (append_all-Appended s id 0 es h b)

  -- Where no copy fails, what was appended to an aggregate at its current version, all of it events
  -- of that aggregate, is what Load returns after that version, and Load from the start returns the
  -- old stream followed by it.
  pub load-append :
      (load_allocs : ℕ → Option Err) (s : EventSourceStore T) (id : String) (es : List T)
      → NeverFails allocs
      → NeverFails load_allocs
      → BelongTo metadata id es
      → let v = length (stream s id) in
        let s' = (append metadata allocs s id (pos v) es).0 in
        (load load_allocs s' id (pos v) ≡ returns (ok es))
        × (load load_allocs s' id (pos 0) ≡ returns (ok (stream s id ++ es)))
  load-append load_allocs s id es h l b =
      let v = length (stream s id) in
      let s' = (append metadata allocs s id (pos v) es).0 in
      let a = append-Appended s id es h b in
      (
        load-drop load_allocs s' id v l
            ∙ ap (λ x. returns (ok (drop v x))) a.1
            ∙ ap (λ x. returns (ok x)) (drop-length-append (stream s id) es),
        load-drop load_allocs s' id 0 l ∙ ap (λ x. returns (ok x)) a.1,
      )

  -- Of two writers that read the same version of an aggregate, the one that comes second is refused
  -- with ErrConcurrency and stores nothing, if the first stored at least one event, all of them of
  -- that aggregate, and none of its copies failed.
  pub append-second_writer :
      (next_allocs : ℕ → Option Err) (s : EventSourceStore T) (id : String) (e : T)
      → (es fs : List T) → NeverFails allocs
      → BelongTo metadata id (e ∷ es)
      → let v = pos (length (stream s id)) in
        let s' = (append metadata allocs s id v (e ∷ es)).0 in
        ((append metadata next_allocs s' id v fs).0 ≡ s')
        × ((x : Err) × ((append metadata next_allocs s' id v fs).1 ≡ some x)
            × (errors_is x concurrency_code ≡ true))
  append-second_writer next_allocs s id e es fs h b =
      let v = length (stream s id) in
      let s' = (append metadata allocs s id (pos v) (e ∷ es)).0 in
      let a = append-Appended s id (e ∷ es) h b in
      append-conflict metadata next_allocs s' id (pos v) fs (λ q.
        absurd
          (omega (arith, ap pos_part q, ap length a.1, length-append {0} (stream s id) (e ∷ es))))

  -- Append checks the version of the aggregate that it is called with, and stores each event under
  -- the aggregate that the event names: where no copy fails, one event of another aggregate lands
  -- in that one's stream whatever its version, and the stream that was checked stays as it was.
  append-foreign_event :
      (s : EventSourceStore T) (id : String) (e : T)
      → NeverFails allocs
      → id ≢ aggregate_of metadata e
      → let other = aggregate_of metadata e in
        let (s', r) = append metadata allocs s id (pos (length (stream s id))) (e ∷ []) in
        (r ≡ none) × (stream s' other ≡ stream s other ++ e ∷ []) × (stream s' id ≡ stream s id)
  unfolding append
  append-foreign_event s id e h d =
      let a = append_all-Appended s (aggregate_of metadata e) 0 (e ∷ []) h (refl, tt) in
      rw (eqb_ℤ_refl (length (stream s id))) (a.0, a.1, a.2 id (λ q. d (sym q)))
