-- ===== src/EventStore/Global.antt =====
-- The pages of the global stream: LoadAll of cqrs/impl/memory/event_store.go.
use ddd_qce.Errors.{Err}
use ddd_qce.Common.{Option}
use ddd_qce.Common.{
  ℕ, zero, suc, ◌+◌, ◌-◌, ◌≤◌, ◌<◌, ◌≡◌, refl, sym, ap, ◌∙◌, List, [], ◌∷◌, ◌++◌, length, drop,
  take, arith, if◌then◌else◌, Bool-cases, inl, inr, ltb, length-drop, min, take_of_length_le,
  drop_of_length_le,
}
use ddd_qce.Common.Int.{ℤ, pos, add64-small, add64-overflow}
use ddd_qce.Errors.{ok, returns, panics}
use ddd_qce.EventStore.{
  GlobalEntry, EventSourceStore, start_index, end_index, global_copies, load_range, load_at,
  load_all,
}
use ddd_qce.EventStore.Append.{NeverFails, copied-ok}

end_index-small :
    (start l count : ℕ)
    → start + suc l < 9223372036854775808
    → end_index start (pos (suc l)) count
      ≡ (if ltb (start + suc l) count then pos (start + suc l) else pos count)
unfolding end_index
end_index-small start l count h = ground (arith, add64-small start (suc l))

end_index-zero : (start count : ℕ) → end_index start (pos 0) count ≡ pos count
unfolding end_index
end_index-zero start count = refl

module _ {T : Type 0} where
  -- The entries carry the positions from n + 1 on, with no gap.
  abbrev pub NumberedFrom : ℕ → List (GlobalEntry T) → Type 0
  NumberedFrom n [] = Unit {0}
  NumberedFrom n (e ∷ es) = (e.position ≡ suc n) × NumberedFrom (suc n) es

  pub NumberedFrom-append :
      (n : ℕ) (xs : List (GlobalEntry T)) (e : GlobalEntry T)
      → NumberedFrom n xs
      → e.position ≡ suc (n + length xs)
      → NumberedFrom n (xs ++ e ∷ [])
  NumberedFrom-append n [] e h p = (omega arith, tt)
  NumberedFrom-append n (x ∷ xs) e h p = (h.0, NumberedFrom-append (suc n) xs e h.1 (omega arith))

  start_index-NumberedFrom :
      (n a : ℕ) (xs : List (GlobalEntry T))
      → NumberedFrom n xs
      → n ≤ a
      → start_index xs (pos a) ≡ min (a - n) (length xs)
  unfolding start_index
  start_index-NumberedFrom n a [] h le = omega arith
  start_index-NumberedFrom n a (x ∷ xs) h le = elim (Bool-cases (ltb a x.position)) [
    | inl p ↦ ground arith
    | inr q ↦ ground (arith, start_index-NumberedFrom (suc n) a xs h.1)
  ]

  -- The next page: everything for a limit of 0.
  abbrev pub page : ℕ → List (GlobalEntry T) → List (GlobalEntry T)
  page zero xs = xs
  page (suc l) xs = take (suc l) xs

  start_index-le :
      (n a : ℕ) (xs : List (GlobalEntry T))
      → NumberedFrom n xs
      → n ≤ a
      → length xs ≤ a - n
      → start_index xs (pos a) ≡ length xs
  start_index-le n a xs h le long = omega (arith, start_index-NumberedFrom n a xs h le)

  take-page :
      (a l : ℕ) (xs : List (GlobalEntry T))
      → length xs ≤ a + suc l
      → take (length xs - a) (drop a xs) ≡ take (suc l) (drop a xs)
  take-page a l xs h =
      take_of_length_le (length xs - a) (drop a xs) (omega (arith, length-drop {0} a xs))
      ∙ sym (take_of_length_le (suc l) (drop a xs) (omega (arith, length-drop {0} a xs)))

  page-nil : (l : ℕ) (xs : List (GlobalEntry T)) → xs ≡ [] → page l xs ≡ []
  page-nil zero xs e = e
  page-nil (suc l) xs e = rw e

module _ {T : Type 0} (allocs : ℕ → Option Err) where
  global_copies-ok :
      (s : EventSourceStore T) (i : ℕ) (xs : List (GlobalEntry T))
      → NeverFails allocs
      → global_copies allocs s i xs ≡ ok xs
  unfolding global_copies
  global_copies-ok s i [] h = refl
  global_copies-ok s i (x ∷ xs) h =
      ground (arith, copied-ok s (allocs i) x.event (h i), global_copies-ok s (suc i) xs h)

  load_range-ok :
      (s : EventSourceStore T) (start : ℕ) (n : ℕ)
      → NeverFails allocs
      → start ≤ n
      → load_range allocs s start (pos n)
        ≡ returns (ok (take (n - start) (drop start s.global_events)))
  unfolding load_range
  load_range-ok s start n h le =
      ground (arith, global_copies-ok s 0 (take (n - start) (drop start s.global_events)) h)

  load_range-page :
      (s : EventSourceStore T) (a l : ℕ)
      → NeverFails allocs
      → a < length s.global_events
      → length s.global_events + l < 9223372036854775808
      → load_range allocs s a (end_index a (pos l) (length s.global_events))
        ≡ returns (ok (page l (drop a s.global_events)))
  load_range-page s a zero f lt small =
      ap (load_range allocs s a) (end_index-zero a (length s.global_events))
      ∙ load_range-ok s a (length s.global_events) f (omega arith)
      ∙ ap (λ x. returns (ok x))
          (take_of_length_le (length s.global_events - a) (drop a s.global_events)
            (omega (arith, length-drop {0} a s.global_events)))
  load_range-page s a (suc l) f lt small =
      rw (end_index-small a l (length s.global_events) (omega arith))
        (elim (Bool-cases (ltb (a + suc l) (length s.global_events))) [
          | inl e ↦ rw (e) (
              load_range-ok s a (a + suc l) f (omega arith)
              ∙ ap (λ n. returns (ok (take n (drop a s.global_events)))) {y = suc l} (omega arith))
          | inr e ↦ rw (e) (
              load_range-ok s a (length s.global_events) f (omega arith)
              ∙ ap (λ x. returns (ok x)) (take-page a l s.global_events (ground arith)))
        ])

  load_at-lt :
      (s : EventSourceStore T) (start : ℕ) (limit : ℤ)
      → start < length s.global_events
      → load_at allocs s start limit
        ≡ load_range allocs s start (end_index start limit (length s.global_events))
  unfolding load_at
  load_at-lt s start limit lt = ground arith

  load_at-length :
      (s : EventSourceStore T) (limit : ℤ)
      → load_at allocs s (length s.global_events) limit ≡ returns (ok [])
  unfolding load_at
  load_at-length s limit = ground arith

  load_range-overflow :
      (s : EventSourceStore T) (start l count : ℕ)
      → 9223372036854775808 ≤ start + l
      → start + l < 18446744073709551616
      → 0 < l
      → load_range allocs s start (end_index start (pos l) count) ≡ panics
  unfolding load_range end_index
  load_range-overflow s start l count over int some_limit =
      ground (arith, add64-overflow start l over int)

  -- On a global stream numbered from 1 without a gap, where no copy fails, LoadAll after position
  -- `a` with a limit `l` returns the next page, if the length of the stream and the limit add up to
  -- less than 2^63: all the entries past position `a`, or the first `l` of them if `l` is positive.
  pub load_all-page :
      (s : EventSourceStore T) (a l : ℕ)
      → NumberedFrom 0 s.global_events
      → NeverFails allocs
      → length s.global_events + l < 9223372036854775808
      → load_all allocs s (pos a) (pos l) ≡ returns (ok (page l (drop a s.global_events)))
  unfolding load_all
  load_all-page s a l h f small =
      let g = s.global_events in
      let start = start_index-NumberedFrom 0 a g h (omega arith) in
      elim (Bool-cases (ltb a (length g))) [
        | inl e ↦
            let here : start_index g (pos a) ≡ a = ground (arith, start) in
            ap (λ n. load_at allocs s n (pos l)) here
            ∙ load_at-lt s a (pos l) (ground arith)
            ∙ load_range-page s a l f (ground arith) small
        | inr e ↦
            let here : start_index g (pos a) ≡ length g = ground (arith, start) in
            ap (λ n. load_at allocs s n (pos l)) here
            ∙ load_at-length s (pos l)
            ∙ ap (λ x. returns (ok x))
                (sym (page-nil l (drop a g) (drop_of_length_le a g (ground arith))))
      ]

  -- LoadAll panics on a limit that is too large: on a stream numbered from 1 without a gap, if it
  -- starts behind the first entry and before the last, and the start and the limit add up to 2^63
  -- or more, the sum wraps around and the page would have a negative length.
  load_all-overflow :
      (s : EventSourceStore T) (a l : ℕ)
      → NumberedFrom 0 s.global_events
      → a < length s.global_events
      → l < 9223372036854775808
      → length s.global_events < 9223372036854775808
      → 9223372036854775808 ≤ a + l
      → load_all allocs s (pos a) (pos l) ≡ panics
  unfolding load_all
  load_all-overflow s a l h lt int count over =
      let g = s.global_events in
      let start = start_index-NumberedFrom 0 a g h (omega arith) in
      let here : start_index g (pos a) ≡ a = omega (arith, start) in
      ap (λ n. load_at allocs s n (pos l)) here
      ∙ load_at-lt s a (pos l) lt
      ∙ load_range-overflow s a l (length g) over (omega arith) (omega arith)
