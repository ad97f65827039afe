-- ===== src/MessageStore/Window.antt =====
-- What aspect/builtin/in_memory_message_store.go keeps.
use ddd_qce.Common.{
  ℕ, ◌+◌, ◌-◌, ◌≤◌, ◌≡◌, sym, ap, ◌∙◌, List, [], ◌∷◌, ◌++◌, length, drop, drop-drop, length-append,
  length-drop, drop-append_of_le, append_assoc, append-nil, arith, ltb, Bool-cases, inl, inr,
}
use ddd_qce.Common.Int.{pos}
use ddd_qce.Errors.{Run, returns, panics}
use ddd_qce.MessageStore.{InMemoryMessageStore, append_bounded, record_command}

module _ {A : Type 0} where
  -- The last m entries.
  abbrev pub last : ℕ → List A → List A
  last m xs = drop (length xs - m) xs

  append_bounded-last :
      (m : ℕ) (xs : List A) (x : A) → append_bounded (pos m) xs x ≡ returns (last m (xs ++ x ∷ []))
  unfolding append_bounded
  append_bounded-last m xs x = elim (Bool-cases (ltb m (length (xs ++ x ∷ [])))) [
    | inl e ↦ ground arith
    | inr e ↦
        let all : length (xs ++ x ∷ []) - m ≡ 0 = ground arith in
        let same : last m (xs ++ x ∷ []) ≡ xs ++ x ∷ [] = ap (λ n. drop n (xs ++ x ∷ [])) all in
        ground arith
  ]

  -- Cutting before more is added keeps what cutting once at the end keeps.
  last-last : (m : ℕ) (xs ys : List A) → last m (last m xs ++ ys) ≡ last m (xs ++ ys)
  last-last m xs ys =
      let k = length xs - m in
      let n = length (last m xs ++ ys) - m in
      let counts = length-append {0} (drop k xs) ys in
      let counted = length-drop {0} k xs in
      let total = length-append {0} xs ys in
      ap (λ l. drop n l) (sym (drop-append_of_le k xs ys (omega arith)))
      ∙ drop-drop n k (xs ++ ys)
      ∙ ap (λ i. drop i (xs ++ ys)) {x = k + n} {y = length (xs ++ ys) - m} (omega arith)

module _ {C Q E H : Type 0} where
  -- RecordCommand one after the other.
  abbrev pub record_commands :
      InMemoryMessageStore C Q E H → List C → Run (InMemoryMessageStore C Q E H)
  record_commands s [] = returns s
  record_commands s (c ∷ cs) = elim (record_command s c) [
    | panics ↦ panics
    | returns s' ↦ record_commands s' cs
  ]

  pub record_command-last :
      (s : InMemoryMessageStore C Q E H) (m : ℕ) (c : C)
      → s.max_size ≡ pos m
      → record_command s c ≡ returns (record s { commands = last m (s.commands ++ c ∷ []) })
  unfolding record_command
  record_command-last s m c h =
      let a = append_bounded-last m s.commands c in
      let b = ap (λ z. append_bounded z s.commands c) h in ground arith

  abbrev continue : List C → Run (InMemoryMessageStore C Q E H) → Run (InMemoryMessageStore C Q E H)
  continue cs r = elim r [ panics ↦ panics | returns s' ↦ record_commands s' cs ]

  -- Recording any commands in a store whose size is not negative never panics, changes nothing but
  -- the commands, and leaves the last ones, as many as the size, of the old and the new commands
  -- together, in order, if the old ones were within the size.
  pub record_commands-last :
      (cs : List C) (s : InMemoryMessageStore C Q E H) (m : ℕ)
      → s.max_size ≡ pos m
      → length s.commands ≤ m
      → record_commands s cs ≡ returns (record s { commands = last m (s.commands ++ cs) })
  record_commands-last [] s m h le =
      let all : length (s.commands ++ []) - m ≡ 0 =
        omega (arith, length-append {0} s.commands []) in
      ap (λ l. returns (record s { commands = l }))
        (sym (ap (λ n. drop n (s.commands ++ [])) all ∙ append-nil s.commands))
  record_commands-last (c ∷ cs) s m h le =
      let s' = record s { commands = last m (s.commands ++ c ∷ []) } in
      ap (continue cs) (record_command-last s m c h)
      ∙ record_commands-last cs s' m h (
          omega (arith, length-drop {0} (length (s.commands ++ c ∷ []) - m) (s.commands ++ c ∷ [])))
      ∙ ap (λ l. returns (record s { commands = l }))
          (last-last m (s.commands ++ c ∷ []) cs
            ∙ ap (last m) (append_assoc s.commands (c ∷ []) cs))
