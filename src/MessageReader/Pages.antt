-- ===== src/MessageReader/Pages.antt =====
-- The pages of observability/message_reader.go put together.
use ddd_qce.Common.{
  ℕ, zero, suc, ◌+◌, ◌-◌, ◌*◌, ◌≤◌, ◌≡◌, refl, sym, ap, ◌∙◌, Bool, true, List, [], ◌∷◌, ◌++◌,
  length, take, drop, drop-drop, take_add, drop-append_of_le, length-append, filter_by,
  take_of_length_le, drop_of_length_le, append_assoc, arith, if◌then◌else◌, Bool-cases, inl, inr,
  append-nil,
}
use mathlib.Core.List.{reverse, reverse_aux}
use ddd_qce.Common.Int.{pos}
use ddd_qce.Errors.{Run, returns, panics}
use ddd_qce.MessageStore.Window.{last, record_command-last}
use ddd_qce.MessageReader.{
  ObservableMessageStore, MessageFilter, CommandEntry, QueryResult, scan_back, page, query_commands,
  record_command, match_command_filter, with_inner,
}

module _ {A : Type 0} where
  filter_by-reverse_aux :
      (p : A → Bool) (xs acc : List A)
      → filter_by p (reverse_aux xs acc) ≡ scan_back p xs ++ filter_by p acc
  unfolding scan_back
  filter_by-reverse_aux p [] acc = refl
  filter_by-reverse_aux p (x ∷ xs) acc = elim (Bool-cases (p x)) [
    | inl e ↦
        filter_by-reverse_aux p xs (x ∷ acc)
        ∙ rw (e) (sym (append_assoc (scan_back p xs) (x ∷ []) (filter_by p acc)))
    | inr e ↦
        filter_by-reverse_aux p xs (x ∷ acc)
        ∙ rw (e) (sym (append_assoc (scan_back p xs) [] (filter_by p acc)))
  ]

  scan_back-filter_by : (p : A → Bool) (xs : List A) → scan_back p xs ≡ filter_by p (reverse xs)
  scan_back-filter_by p xs = sym (filter_by-reverse_aux p xs [] ∙ append-nil (scan_back p xs))

  -- A page at an offset that is not negative, with a limit.
  page-take :
      (xs : List A) (l k : ℕ)
      → page xs (pos (suc l)) (pos k)
        ≡ returns (record { items = take (suc l) (drop k xs); total = length xs })
  unfolding page
  page-take xs l k = ground (
    arith,
    drop_of_length_le k xs,
    drop_of_length_le (length xs) xs,
    take_of_length_le (suc l) (drop k xs),
    take_of_length_le (length (drop k xs)) (drop k xs),
  )

-- What a client puts together of one page and the rest.
abbrev with_page : List CommandEntry → Run (List CommandEntry) → Run (List CommandEntry)
with_page xs panics = panics
with_page xs (returns es) = returns (xs ++ es)

abbrev with_rest :
    Run (List CommandEntry) → Run (QueryResult CommandEntry) → Run (List CommandEntry)
with_rest rest panics = panics
with_rest rest (returns r) = with_page r.items rest

-- A client that asks for one page after another: n pages of l + 1 commands from offset k.
unfoldable pub walk : ObservableMessageStore → MessageFilter → ℕ → ℕ → ℕ → Run (List CommandEntry)
walk s f l zero k = returns []
walk s f l (suc n) k =
    with_rest (walk s f l n (k + suc l))
      (query_commands s (record f { limit = pos (suc l); offset = pos k }))

-- The matching commands, the last recorded first.
abbrev pub matching : ObservableMessageStore → MessageFilter → List CommandEntry
matching s f = filter_by (λ e. match_command_filter e f) (reverse s.inner.commands)

-- One page of the matching commands.
query_commands-page :
    (s : ObservableMessageStore) (f : MessageFilter) (l k : ℕ)
    → query_commands s (record f { limit = pos (suc l); offset = pos k })
      ≡ returns
          (record { items = take (suc l) (drop k (matching s f)); total = length (matching s f) })
unfolding query_commands match_command_filter
query_commands-page s f l k =
    page-take (scan_back (λ e. match_command_filter e f) s.inner.commands) l k
    ∙ ap (λ xs. returns (record { items = take (suc l) (drop k xs); total = length xs }))
        (scan_back-filter_by (λ e. match_command_filter e f) s.inner.commands)

pages-append :
    (l n k : ℕ) (xs : List CommandEntry)
    → take (suc l) (drop k xs) ++ take (n * suc l) (drop (k + suc l) xs)
      ≡ take (suc n * suc l) (drop k xs)
pages-append l n k xs =
    ap (λ ys. take (suc l) (drop k xs) ++ take (n * suc l) ys) (sym (drop-drop (suc l) k xs))
    ∙ take_add (suc l) (n * suc l) (drop k xs)
    ∙ ap (λ m. take m (drop k xs)) {x = suc l + n * suc l} {y = suc n * suc l} (omega arith)

walk-take :
    (s : ObservableMessageStore) (f : MessageFilter) (l n k : ℕ)
    → walk s f l n k ≡ returns (take (n * suc l) (drop k (matching s f)))
unfolding walk
walk-take s f l zero k =
    ap (λ m. returns (take m (drop k (matching s f)))) {x = 0} {y = 0 * suc l} (omega arith)
walk-take s f l (suc n) k =
    ap (with_rest (walk s f l n (k + suc l))) (query_commands-page s f l k)
    ∙ ap (with_page (take (suc l) (drop k (matching s f)))) (walk-take s f l n (k + suc l))
    ∙ ap returns (pages-append l n k (matching s f))

-- A client that asks for the commands page by page, each page at the end of the one before, with a
-- limit above 0 and enough pages, gets every recorded command that matches the filter exactly once,
-- the last recorded first; no page panics.
pub walk-matching :
    (s : ObservableMessageStore) (f : MessageFilter) (l n : ℕ)
    → length (matching s f) ≤ n * suc l
    → walk s f l n 0 ≡ returns (matching s f)
walk-matching s f l n h =
    walk-take s f l n 0 ∙ ap returns (take_of_length_le (n * suc l) (matching s f) h)

reverse_aux-append :
    {A : Type 0} (xs acc : List A) (e : A) → reverse_aux (xs ++ e ∷ []) acc ≡ e ∷ reverse_aux xs acc
reverse_aux-append [] acc e = refl
reverse_aux-append (x ∷ xs) acc e = reverse_aux-append xs (x ∷ acc) e

-- The newest entry stays among the last m + 1.
last-append :
    {A : Type 0} (m : ℕ) (xs : List A) (e : A)
    → last (suc m) (xs ++ e ∷ []) ≡ drop (length (xs ++ e ∷ []) - suc m) xs ++ e ∷ []
last-append m xs e =
    drop-append_of_le (length (xs ++ e ∷ []) - suc m) xs (e ∷ [])
      (omega (arith, length-append xs (e ∷ [])))

-- A command that is recorded with a size above 0 and matches the filter is the first of the first
-- page, whatever the store held.
pub query_commands-record_command :
    (s : ObservableMessageStore) (e : CommandEntry) (f : MessageFilter) (l m : ℕ)
    → s.inner.max_size ≡ pos (suc m)
    → match_command_filter e f ≡ true
    → (s' : ObservableMessageStore) × (rest : List CommandEntry) × (total : ℕ) × (record_command s e
        ≡ returns s')
      × (query_commands s' (record f { limit = pos (suc l); offset = pos 0 })
          ≡ returns (record { items = e ∷ rest; total = total }))
unfolding record_command
query_commands-record_command s e f l m h k =
    let kept = drop (length (s.inner.commands ++ e ∷ []) - suc m) s.inner.commands in
    let s' : ObservableMessageStore = record s {
      inner = record s.inner { commands = kept ++ e ∷ [] };
    } in
    let newest : matching s' f ≡ e ∷ filter_by (λ x. match_command_filter x f) (reverse kept) =
      ap (filter_by (λ x. match_command_filter x f)) (reverse_aux-append kept [] e)
      ∙ ap
          (λ b.
            if b
            then e ∷ filter_by (λ x. match_command_filter x f) (reverse kept)
            else filter_by (λ x. match_command_filter x f) (reverse kept))
          k in
    (
      s',
      take l (filter_by (λ x. match_command_filter x f) (reverse kept)),
      length (matching s' f),
      ap (with_inner s) (record_command-last s.inner (suc m) e h)
          ∙ ap (λ cs. returns (record s { inner = record s.inner { commands = cs } }))
              (last-append m s.inner.commands e),
      query_commands-page s' f l 0
          ∙ ap (λ xs. returns (record { items = take (suc l) xs; total = length (matching s' f) }))
              newest,
    )
