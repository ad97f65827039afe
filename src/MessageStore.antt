-- ===== src/MessageStore.antt =====
-- aspect/builtin/in_memory_message_store.go: the last messages of each kind. What an entry holds
-- does not matter to the store, so the four types of entries are parameters.
pub mod Window
mod Tests
use ddd_qce.Common.{
  ℕ, ◌+◌, ◌-◌, List, [], ◌∷◌, ◌++◌, length, drop, ltb, if◌then◌else◌, Bool, true, false,
}
use ddd_qce.Common.Int.{ℤ, pos, pos_part, neg_part, ltb_ℤ}
use ddd_qce.Errors.{Run, returns, panics}

pub record InMemoryMessageStore (C Q E H : Type 0) : Type 0 where
  pub commands : List C
  pub queries : List Q
  pub events : List E
  pub handlers : List H
  pub max_size : ℤ

-- `append` and, past the size, `xs[len(xs)-maxSize:]`, which panics if maxSize is negative.
unfoldable pub append_bounded : {A : Type 0} → ℤ → List A → A → Run (List A)
append_bounded max_size xs entry =
    if ltb_ℤ max_size (pos (length (xs ++ entry ∷ [])))
    then (if ltb 0 (neg_part max_size)
        then panics
        else returns (drop (length (xs ++ entry ∷ []) - pos_part max_size) (xs ++ entry ∷ [])))
    else returns (xs ++ entry ∷ [])

module _ {C Q E H : Type 0} where
  unfoldable pub record_command :
      InMemoryMessageStore C Q E H → C → Run (InMemoryMessageStore C Q E H)
  unfolding append_bounded
  record_command s entry = elim (append_bounded s.max_size s.commands entry) [
    | panics ↦ panics
    | returns xs ↦ returns (record s { commands = xs })
  ]

  unfoldable pub record_query :
      InMemoryMessageStore C Q E H → Q → Run (InMemoryMessageStore C Q E H)
  unfolding append_bounded
  record_query s entry = elim (append_bounded s.max_size s.queries entry) [
    | panics ↦ panics
    | returns xs ↦ returns (record s { queries = xs })
  ]

  unfoldable pub record_event :
      InMemoryMessageStore C Q E H → E → Run (InMemoryMessageStore C Q E H)
  unfolding append_bounded
  record_event s entry = elim (append_bounded s.max_size s.events entry) [
    | panics ↦ panics
    | returns xs ↦ returns (record s { events = xs })
  ]

  unfoldable pub record_event_handler :
      InMemoryMessageStore C Q E H → H → Run (InMemoryMessageStore C Q E H)
  unfolding append_bounded
  record_event_handler s entry = elim (append_bounded s.max_size s.handlers entry) [
    | panics ↦ panics
    | returns xs ↦ returns (record s { handlers = xs })
  ]
