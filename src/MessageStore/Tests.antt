-- ===== src/MessageStore/Tests.antt =====
-- A run of the message store that goes over its size.
use ddd_qce.Common.{ℕ, [], ◌∷◌}
use ddd_qce.Common.Int.{pos}
use ddd_qce.MessageStore.{InMemoryMessageStore}

abbrev size_two : InMemoryMessageStore ℕ ℕ ℕ ℕ
size_two = record { commands = 1 ∷ []; queries = []; events = []; handlers = []; max_size = pos 2 }
