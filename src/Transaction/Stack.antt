-- ===== src/Transaction/Stack.antt =====
-- The savepoint stack of pg/transaction.go, and the states of a world.
use ddd_qce.Common.{
  ℕ, suc, ◌+◌, ◌-◌, ◌<◌, ◌≤◌, ◌≡◌, refl, ap, ◌∙◌, subst, true, false, Option, some, List, [], ◌∷◌,
  ◌++◌, length, length-append, arith, inl, inr, Bool-cases, if◌then◌else◌, ◌==◌, ◌≢◌,
}
use ddd_qce.Transaction.{TxState, pop_last}

-- The numbers rise, and lie above the first and not above the second.
abbrev pub Rising : ℕ → ℕ → List ℕ → Type 0
Rising low high [] = low ≤ high
Rising low high (n ∷ ns) = (low < n) × Rising n high ns

Rising-append :
    (low high n : ℕ) (ns : List ℕ) → Rising low high ns → high < n → Rising low n (ns ++ n ∷ [])
Rising-append low high n [] r h = (omega arith, omega arith)
Rising-append low high n (m ∷ ns) r h = (r.0, Rising-append m high n ns r.1 h)

Rising-low : (low high : ℕ) (ns : List ℕ) → Rising low high ns → low ≤ high
Rising-low low high [] r = r
Rising-low low high (n ∷ ns) r = omega (arith, Rising-low n high ns r.1)

pub Rising-higher : (low high : ℕ) (ns : List ℕ) → Rising low high ns → Rising low (high + 1) ns
Rising-higher low high [] r = omega arith
Rising-higher low high (n ∷ ns) r = (r.0, Rising-higher n high ns r.1)

pub pop_last-append : (ns : List ℕ) (n : ℕ) → pop_last (ns ++ n ∷ []) ≡ some (ns, n)
unfolding pop_last
pop_last-append [] n = refl
pop_last-append (m ∷ ns) n = ground (arith, pop_last-append ns n)

-- What is popped of a rising stack: the rest rises, and is one shorter.
pop_last-Rising :
    (low high n : ℕ) (ns : List ℕ)
    → Rising low high (n ∷ ns)
    → (t : List ℕ × ℕ) × (pop_last (n ∷ ns) ≡ some t)
      × Rising low high t.0
      × (length t.0 ≡ length ns)
unfolding pop_last
pop_last-Rising low high n [] r = (([], n), refl, omega arith, refl)
pop_last-Rising low high n (m ∷ ns) r =
    let (t, e, r', l) = pop_last-Rising n high m ns r.1 in
    ((n ∷ t.0, t.1), ground arith, (r.0, r'), ap suc l)

pop_last-nonempty :
    (high : ℕ) (ns : List ℕ)
    → Rising 0 high ns
    → length ns ≢ 0
    → (t : List ℕ × ℕ) × (pop_last ns ≡ some t) × Rising 0 high t.0 × (suc (length t.0) ≡ length ns)
pop_last-nonempty high [] r h = absurd (h refl)
pop_last-nonempty high (n ∷ ns) r h =
    let (t, e, r', l) = pop_last-Rising 0 high n ns r in (t, e, r', ap suc l)

module _ {Tx : Type 0} where
  -- The stack has one number for each level, and they rise up to the last one that was given.
  pub record IsWellFormed (st : TxState Tx) : Type 0 where
    pub levels : st.depth ≡ length st.parent_sp
    pub rises : Rising 0 st.next_sp_seq st.parent_sp

  abbrev pub AllWellFormed : (ℕ → Option (TxState Tx)) → Type 0
  AllWellFormed states = (p : ℕ) (st : TxState Tx) → states p ≡ some st → IsWellFormed st

  abbrev pub with_state : (ℕ → Option (TxState Tx)) → ℕ → TxState Tx → ℕ → Option (TxState Tx)
  with_state states p st = λ q. if q == p then some st else states q

  pub with_state-AllWellFormed :
      (states : ℕ → Option (TxState Tx)) (p : ℕ) (st : TxState Tx)
      → AllWellFormed states
      → IsWellFormed st
      → AllWellFormed (with_state states p st)
  with_state-AllWellFormed states p st a f q st' e = elim (Bool-cases (q == p)) [
    | inl h ↦ let same : st ≡ st' = ground arith in subst IsWellFormed same f
    | inr h ↦ a q st' (ground arith)
  ]

  -- A level is taken off.
  pub popped :
      (st : TxState Tx)
      → IsWellFormed st
      → st.depth ≢ 0
      → (t : List ℕ × ℕ) × (pop_last st.parent_sp ≡ some t)
        × IsWellFormed (record st { depth = st.depth - 1; parent_sp = t.0 })
        × IsWellFormed (record st { aborted = true; depth = st.depth - 1; parent_sp = t.0 })
  popped st f h =
      let (t, e, r, l) =
        pop_last-nonempty st.next_sp_seq st.parent_sp f.rises (λ q. h (f.levels ∙ q)) in
      let levels : st.depth - 1 ≡ length t.0 = omega (arith, f.levels, l) in
      (t, e, record { levels = levels; rises = r }, record { levels = levels; rises = r })

  -- The state of a nested transaction that has begun.
  abbrev pub nested_state : TxState Tx → TxState Tx
  nested_state st = record st {
    depth = st.depth + 1;
    next_sp_seq = st.next_sp_seq + 1;
    parent_sp = st.parent_sp ++ (st.next_sp_seq + 1) ∷ [];
    aborted = false;
  }

  pub pushed :
      (st : TxState Tx)
      → IsWellFormed st
      → IsWellFormed (record st {
        depth = st.depth + 1;
        next_sp_seq = st.next_sp_seq + 1;
        parent_sp = st.parent_sp ++ (st.next_sp_seq + 1) ∷ [];
        aborted = false;
      })
  pushed st f = record {
    levels = omega (arith, f.levels, length-append {0} st.parent_sp ((st.next_sp_seq + 1) ∷ []));
    rises = Rising-append 0 st.next_sp_seq (st.next_sp_seq + 1) st.parent_sp f.rises (omega arith);
  }
