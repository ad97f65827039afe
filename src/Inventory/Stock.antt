-- ===== src/Inventory/Stock.antt =====
-- The stock of exampleapp/ddd/inventory/domain/inventory.go over many reservations.
use ddd_qce.Common.{
  ℕ, ◌+◌, ◌-◌, ◌≤◌, ◌<◌, ◌≡◌, sym, ap, ◌∙◌, subst, String, Bool, true, false, Option, none, some,
  List, [], ◌∷◌, arith, Bool-cases, Option-cases, inl, inr, if◌then◌else◌, leb, str_eq, str_eq_iff,
  lookup, lookup-insert, lookup-insert_self, str_eq_refl,
}
use ddd_qce.Common.Int.{ℤ, pos, sub64, sub64-small, add64, add64-small}
use ddd_qce.Errors.{Err}
use ddd_qce.Inventory.{Product, Inventory, reserve, release, get_by_id, set_stock}

abbrev is_ok : Option Err → Bool
is_ok none = true
is_ok (some e) = false

module _ {F : Type 0} where
  -- Reservations one after the other, refused ones included.
  unfoldable pub reserve_all : Inventory F → List (String × ℕ) → Inventory F
  reserve_all inv [] = inv
  reserve_all inv ((id, q) ∷ rs) = reserve_all (reserve inv id (pos q)).0 rs

  -- How much of a product the accepted ones take.
  unfoldable pub reserved : String → Inventory F → List (String × ℕ) → ℕ
  reserved j inv [] = 0
  reserved j inv ((id, q) ∷ rs) =
      (if str_eq id j then (if is_ok (reserve inv id (pos q)).1 then q else 0) else 0)
      + reserved j (reserve inv id (pos q)).0 rs

  -- The product is there, with this stock.
  unfoldable pub HasStock : Inventory F → String → ℕ → Type 0
  HasStock inv j n = (p : Product F) × (get_by_id inv j ≡ some p) × (p.stock ≡ pos n)

  reserve-other :
      (inv : Inventory F) (id j : String) (q : ℤ)
      → str_eq id j ≡ false
      → get_by_id (reserve inv id q).0 j ≡ get_by_id inv j
  unfolding reserve get_by_id
  reserve-other inv id j q h = elim (Option-cases (lookup id inv.products)) [
    | inl e ↦ ground (arith, e)
    | inr (p, e) ↦
        ground (arith, e, h, lookup-insert id j (record p { stock = sub64 p.stock q }) inv.products)
  ]

  reserve-enough :
      (inv : Inventory F) (j : String) (p : Product F) (n q : ℕ)
      → get_by_id inv j ≡ some p
      → p.stock ≡ pos n
      → q ≤ n
      → reserve inv j (pos q) ≡ (set_stock inv j p (sub64 p.stock (pos q)), none)
  unfolding reserve get_by_id
  reserve-enough inv j p n q h k l = ground (arith, h, k)

  reserve-short :
      (inv : Inventory F) (j : String) (p : Product F) (n q : ℕ)
      → get_by_id inv j ≡ some p
      → p.stock ≡ pos n
      → n < q
      → ((reserve inv j (pos q)).0 ≡ inv) × (is_ok (reserve inv j (pos q)).1 ≡ false)
  unfolding reserve get_by_id
  reserve-short inv j p n q h k l = (ground (arith, h, k), ground (arith, h, k))

  abbrev taken : Inventory F → String → String → ℕ → ℕ
  taken inv id j q = if str_eq id j then (if is_ok (reserve inv id (pos q)).1 then q else 0) else 0

  -- What one reservation does to the stock of j.
  Balances : Inventory F → String → String → ℕ → ℕ → Type 0
  Balances inv id j n q =
      (m : ℕ) × HasStock (reserve inv id (pos q)).0 j m × (m + taken inv id j q ≡ n)

  reserve-Balances_self :
      (inv : Inventory F) (j : String) (n q : ℕ)
      → HasStock inv j n
      → n < 9223372036854775808
      → Balances inv j j n q
  unfolding Balances HasStock get_by_id
  reserve-Balances_self inv j n q (p, found, stock) small = elim (Bool-cases (leb q n)) [
    | inl e ↦
        let done = reserve-enough inv j p n q found stock (ground (arith, e)) in
        (
          n - q,
          (
            record p { stock = sub64 p.stock (pos q) },
            ap (λ r. lookup j r.0.products) done
                ∙ lookup-insert_self j (record p { stock = sub64 p.stock (pos q) }) inv.products,
            ap (λ x. sub64 x (pos q)) stock ∙ sub64-small n q (ground (arith, e)) small,
          ),
          ap (λ b. n - q + (if b then (if is_ok (reserve inv j (pos q)).1 then q else 0) else 0))
                (str_eq_refl j)
              ∙ ap (λ r. n - q + (if is_ok r.1 then q else 0)) done
              ∙ ground (arith, e),
        )
    | inr e ↦
        let (same, refused) = reserve-short inv j p n q found stock (ground (arith, e)) in
        (
          n,
          (p, ap (λ i. lookup j i.products) same ∙ found, stock),
          ap (λ b. n + (if b then (if is_ok (reserve inv j (pos q)).1 then q else 0) else 0))
                (str_eq_refl j)
              ∙ ap (λ b. n + (if b then q else 0)) refused
              ∙ omega arith,
        )
  ]

  reserve-Balances :
      (inv : Inventory F) (id j : String) (n q : ℕ)
      → HasStock inv j n
      → n < 9223372036854775808
      → Balances inv id j n q
  unfolding Balances HasStock
  reserve-Balances inv id j n q h small = elim (Bool-cases (str_eq id j)) [
    | inl e ↦
        subst (λ k. Balances inv k j n q) (sym ((str_eq_iff id j).0 e))
          (reserve-Balances_self inv j n q h small)
    | inr e ↦
        let (p, found, stock) = h in
        (
          n,
          (p, reserve-other inv id j (pos q) e ∙ found, stock),
          ap (λ b. n + (if b then (if is_ok (reserve inv id (pos q)).1 then q else 0) else 0)) e
              ∙ omega arith,
        )
  ]

  -- Nothing is sold twice: after any sequence of reservations of numbers that are not negative, the
  -- product is still there, and its stock and what the accepted reservations of it took
  -- are together the stock from before.
  pub reserve_all-HasStock :
      (rs : List (String × ℕ)) (inv : Inventory F) (j : String) (n : ℕ)
      → HasStock inv j n
      → n < 9223372036854775808
      → (m : ℕ) × HasStock (reserve_all inv rs) j m × (m + reserved j inv rs ≡ n)
  unfolding reserve_all reserved Balances
  reserve_all-HasStock [] inv j n h small = (n, h, omega arith)
  reserve_all-HasStock ((id, q) ∷ rs) inv j n h small =
      let (k, next, eq) = reserve-Balances inv id j n q h small in
      let (m, last, sum) =
        reserve_all-HasStock rs (reserve inv id (pos q)).0 j k next (omega (arith, eq, small)) in
      (m, last, omega (arith, eq, sum))

  lookup-release :
      (inv : Inventory F) (id j : String) (p : Product F) (q : ℤ)
      → get_by_id inv id ≡ some p
      → get_by_id (release inv id q).0 j
        ≡ (if str_eq id j then some (record p { stock = add64 p.stock q }) else get_by_id inv j)
  unfolding release get_by_id
  lookup-release inv id j p q h =
      ground (arith, h, lookup-insert id j (record p { stock = add64 p.stock q }) inv.products)

  -- The stock after a reservation and its release is the stock from before.
  stock_back :
      (p : Product F) (n q : ℕ)
      → p.stock ≡ pos n
      → q ≤ n
      → n < 9223372036854775808
      → add64 (sub64 p.stock (pos q)) (pos q) ≡ p.stock
  stock_back p n q k l small =
      ap (λ x. add64 (sub64 x (pos q)) (pos q)) k
      ∙ ap (λ x. add64 x (pos q)) (sub64-small n q l small)
      ∙ add64-small (n - q) q (omega arith)
      ∙ ap pos (omega arith)
      ∙ sym k

  -- A reservation within the stock is accepted, and its release gives every product back as it was.
  pub release-reserve :
      (inv : Inventory F) (id j : String) (p : Product F) (n q : ℕ)
      → get_by_id inv id ≡ some p
      → p.stock ≡ pos n
      → q ≤ n
      → n < 9223372036854775808
      → ((reserve inv id (pos q)).1 ≡ none)
        × (get_by_id (release (reserve inv id (pos q)).0 id (pos q)).0 j ≡ get_by_id inv j)
  unfolding get_by_id
  release-reserve inv id j p n q h k l small =
      let done = reserve-enough inv id p n q h k l in
      let p' = record p { stock = sub64 p.stock (pos q) } in
      let inv' = set_stock inv id p (sub64 p.stock (pos q)) in
      (
        ap (λ r. r.1) done,
        ap (λ r. get_by_id (release r.0 id (pos q)).0 j) done
            ∙ lookup-release inv' id j p' (pos q) (lookup-insert_self id p' inv.products)
            ∙ ap (λ x. if str_eq id j then some (record p { stock = x }) else get_by_id inv' j)
                (stock_back p n q k l small)
            ∙ ground (arith, h, lookup-insert id j p' inv.products, str_eq_iff id j),
      )
