-- ===== src/Inventory.antt =====
-- exampleapp/ddd/inventory/domain/inventory.go: the stock of the example application. A price does
-- not matter to the stock, and its type is a parameter; %d is the number's argument.
pub mod Stock
mod Tests
use ddd_qce.Common.{
  String, Option, none, some, List, [], ◌∷◌, map, if◌then◌else◌, Dict, lookup, insert,
}
use ddd_qce.Common.Int.{ℤ, ltb_ℤ, add64, sub64}
use ddd_qce.Errors.{Err, Arg, text}

pub record Product (F : Type 0) : Type 0 where
  pub id : String
  pub name : String
  pub price : F
  pub stock : ℤ

pub record Inventory (F : Type 0) : Type 0 where
  pub products : Dict (Product F)

abbrev pub product_not_found : String → Err
product_not_found id = text "product %s not found" (Arg.str id ∷ [])

module _ {F : Type 0} where
  -- The update through the product's pointer.
  abbrev pub set_stock : Inventory F → String → Product F → ℤ → Inventory F
  set_stock inv id p stock = record inv {
    products = insert id (record p { stock = stock }) inv.products;
  }

  unfoldable pub reserve : Inventory F → String → ℤ → Inventory F × Option Err
  reserve inv id quantity = elim (lookup id inv.products) [
    | none ↦ (inv, some (product_not_found id))
    | some p ↦
        if ltb_ℤ p.stock quantity
        then (
          inv,
          some (
              text "insufficient stock for %s: have %d, need %d"
                (Arg.str p.name ∷ Arg.num p.stock ∷ Arg.num quantity ∷ [])),
        )
        else (set_stock inv id p (sub64 p.stock quantity), none)
  ]

  unfoldable pub release : Inventory F → String → ℤ → Inventory F × Option Err
  release inv id quantity = elim (lookup id inv.products) [
    | none ↦ (inv, some (product_not_found id))
    | some p ↦ (set_stock inv id p (add64 p.stock quantity), none)
  ]

  unfoldable pub add_stock : Inventory F → String → ℤ → Inventory F × Option Err
  add_stock inv id quantity = elim (lookup id inv.products) [
    | none ↦ (inv, some (product_not_found id))
    | some p ↦ (set_stock inv id p (add64 p.stock quantity), none)
  ]

  unfoldable pub get_all : Inventory F → List (Product F)
  get_all inv = map (λ kv. kv.1) inv.products

  unfoldable pub get_by_id : Inventory F → String → Option (Product F)
  get_by_id inv id = lookup id inv.products

  -- The loop of seed over DefaultProducts.
  unfoldable pub seed : Inventory F → List (Product F) → Inventory F
  seed inv [] = inv
  seed inv (p ∷ ps) = seed (record inv { products = insert p.id p inv.products }) ps
