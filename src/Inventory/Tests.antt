-- ===== src/Inventory/Tests.antt =====
-- Runs of the inventory.
use ddd_qce.Common.{ℕ, ◌+◌, ◌≡◌, refl, String, List, [], ◌∷◌, arith, some, none, lookup, insert}
use ddd_qce.Common.Int.{pos, negsuc, add64}
use ddd_qce.Inventory.{Product, Inventory, reserve, get_by_id}
use ddd_qce.Inventory.Stock.{HasStock, reserve_all, reserved, reserve_all-HasStock}

abbrev laptop : Product ℕ
laptop = record { id = "laptop"; name = "Laptop"; price = 999; stock = pos 10 }

abbrev shelf : Inventory ℕ
shelf = record { products = ("laptop", laptop) ∷ [] }

abbrev some_orders : List (String × ℕ)
some_orders = ("laptop", 7) ∷ ("mouse", 1) ∷ ("laptop", 7) ∷ ("laptop", 3) ∷ []

laptops : HasStock shelf "laptop" 10
unfolding HasStock get_by_id lookup
laptops = (laptop, refl, refl)

reserve_all-HasStock_example :
    (m : ℕ) × HasStock (reserve_all shelf some_orders) "laptop" m
    × (m + reserved "laptop" shelf some_orders ≡ 10)
reserve_all-HasStock_example =
    reserve_all-HasStock some_orders shelf "laptop" 10 laptops (omega arith)

found : get_by_id shelf "laptop" ≡ some laptop
unfolding get_by_id lookup
found = refl

-- A negative quantity is accepted, and the stock grows.
negative_quantity :
    reserve shelf "laptop" (negsuc 4)
    ≡ (record { products = ("laptop", record laptop { stock = pos 15 }) ∷ [] }, none)
unfolding reserve lookup insert add64
negative_quantity = refl
