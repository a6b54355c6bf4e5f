-- ===== src/Storage/LastOrders.antt =====
-- The items of the orders in `GetLastOrders` of
-- order_service/internal/ports/adapters/storage/postgres.go.
use l0_wb_tech_school.Base.{◌≡◌, refl, ap, subst, List, [], ◌∷◌, map, All}
use l0_wb_tech_school.Base.Text.{Text}
use l0_wb_tech_school.Models.{OrderItem, Order}
use l0_wb_tech_school.Storage.Read.{
  RowsAnswer, Result, found, failed, get_order_items_by_id, get_last_orders_base, add_items,
  with_items, after_base, get_last_orders,
}

-- An order but for its items.
abbrev pub bare : Order → Order
bare o = record o { items = [] }

-- The items are those that the query of the order's id answers.
abbrev pub HasItems : (Text → RowsAnswer) → Order → Type 0
HasItems query o = get_order_items_by_id (query o.order_uid) ≡ found o.items

Filled : (Text → RowsAnswer) → List Order → Result (List Order) → Type 0
Filled query orders (failed e) = Unit
Filled query orders (found os) = (map bare os ≡ map bare orders) × All (HasItems query) os

add_items-Filled :
    (query : Text → RowsAnswer) (order : Order) (orders : List Order)
    (items : Result (List OrderItem)) (rest : Result (List Order))
    → get_order_items_by_id (query order.order_uid) ≡ items
    → Filled query orders rest
    → Filled query (order ∷ orders) (add_items order items rest)
unfolding add_items Filled
add_items-Filled query order orders (failed e) rest h r = tt
add_items-Filled query order orders (found items) (failed e) h r = tt
add_items-Filled query order orders (found items) (found os) h r =
    (ap (◌∷◌ (bare order)) r.0, (h, r.1))

with_items-Filled :
    (query : Text → RowsAnswer) (orders : List Order)
    → Filled query orders (with_items query orders)
unfolding with_items Filled
with_items-Filled query [] = (refl, tt)
with_items-Filled query (order ∷ orders) =
    add_items-Filled query order orders _ (with_items query orders) refl
      (with_items-Filled query orders)

LastOf : (Text → RowsAnswer) → Result (List Order) → Result (List Order) → Type 0
LastOf query base (failed e) = Unit
LastOf query base (found os) =
    (orders : List Order) × (base ≡ found orders)
    × (map bare os ≡ map bare orders)
    × All (HasItems query) os

LastOf-of_Filled :
    (query : Text → RowsAnswer) (orders : List Order) (result : Result (List Order))
    → Filled query orders result
    → LastOf query (found orders) result
unfolding Filled LastOf
LastOf-of_Filled query orders (failed e) h = tt
LastOf-of_Filled query orders (found os) h = (orders, refl, h.0, h.1)

after_base-LastOf :
    (query : Text → RowsAnswer) (base : Result (List Order))
    → LastOf query base (after_base query base)
unfolding after_base LastOf
after_base-LastOf query (failed e) = tt
after_base-LastOf query (found orders) =
    LastOf-of_Filled query orders (with_items query orders) (with_items-Filled query orders)

-- A `GetLastOrders` that returns orders returns those of its first query, in that order and each with
-- the items that the query of its own id answers.
pub get_last_orders-found :
    (orders_answer : RowsAnswer) (query : Text → RowsAnswer) {os : List Order}
    → get_last_orders orders_answer query ≡ found os
    → (orders : List Order) × (get_last_orders_base orders_answer ≡ found orders)
      × (map bare os ≡ map bare orders)
      × All (HasItems query) os
unfolding get_last_orders LastOf
get_last_orders-found orders_answer query h =
    subst (LastOf query (get_last_orders_base orders_answer)) h
      (after_base-LastOf query (get_last_orders_base orders_answer))
