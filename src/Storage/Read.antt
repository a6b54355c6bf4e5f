-- ===== src/Storage/Read.antt =====
-- `GetOrderByID` and `GetLastOrders` of order_service/internal/ports/adapters/storage/postgres.go. What
-- the database answers to their queries is a parameter.

use l0_wb_tech_school.Base.{false, true, Bool, Option, none, some, List, [], ◌∷◌, if◌then◌else◌}
use l0_wb_tech_school.Base.Text.{Text, text_beq}
use l0_wb_tech_school.Models.{OrderItem, Order}
use l0_wb_tech_school.Storage.{Value}
use l0_wb_tech_school.Storage.Query.{Select, order_query}
use l0_wb_tech_school.Storage.Scan.{
  zero_order, zero_item, scan, order_destinations, item_destinations,
}

-- What `QueryRow` answers, and what `Query` answers: the rows it gives before the end, and whether
-- that end is an error, which `rows.Err()` would tell.
pub data RowAnswer : Type 0 where
  row : List Value → RowAnswer
  no_rows row_failed : RowAnswer

pub data RowsAnswer : Type 0 where
  rows : List (List Value) → Bool → RowsAnswer
  query_failed : RowsAnswer

pub data ReadError : Type 0 where
  order_not_found error_mapping couldnt_query couldnt_scan getting_last_items : ReadError
  getting_order getting_items getting_last : ReadError → ReadError

pub data Result (A : Type 0) : Type 0 where
  found : A → Result A
  failed : ReadError → Result A

-- `if order.OrderUID == "" ...`
unfoldable pub known_order : Option Order → Result Order
known_order none = failed error_mapping
known_order (some order) =
    if text_beq order.order_uid [] then failed order_not_found else found order

unfoldable pub scan_order : RowAnswer → Result Order
unfolding known_order scan
scan_order (row values) = known_order (scan order_destinations values zero_order)
scan_order no_rows = failed order_not_found
scan_order row_failed = failed error_mapping

unfoldable pub get_order_by_id_base : (Select → RowAnswer) → Text → Result Order
unfolding scan_order
get_order_by_id_base query_row order_id = scan_order (query_row (order_query order_id))

-- The loops over `rows.Next()`: an error of `Scan` ends the read.
unfoldable pub scan_rows {ℓ} :
    {R : Type ℓ} → (List Value → Option R) → List (List Value) → Option (List R)
scan_rows one [] = some []
scan_rows one (values ∷ rest) =
    let others = scan_rows one rest in
    elim (one values) [
      | none ↦ none
      | some r ↦ elim others [ none ↦ none | some rs ↦ some (r ∷ rs) ]
    ]

unfoldable pub or_couldnt_scan : {A : Type 0} → Option A → Result A
or_couldnt_scan none = failed couldnt_scan
or_couldnt_scan (some a) = found a

unfoldable pub get_order_items_by_id : RowsAnswer → Result (List OrderItem)
unfolding or_couldnt_scan scan_rows scan
get_order_items_by_id (rows answer ends_in_error) =
    or_couldnt_scan (scan_rows (λ values. scan item_destinations values zero_item) answer)
get_order_items_by_id query_failed = failed couldnt_query

unfoldable pub get_last_orders_base : RowsAnswer → Result (List Order)
unfolding or_couldnt_scan scan_rows scan
get_last_orders_base (rows answer ends_in_error) =
    or_couldnt_scan (scan_rows (λ values. scan order_destinations values zero_order) answer)
get_last_orders_base query_failed = failed couldnt_query

-- `eg.Wait()` gives the error of the goroutine that failed first.
unfoldable pub wait_both : Bool → Result Order → Result (List OrderItem) → Result Order
wait_both order_first (found order) (found items) = found (record order { items = items })
wait_both order_first (found order) (failed e) = failed (getting_items e)
wait_both order_first (failed e) (found items) = failed (getting_order e)
wait_both order_first (failed e) (failed f) =
    if order_first then failed (getting_order e) else failed (getting_items f)

-- `query` answers the query for the items of an id.
unfoldable pub get_order_by_id :
    Bool → (Select → RowAnswer) → (Text → RowsAnswer) → Text → Result Order
unfolding wait_both get_order_by_id_base get_order_items_by_id
get_order_by_id order_first query_row query order_id =
    wait_both order_first (get_order_by_id_base query_row order_id)
      (get_order_items_by_id (query order_id))

-- The items of each order, queried by its id.
unfoldable pub add_items :
    Order → Result (List OrderItem) → Result (List Order) → Result (List Order)
add_items order (failed e) others = failed getting_last_items
add_items order (found items) (failed e) = failed e
add_items order (found items) (found rest) = found (record order { items = items } ∷ rest)

unfoldable pub with_items : (Text → RowsAnswer) → List Order → Result (List Order)
unfolding get_order_items_by_id add_items
with_items query [] = found []
with_items query (order ∷ orders) =
    add_items order (get_order_items_by_id (query order.order_uid)) (with_items query orders)

unfoldable pub after_base : (Text → RowsAnswer) → Result (List Order) → Result (List Order)
unfolding with_items
after_base query (failed e) = failed (getting_last e)
after_base query (found orders) = with_items query orders

unfoldable pub get_last_orders : RowsAnswer → (Text → RowsAnswer) → Result (List Order)
unfolding get_last_orders_base after_base
get_last_orders orders_answer query = after_base query (get_last_orders_base orders_answer)

-- `errors.Is(err, customerrors.ErrOrderNotFound)`, through the wrappers with `%w`.
abbrev pub is_not_found : ReadError → Bool
is_not_found order_not_found = true
is_not_found error_mapping = false
is_not_found couldnt_query = false
is_not_found couldnt_scan = false
is_not_found getting_last_items = false
is_not_found (getting_order e) = is_not_found e
is_not_found (getting_items e) = is_not_found e
is_not_found (getting_last e) = false
