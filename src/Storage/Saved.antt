-- ===== src/Storage/Saved.antt =====
-- The rows that `SaveOrder` of order_service/internal/ports/adapters/storage/postgres.go leaves in the
-- tables, and the order that is to be read back.
use Prim.Native.String.{String}
use l0_wb_tech_school.Base.{
  ◌≡◌, false, some, List, [], ◌∷◌, ◌++◌, map, All, ◌==◌, string_eq, if◌then◌else◌,
}
use l0_wb_tech_school.Base.Text.{Text}
use l0_wb_tech_school.Models.{Time, OrderItem, Order}
use l0_wb_tech_school.Storage.{
  Value, text, int, time, orders_insert, payments_insert, deliveries_insert,
}
use l0_wb_tech_school.Storage.Query.{item_columns}
use l0_wb_tech_school.Storage.Read.{Result, found, failed, order_not_found, getting_order}
use l0_wb_tech_school.Storage.Joins.{Row, Tables, zipped, inserted, cell, equal_texts}

-- The rows of an order. `created_at` and `updated_at` have defaults of the database.
abbrev pub order_row : Order → Time → Time → Row
order_row o created updated =
    inserted (orders_insert o) ++ ("created_at", time created) ∷ ("updated_at", time updated) ∷ []

-- The row that the text of `saveItems` has for an item.
abbrev pub item_row : Text → OrderItem → Row
item_row order_uid item = zipped item_columns (
    text order_uid
    ∷ int item.chrt_id
    ∷ text item.track_number
    ∷ int item.price
    ∷ text item.rid
    ∷ text item.name
    ∷ int item.sale
    ∷ text item.size
    ∷ int item.total_price
    ∷ int item.nm_id
    ∷ text item.brand
    ∷ int item.status
    ∷ [])

abbrev pub order_rows : Order → Time → Time → String → List Row
order_rows o created updated table =
    if table == "order_service.orders"
    then order_row o created updated ∷ []
    else if table == "order_service.deliveries"
    then inserted (deliveries_insert o.order_uid o.delivery) ∷ []
    else if table == "order_service.payments"
    then inserted (payments_insert o.order_uid o.payment) ∷ []
    else if table == "order_service.order_items"
    then map (item_row o.order_uid) o.items
    else []

-- The tables once the order is saved beside rows of other orders.
abbrev pub saved_tables : Order → Time → Time → Tables → Tables
saved_tables o created updated others table = order_rows o created updated table ++ others table

abbrev pub HasOthers : Text → String → List Row → Type 0
HasOthers uid column = All (λ r. equal_texts (cell column r) (some (text uid)) ≡ false)

-- The rows are of orders with other ids.
pub record IsElsewhere (uid : Text) (others : Tables) : Type 0 where
  pub orders : HasOthers uid "order_uid" (others "order_service.orders")
  pub deliveries : HasOthers uid "order_id" (others "order_service.deliveries")
  pub payments : HasOthers uid "order_id" (others "order_service.payments")
  pub order_items : HasOthers uid "order_id" (others "order_service.order_items")

-- What the column of the date keeps of it: a TIMESTAMP of Postgres counts microseconds.
abbrev pub as_stored : (Time → Time) → Order → Order
as_stored in_column o = record o { date_created = in_column o.date_created }

-- The order that is read back: the timestamps are the database's, and the parts carry the order's id.
abbrev pub read_back : Order → Time → Time → List OrderItem → Order
read_back o created updated items = record o {
  created_at = created;
  updated_at = updated;
  delivery = record (o.delivery) { order_id = o.order_uid };
  payment = record (o.payment) { order_id = o.order_uid };
  items = items;
}

-- An order without items is not found.
abbrev pub once_saved : List OrderItem → Order → Result Order
once_saved [] back = failed (getting_order order_not_found)
once_saved (item ∷ items) back = found back

-- The values of an item's row, by the columns of the query.
abbrev pub values_of : Row → List Value
values_of [] = []
values_of ((c, v) ∷ fields) = v ∷ values_of fields
