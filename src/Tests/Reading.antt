-- ===== src/Tests/Reading.antt =====
-- What order_service/internal/ports/adapters/storage/postgres.go reads from a small database.
use Prim.Native.String.{String}
use l0_wb_tech_school.Base.{Option, none, ◌≡◌, refl, false, some, List, [], ◌∷◌, map, All}
use l0_wb_tech_school.Base.Int.{pos}
use l0_wb_tech_school.Base.Text.{Text}
use l0_wb_tech_school.Models.{Order}
use l0_wb_tech_school.Storage.{Value}
use l0_wb_tech_school.Storage.Unquoted.{IsUnquotedRow, items_query-inj}
use l0_wb_tech_school.Storage.Unquoted
use l0_wb_tech_school.Storage.Query.{Select, order_columns}
use l0_wb_tech_school.Storage.Joins.{Tables, Joined, selection, columns_of}
use l0_wb_tech_school.Storage.Read.{
  RowAnswer, row, no_rows, row_failed, RowsAnswer, rows, found, get_last_orders_base,
  get_last_orders,
}
use l0_wb_tech_school.Storage.Saved.{item_row, saved_tables, as_stored, read_back, values_of}
use l0_wb_tech_school.Storage.RoundTrip.{values_or_none, three_rows}
use l0_wb_tech_school.Storage.LastOrders.{bare, HasItems, get_last_orders-found}
use l0_wb_tech_school.Tests.Json.{whole_second}
use l0_wb_tech_school.Tests.Validating.{an_item, an_order}

-- A database that answers a query with its first row.
abbrev of_columns : Option (List Value) → RowAnswer
of_columns none = row_failed
of_columns (some values) = row values

abbrev first_of : List Joined → List (String × String) → RowAnswer
first_of [] columns = no_rows
first_of (j ∷ js) columns = of_columns (columns_of j columns)

abbrev no_others : Tables
no_others table = []

abbrev small_tables : Tables
small_tables = saved_tables (as_stored whole_second an_order) (pos 8) (pos 9) no_others

first_row : Select → RowAnswer
first_row q = first_of (selection small_tables q) q.columns

abbrev item_rows : Text → RowsAnswer
item_rows order_uid = rows (map (λ i. values_of (item_row order_uid i)) (an_item ∷ [])) false

abbrev the_row : Option (List Value)
the_row =
    columns_of
      (("i", item_row an_order.order_uid an_item)
        ∷ three_rows (as_stored whole_second an_order) (pos 8) (pos 9))
      order_columns

abbrev last_order : Order
last_order = read_back (as_stored whole_second an_order) (pos 8) (pos 9) []

abbrev one_row : RowsAnswer
one_row = rows (values_or_none the_row ∷ []) false

abbrev no_items : Text → RowsAnswer
no_items order_uid = rows [] false

get_last_orders-found_example :
    (orders : List Order) × (get_last_orders_base one_row ≡ found orders)
    × (map bare (last_order ∷ []) ≡ map bare orders)
    × All (HasItems no_items) (last_order ∷ [])
unfolding get_last_orders
get_last_orders-found_example = get_last_orders-found one_row no_items refl
