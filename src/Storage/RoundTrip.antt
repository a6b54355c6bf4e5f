-- ===== src/Storage/RoundTrip.antt =====
-- What `SaveOrder` inserts against what `GetOrderByID` selects and scans, in
-- order_service/internal/ports/adapters/storage/postgres.go.

use l0_wb_tech_school.Base.{Option, none, some, List, [], ◌∷◌, string_eq}
use l0_wb_tech_school.Base.Text.{Text}
use l0_wb_tech_school.Models.{Time, OrderItem, Order}
use l0_wb_tech_school.Storage.{Value, payments_insert, deliveries_insert}
use l0_wb_tech_school.Storage.Read.{Result, found, failed, order_not_found}
use l0_wb_tech_school.Storage.Joins.{Joined, inserted}
use l0_wb_tech_school.Storage.Saved.{order_row}

abbrev pub values_or_none : Option (List Value) → List Value
values_or_none none = []
values_or_none (some values) = values

abbrev base_saved : List OrderItem → Order → Result Order
base_saved [] back = failed order_not_found
base_saved (item ∷ items) back = found back

module _ (o : Order) (created updated : Time) where
  abbrev pub three_rows : Joined
  three_rows =
      ("p", inserted (payments_insert o.order_uid o.payment))
      ∷ ("d", inserted (deliveries_insert o.order_uid o.delivery))
      ∷ ("o", order_row o created updated)
      ∷ []
