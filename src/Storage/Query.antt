-- ===== src/Storage/Query.antt =====
-- The columns that the queries of order_service/internal/ports/adapters/storage/postgres.go select, and
-- the tables and joins of the query for an order. A column of the query for orders stands behind the
-- alias of its table.
use Prim.Native.String.{String}
use l0_wb_tech_school.Base.{List, [], ◌∷◌}
use l0_wb_tech_school.Base.Text.{Text}

abbrev pub order_columns : List (String × String)
order_columns =
    ("o", "order_uid")
    ∷ ("o", "track_number")
    ∷ ("o", "entry")
    ∷ ("o", "locale")
    ∷ ("o", "internal_signature")
    ∷ ("o", "customer_id")
    ∷ ("o", "delivery_service")
    ∷ ("o", "shardkey")
    ∷ ("o", "sm_id")
    ∷ ("o", "date_created")
    ∷ ("o", "oof_shard")
    ∷ ("o", "created_at")
    ∷ ("o", "updated_at")
    ∷ ("d", "order_id")
    ∷ ("d", "name")
    ∷ ("d", "phone")
    ∷ ("d", "zip")
    ∷ ("d", "city")
    ∷ ("d", "address")
    ∷ ("d", "region")
    ∷ ("d", "email")
    ∷ ("p", "order_id")
    ∷ ("p", "transaction")
    ∷ ("p", "request_id")
    ∷ ("p", "currency")
    ∷ ("p", "provider")
    ∷ ("p", "amount")
    ∷ ("p", "payment_dt")
    ∷ ("p", "bank")
    ∷ ("p", "delivery_cost")
    ∷ ("p", "goods_total")
    ∷ ("p", "custom_fee")
    ∷ []

abbrev pub item_columns : List String
item_columns =
    "order_id" ∷ "chrt_id" ∷ "track_number" ∷ "price" ∷ "rid" ∷ "name" ∷ "sale" ∷ "size"
    ∷ "total_price" ∷ "nm_id" ∷ "brand" ∷ "status" ∷ []

-- `Join("<table> <alias> ON <alias>.<column> = <other>")`
pub record Join : Type 0 where
  pub table : String
  pub alias : String
  pub column : String
  pub other : String × String

-- A SELECT with inner joins, of the rows whose `column`, one of the first table, has the argument.
pub record Select : Type 0 where
  pub columns : List (String × String)
  pub table : String
  pub alias : String
  pub joins : List Join
  pub column : String
  pub argument : Text

abbrev pub join_deliveries : Join
join_deliveries = record {
  table = "order_service.deliveries";
  alias = "d";
  column = "order_id";
  other = ("o", "order_uid");
}

abbrev pub join_payments : Join
join_payments = record {
  table = "order_service.payments";
  alias = "p";
  column = "order_id";
  other = ("o", "order_uid");
}

abbrev pub join_items : Join
join_items = record {
  table = "order_service.order_items";
  alias = "i";
  column = "order_id";
  other = ("o", "order_uid");
}

abbrev pub order_query : Text → Select
order_query order_id = record {
  columns = order_columns;
  table = "order_service.orders";
  alias = "o";
  joins = join_deliveries ∷ join_payments ∷ join_items ∷ [];
  column = "order_uid";
  argument = order_id;
}
