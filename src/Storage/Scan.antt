-- ===== src/Storage/Scan.antt =====
-- The destinations that the rows of the queries of
-- order_service/internal/ports/adapters/storage/postgres.go are scanned into.
use l0_wb_tech_school.Base.{Option, none, some, List, [], ◌∷◌}
use l0_wb_tech_school.Base.Int.{ℤ, pos}
use l0_wb_tech_school.Base.Text.{Text}
use l0_wb_tech_school.Models.{Time, Delivery, Payment, OrderItem, Order}
use l0_wb_tech_school.Storage.{Value, text, int, time}

-- The zero values of Go.
abbrev pub zero_delivery : Delivery
zero_delivery = record {
  order_id = [];
  name = [];
  phone = [];
  zip = [];
  city = [];
  address = [];
  region = [];
  email = [];
}

abbrev pub zero_payment : Payment
zero_payment = record {
  order_id = [];
  transaction = [];
  request_id = [];
  currency = [];
  provider = [];
  amount = pos 0;
  payment_dt = pos 0;
  bank = [];
  delivery_cost = pos 0;
  goods_total = pos 0;
  custom_fee = pos 0;
}

abbrev pub zero_order : Order
zero_order = record {
  order_uid = [];
  track_number = [];
  entry = [];
  locale = [];
  internal_signature = [];
  customer_id = [];
  delivery_service = [];
  shard_key = [];
  sm_id = pos 0;
  date_created = pos 0;
  oof_shard = [];
  created_at = pos 0;
  updated_at = pos 0;
  delivery = zero_delivery;
  payment = zero_payment;
  items = [];
}

abbrev pub zero_item : OrderItem
zero_item = record {
  order_id = [];
  chrt_id = pos 0;
  track_number = [];
  price = pos 0;
  rid = [];
  name = [];
  sale = pos 0;
  size = [];
  total_price = pos 0;
  nm_id = pos 0;
  brand = [];
  status = pos 0;
}

-- A destination of `Scan`: what it does with a value of its type, and no other.
module _ {R : Type 0} where
  abbrev pub into_text : (Text → R → R) → Value → R → Option R
  into_text set (text x) r = some (set x r)
  into_text set (int x) r = none
  into_text set (time x) r = none

  abbrev pub into_int : (ℤ → R → R) → Value → R → Option R
  into_int set (text x) r = none
  into_int set (int x) r = some (set x r)
  into_int set (time x) r = none

  abbrev pub into_time : (Time → R → R) → Value → R → Option R
  into_time set (text x) r = none
  into_time set (int x) r = none
  into_time set (time x) r = some (set x r)

  abbrev pub scanned : Option R → (R → Option R) → Option R
  scanned none next = none
  scanned (some r) next = next r

  -- `Scan`: one destination for each value.
  unfoldable pub scan : List (Value → R → Option R) → List Value → R → Option R
  scan [] [] r = some r
  scan [] (v ∷ vs) r = none
  scan (d ∷ ds) [] r = none
  scan (d ∷ ds) (v ∷ vs) r = scanned (d v r) (scan ds vs)

abbrev pub order_destinations : List (Value → Order → Option Order)
order_destinations =
    into_text (λ x o. record o { order_uid = x })
    ∷ into_text (λ x o. record o { track_number = x })
    ∷ into_text (λ x o. record o { entry = x })
    ∷ into_text (λ x o. record o { locale = x })
    ∷ into_text (λ x o. record o { internal_signature = x })
    ∷ into_text (λ x o. record o { customer_id = x })
    ∷ into_text (λ x o. record o { delivery_service = x })
    ∷ into_text (λ x o. record o { shard_key = x })
    ∷ into_int (λ x o. record o { sm_id = x })
    ∷ into_time (λ x o. record o { date_created = x })
    ∷ into_text (λ x o. record o { oof_shard = x })
    ∷ into_time (λ x o. record o { created_at = x })
    ∷ into_time (λ x o. record o { updated_at = x })
    ∷ into_text (λ x o. record o { delivery = record (o.delivery) { order_id = x } })
    ∷ into_text (λ x o. record o { delivery = record (o.delivery) { name = x } })
    ∷ into_text (λ x o. record o { delivery = record (o.delivery) { phone = x } })
    ∷ into_text (λ x o. record o { delivery = record (o.delivery) { zip = x } })
    ∷ into_text (λ x o. record o { delivery = record (o.delivery) { city = x } })
    ∷ into_text (λ x o. record o { delivery = record (o.delivery) { address = x } })
    ∷ into_text (λ x o. record o { delivery = record (o.delivery) { region = x } })
    ∷ into_text (λ x o. record o { delivery = record (o.delivery) { email = x } })
    ∷ into_text (λ x o. record o { payment = record (o.payment) { order_id = x } })
    ∷ into_text (λ x o. record o { payment = record (o.payment) { transaction = x } })
    ∷ into_text (λ x o. record o { payment = record (o.payment) { request_id = x } })
    ∷ into_text (λ x o. record o { payment = record (o.payment) { currency = x } })
    ∷ into_text (λ x o. record o { payment = record (o.payment) { provider = x } })
    ∷ into_int (λ x o. record o { payment = record (o.payment) { amount = x } })
    ∷ into_int (λ x o. record o { payment = record (o.payment) { payment_dt = x } })
    ∷ into_text (λ x o. record o { payment = record (o.payment) { bank = x } })
    ∷ into_int (λ x o. record o { payment = record (o.payment) { delivery_cost = x } })
    ∷ into_int (λ x o. record o { payment = record (o.payment) { goods_total = x } })
    ∷ into_int (λ x o. record o { payment = record (o.payment) { custom_fee = x } })
    ∷ []

abbrev pub item_destinations : List (Value → OrderItem → Option OrderItem)
item_destinations =
    into_text (λ x i. record i { order_id = x })
    ∷ into_int (λ x i. record i { chrt_id = x })
    ∷ into_text (λ x i. record i { track_number = x })
    ∷ into_int (λ x i. record i { price = x })
    ∷ into_text (λ x i. record i { rid = x })
    ∷ into_text (λ x i. record i { name = x })
    ∷ into_int (λ x i. record i { sale = x })
    ∷ into_text (λ x i. record i { size = x })
    ∷ into_int (λ x i. record i { total_price = x })
    ∷ into_int (λ x i. record i { nm_id = x })
    ∷ into_text (λ x i. record i { brand = x })
    ∷ into_int (λ x i. record i { status = x })
    ∷ []
