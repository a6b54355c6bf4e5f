-- ===== src/Tests/Validating.antt =====
-- The validator of order_service/internal/validators/validate_order.go on the orders of the docs.
use l0_wb_tech_school.Base.{
  ◌≢◌, ℕ, ◌+◌, ◌≡◌, ◌↔◌, refl, Bool, true, none, some, [], ◌∷◌, get_elem?, take, All,
}
use l0_wb_tech_school.Base.Int.{pos}
use l0_wb_tech_school.Base.Text.{Text, lit, is_blank}
use l0_wb_tech_school.Models.{Delivery, Payment, OrderItem, Order}
use l0_wb_tech_school.Validators.{
  FieldError, must_be_positive, item_error, first_error, validate_order_main, validate_delivery,
  validate_payment, validate_items, validate_item, items_loop, validate_order,
}
use l0_wb_tech_school.Validators.Rules.{IsValidItem, IsValidOrder}
use l0_wb_tech_school.Validators.Whole.{validate_order-eq-none, items_loop-eq-some}

abbrev pub an_item : OrderItem
an_item = record {
  order_id = [];
  chrt_id = pos 9934930;
  track_number = lit "TRACK";
  price = pos 453;
  rid = lit "rid";
  name = lit "Mascaras";
  sale = pos 30;
  size = lit "0";
  total_price = pos 317;
  nm_id = pos 2389212;
  brand = lit "Vivienne";
  status = pos 202;
}

abbrev no_chrt : OrderItem
no_chrt = record an_item { chrt_id = pos 0 }

abbrev pub a_delivery : Delivery
a_delivery = record {
  order_id = [];
  name = lit "Test";
  phone = lit "+972";
  zip = lit "26";
  city = lit "Kiryat";
  address = lit "Ploshad";
  region = lit "Kraiot";
  email = lit "t@g.com";
}

abbrev pub a_payment : Payment
a_payment = record {
  order_id = [];
  transaction = lit "b563";
  request_id = [];
  currency = lit "USD";
  provider = lit "wbpay";
  amount = pos 1817;
  payment_dt = pos 1637907727;
  bank = lit "alpha";
  delivery_cost = pos 1500;
  goods_total = pos 317;
  custom_fee = pos 0;
}

abbrev pub an_order : Order
an_order = record {
  order_uid = lit "b563";
  track_number = lit "TRACK";
  entry = lit "WBIL";
  locale = lit "en";
  internal_signature = [];
  customer_id = lit "test";
  delivery_service = lit "meest";
  shard_key = lit "9";
  sm_id = pos 99;
  date_created = pos 5;
  oof_shard = lit "1";
  created_at = pos 0;
  updated_at = pos 0;
  delivery = a_delivery;
  payment = a_payment;
  items = an_item ∷ [];
}

unfoldable pub any_address : Text → Bool
any_address s = true

validate_order-eq-none_example : (validate_order any_address (pos 7) an_order ≡ none) ↔ (
    (an_order.order_uid ≢ [])
    × (id : Text) × IsValidOrder any_address (pos 7) (record an_order { order_uid = id }))
validate_order-eq-none_example = validate_order-eq-none any_address (pos 7) an_order

items_loop-eq-some_example :
    (j : ℕ) × (item : OrderItem) × (f : FieldError) × (item_error 1 (must_be_positive "chrt_id")
      ≡ item_error (0 + j) f)
    × (get_elem? (an_item ∷ no_chrt ∷ []) j ≡ some item)
    × (validate_item item ≡ some f)
    × All IsValidItem (take j (an_item ∷ no_chrt ∷ []))
unfolding items_loop validate_item first_error is_blank
items_loop-eq-some_example = items_loop-eq-some 0 (an_item ∷ no_chrt ∷ []) refl

validate_order_test : validate_order any_address (pos 7) an_order ≡ none
unfolding validate_order any_address validate_order_main first_error is_blank validate_delivery
    validate_payment validate_items validate_item
validate_order_test = refl
