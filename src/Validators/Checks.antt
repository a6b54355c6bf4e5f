-- ===== src/Validators/Checks.antt =====
-- The tests of validateOrderMain, validateDelivery, validatePayment and validateItem against the rules.
use l0_wb_tech_school.Base.{◌≡◌, ◌≢◌, Bool, none, []}
use l0_wb_tech_school.Base.Int.{pos}
use l0_wb_tech_school.Base.Text.{Text}
use l0_wb_tech_school.Models.{Time, Delivery, Payment, OrderItem, Order}
use l0_wb_tech_school.Validators.{
  main_checks, delivery_checks, payment_checks, item_checks, validate_order_main, validate_delivery,
  validate_payment, validate_item,
}
use l0_wb_tech_school.Validators.Rules.{
  NotBlank, IsValidMain, IsValidDelivery, IsValidPayment, IsValidItem,
}
use l0_wb_tech_school.Validators.Single.{
  first_error-eq-none, not_blank, not_nil, not_below, positive, not_zero, accepted, in_range, ◌&◌,
}

-- The test of the id asks for less than its rule.
pub main_of_Passes :
    (now : Time) (o : Order) (id : Text)
    → NotBlank id
    → validate_order_main now o ≡ none
    → (o.order_uid ≢ []) × IsValidMain now (record o { order_uid = id })
unfolding validate_order_main
main_of_Passes now o id named e =
    let (p0, (p1, (p2, (p3, (p4, (p5, (p6, (p7, (p8, (p9, (p10, u))))))))))) =
      (first_error-eq-none (main_checks now o)).0 e in
    let valid : IsValidMain now (record o { order_uid = id }) = record {
      order_uid = named;
      track_number = (not_blank _).0 p1;
      entry = (not_blank _).0 p2;
      locale = (not_blank _).0 p3;
      customer_id = (not_blank _).0 p4;
      delivery_service = (not_blank _).0 p5;
      shard_key = (not_blank _).0 p6;
      sm_id = (not_below _ (pos 0)).0 p7;
      date_created = (not_zero _).0 p8;
      not_in_future = (not_below now o.date_created).0 p9;
      oof_shard = (not_blank _).0 p10;
    } in
    ((not_nil _).0 p0, valid)

pub main_of_IsValid :
    (now : Time) (o : Order) (id : Text)
    → o.order_uid ≢ []
    → IsValidMain now (record o { order_uid = id })
    → validate_order_main now o ≡ none
unfolding validate_order_main
main_of_IsValid now o id some_uid v = (first_error-eq-none (main_checks now o)).1 (
    (not_nil _).1 some_uid
    & (not_blank _).1 v.track_number
    & (not_blank _).1 v.entry
    & (not_blank _).1 v.locale
    & (not_blank _).1 v.customer_id
    & (not_blank _).1 v.delivery_service
    & (not_blank _).1 v.shard_key
    & (not_below _ (pos 0)).1 v.sm_id
    & (not_zero _).1 v.date_created
    & (not_below now o.date_created).1 v.not_in_future
    & (not_blank _).1 v.oof_shard
    & tt)

pub delivery_of_Passes :
    (parse_address : Text → Bool) (d : Delivery)
    → validate_delivery parse_address d ≡ none
    → IsValidDelivery parse_address d
unfolding validate_delivery
delivery_of_Passes parse_address d e =
    let (p0, (p1, (p2, (p3, (p4, (p5, (p6, (p7, u)))))))) =
      (first_error-eq-none (delivery_checks parse_address d)).0 e in
    record {
      name = (not_blank _).0 p0;
      phone = (not_blank _).0 p1;
      zip = (not_blank _).0 p2;
      city = (not_blank _).0 p3;
      address = (not_blank _).0 p4;
      region = (not_blank _).0 p5;
      email = (not_blank _).0 p6;
      email_format = (accepted _).0 p7;
    }

pub delivery_of_IsValid :
    (parse_address : Text → Bool) (d : Delivery)
    → IsValidDelivery parse_address d
    → validate_delivery parse_address d ≡ none
unfolding validate_delivery
delivery_of_IsValid parse_address d v = (first_error-eq-none (delivery_checks parse_address d)).1 (
    (not_blank _).1 v.name
    & (not_blank _).1 v.phone
    & (not_blank _).1 v.zip
    & (not_blank _).1 v.city
    & (not_blank _).1 v.address
    & (not_blank _).1 v.region
    & (not_blank _).1 v.email
    & (accepted _).1 v.email_format
    & tt)

pub payment_of_Passes : (p : Payment) → validate_payment p ≡ none → IsValidPayment p
unfolding validate_payment
payment_of_Passes p e =
    let (p0, (p1, (p2, (p3, (p4, (p5, (p6, (p7, (p8, u))))))))) =
      (first_error-eq-none (payment_checks p)).0 e in
    record {
      transaction = (not_blank _).0 p0;
      currency = (not_blank _).0 p1;
      provider = (not_blank _).0 p2;
      amount = (not_below _ (pos 0)).0 p3;
      payment_dt = (positive _).0 p4;
      bank = (not_blank _).0 p5;
      delivery_cost = (not_below _ (pos 0)).0 p6;
      goods_total = (not_below _ (pos 0)).0 p7;
      custom_fee = (not_below _ (pos 0)).0 p8;
    }

pub payment_of_IsValid : (p : Payment) → IsValidPayment p → validate_payment p ≡ none
unfolding validate_payment
payment_of_IsValid p v = (first_error-eq-none (payment_checks p)).1 (
    (not_blank _).1 v.transaction
    & (not_blank _).1 v.currency
    & (not_blank _).1 v.provider
    & (not_below _ (pos 0)).1 v.amount
    & (positive _).1 v.payment_dt
    & (not_blank _).1 v.bank
    & (not_below _ (pos 0)).1 v.delivery_cost
    & (not_below _ (pos 0)).1 v.goods_total
    & (not_below _ (pos 0)).1 v.custom_fee
    & tt)

pub item_of_Passes : (i : OrderItem) → validate_item i ≡ none → IsValidItem i
unfolding validate_item
item_of_Passes i e =
    let (p0, (p1, (p2, (p3, (p4, (p5, (p6, (p7, (p8, (p9, (p10, u))))))))))) =
      (first_error-eq-none (item_checks i)).0 e in
    record {
      chrt_id = (positive _).0 p0;
      track_number = (not_blank _).0 p1;
      price = (not_below _ (pos 0)).0 p2;
      rid = (not_blank _).0 p3;
      name = (not_blank _).0 p4;
      sale_from = ((in_range _).0 p5).0;
      sale_to = ((in_range _).0 p5).1;
      size = (not_blank _).0 p6;
      total_price = (not_below _ (pos 0)).0 p7;
      nm_id = (positive _).0 p8;
      brand = (not_blank _).0 p9;
      status = (not_below _ (pos 0)).0 p10;
    }

pub item_of_IsValid : (i : OrderItem) → IsValidItem i → validate_item i ≡ none
unfolding validate_item
item_of_IsValid i v = (first_error-eq-none (item_checks i)).1 (
    (positive _).1 v.chrt_id
    & (not_blank _).1 v.track_number
    & (not_below _ (pos 0)).1 v.price
    & (not_blank _).1 v.rid
    & (not_blank _).1 v.name
    & (in_range _).1 (v.sale_from, v.sale_to)
    & (not_blank _).1 v.size
    & (not_below _ (pos 0)).1 v.total_price
    & (positive _).1 v.nm_id
    & (not_blank _).1 v.brand
    & (not_below _ (pos 0)).1 v.status
    & tt)
