-- ===== src/Validators.antt =====
-- order_service/internal/validators/validate_order.go. `parse_address` stands for
-- `net/mail.ParseAddress` (whether it accepts the text), and `now` for `time.Now()`.
pub mod Rules
pub mod Single
pub mod Checks
pub mod Whole
use Prim.Native.String.{String}
use l0_wb_tech_school.Base.{
  ℕ, suc, Bool, false, true, not, ◌||◌, Option, none, some, List, [], ◌∷◌, ◌==◌, if◌then◌else◌,
}
use l0_wb_tech_school.Base
use l0_wb_tech_school.Base.Int.{ℤ, pos, ltb_ℤ, leb_ℤ, eq_ℤ}
use l0_wb_tech_school.Base.Text.{Text, is_blank, text_beq}
use l0_wb_tech_school.Models.{Time, Delivery, Payment, OrderItem, Order}

-- The message of one check, by the field it names.
pub data FieldError : Type 0 where
  is_required must_be_non_negative must_be_positive has_invalid_format in_the_future
        not_between_0_and_100 :
      String → FieldError

-- The `fmt.Errorf` wrappers around it.
pub data ValidationError : Type 0 where
  order_error delivery_error payment_error : FieldError → ValidationError
  no_items : ValidationError
  item_error : ℕ → FieldError → ValidationError

-- `if test { return err }`, one after another; `none` is `return nil`.
unfoldable pub first_error : List (Bool × FieldError) → Option FieldError
first_error [] = none
first_error ((failed, e) ∷ checks) = if failed then some e else first_error checks

abbrev pub main_checks : Time → Order → List (Bool × FieldError)
main_checks now order =
    (text_beq order.order_uid [], is_required "order_uid")
    ∷ (is_blank order.track_number, is_required "track_number")
    ∷ (is_blank order.entry, is_required "entry")
    ∷ (is_blank order.locale, is_required "locale")
    ∷ (is_blank order.customer_id, is_required "customer_id")
    ∷ (is_blank order.delivery_service, is_required "delivery_service")
    ∷ (is_blank order.shard_key, is_required "shardkey")
    ∷ (ltb_ℤ order.sm_id (pos 0), must_be_non_negative "sm_id")
    ∷ (eq_ℤ order.date_created (pos 0), is_required "date_created")
    ∷ (ltb_ℤ now order.date_created, in_the_future "date_created")
    ∷ (is_blank order.oof_shard, is_required "oof_shard")
    ∷ []

unfoldable pub validate_order_main : Time → Order → Option FieldError
validate_order_main now order = first_error (main_checks now order)

abbrev pub delivery_checks : (Text → Bool) → Delivery → List (Bool × FieldError)
delivery_checks parse_address delivery =
    (is_blank delivery.name, is_required "name")
    ∷ (is_blank delivery.phone, is_required "phone")
    ∷ (is_blank delivery.zip, is_required "zip")
    ∷ (is_blank delivery.city, is_required "city")
    ∷ (is_blank delivery.address, is_required "address")
    ∷ (is_blank delivery.region, is_required "region")
    ∷ (is_blank delivery.email, is_required "email")
    ∷ (not (parse_address delivery.email), has_invalid_format "email")
    ∷ []

unfoldable pub validate_delivery : (Text → Bool) → Delivery → Option FieldError
validate_delivery parse_address delivery = first_error (delivery_checks parse_address delivery)

abbrev pub payment_checks : Payment → List (Bool × FieldError)
payment_checks payment =
    (is_blank payment.transaction, is_required "transaction")
    ∷ (is_blank payment.currency, is_required "currency")
    ∷ (is_blank payment.provider, is_required "provider")
    ∷ (ltb_ℤ payment.amount (pos 0), must_be_non_negative "amount")
    ∷ (leb_ℤ payment.payment_dt (pos 0), must_be_positive "payment_dt")
    ∷ (is_blank payment.bank, is_required "bank")
    ∷ (ltb_ℤ payment.delivery_cost (pos 0), must_be_non_negative "delivery_cost")
    ∷ (ltb_ℤ payment.goods_total (pos 0), must_be_non_negative "goods_total")
    ∷ (ltb_ℤ payment.custom_fee (pos 0), must_be_non_negative "custom_fee")
    ∷ []

unfoldable pub validate_payment : Payment → Option FieldError
validate_payment payment = first_error (payment_checks payment)

abbrev pub item_checks : OrderItem → List (Bool × FieldError)
item_checks item =
    (leb_ℤ item.chrt_id (pos 0), must_be_positive "chrt_id")
    ∷ (is_blank item.track_number, is_required "track_number")
    ∷ (ltb_ℤ item.price (pos 0), must_be_non_negative "price")
    ∷ (is_blank item.rid, is_required "rid")
    ∷ (is_blank item.name, is_required "name")
    ∷ (ltb_ℤ item.sale (pos 0) || ltb_ℤ (pos 100) item.sale, not_between_0_and_100 "sale")
    ∷ (is_blank item.size, is_required "size")
    ∷ (ltb_ℤ item.total_price (pos 0), must_be_non_negative "total_price")
    ∷ (leb_ℤ item.nm_id (pos 0), must_be_positive "nm_id")
    ∷ (is_blank item.brand, is_required "brand")
    ∷ (ltb_ℤ item.status (pos 0), must_be_non_negative "status")
    ∷ []

unfoldable pub validate_item : OrderItem → Option FieldError
validate_item item = first_error (item_checks item)

-- `if err := check(); err != nil { return wrap(err) }` before the rest.
abbrev pub wrapped :
    (FieldError → ValidationError)
    → Option FieldError
    → Option ValidationError
    → Option ValidationError
wrapped wrap none rest = rest
wrapped wrap (some e) rest = some (wrap e)

-- The loop of `validateItems` from index `i` on.
unfoldable pub items_loop : ℕ → List OrderItem → Option ValidationError
items_loop i [] = none
items_loop i (item ∷ items) = wrapped (item_error i) (validate_item item) (items_loop (suc i) items)

unfoldable pub validate_items : List OrderItem → Option ValidationError
unfolding items_loop
validate_items [] = some no_items
validate_items (item ∷ items) = items_loop 0 (item ∷ items)

unfoldable pub validate_order : (Text → Bool) → Time → Order → Option ValidationError
validate_order parse_address now order = wrapped order_error (validate_order_main now order) (
    wrapped delivery_error (validate_delivery parse_address order.delivery)
      (wrapped payment_error (validate_payment order.payment) (validate_items order.items)))
