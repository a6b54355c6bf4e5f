-- ===== src/Validators/Rules.antt =====
-- The rules of docs/validation.md (and of the validator where it asks for more). Its section on
-- security says of all texts that they are trimmed before they are tested.
use l0_wb_tech_school.Base.{◌≡◌, ◌≢◌, Bool, true, [], All}
use l0_wb_tech_school.Base.Int.{pos, ◌≤ℤ◌}
use l0_wb_tech_school.Base.Text.{Text, AllSpace}
use l0_wb_tech_school.Models.{Time, Delivery, Payment, OrderItem, Order}

-- "не пустой (после trim)"
abbrev pub NotBlank : Text → Type 0
NotBlank s = ¬ AllSpace s

pub record IsValidMain (now : Time) (o : Order) : Type 0 where
  pub order_uid : NotBlank o.order_uid
  pub track_number : NotBlank o.track_number
  pub entry : NotBlank o.entry
  pub locale : NotBlank o.locale
  pub customer_id : NotBlank o.customer_id
  pub delivery_service : NotBlank o.delivery_service
  pub shard_key : NotBlank o.shard_key
  pub sm_id : pos 0 ≤ℤ o.sm_id
  pub date_created : o.date_created ≢ pos 0
  pub not_in_future : o.date_created ≤ℤ now
  pub oof_shard : NotBlank o.oof_shard

pub record IsValidDelivery (parse_address : Text → Bool) (d : Delivery) : Type 0 where
  pub name : NotBlank d.name
  pub phone : NotBlank d.phone
  pub zip : NotBlank d.zip
  pub city : NotBlank d.city
  pub address : NotBlank d.address
  pub region : NotBlank d.region
  pub email : NotBlank d.email
  pub email_format : parse_address d.email ≡ true

pub record IsValidPayment (p : Payment) : Type 0 where
  pub transaction : NotBlank p.transaction
  pub currency : NotBlank p.currency
  pub provider : NotBlank p.provider
  pub amount : pos 0 ≤ℤ p.amount
  pub payment_dt : pos 1 ≤ℤ p.payment_dt
  pub bank : NotBlank p.bank
  pub delivery_cost : pos 0 ≤ℤ p.delivery_cost
  pub goods_total : pos 0 ≤ℤ p.goods_total
  pub custom_fee : pos 0 ≤ℤ p.custom_fee

pub record IsValidItem (i : OrderItem) : Type 0 where
  pub chrt_id : pos 1 ≤ℤ i.chrt_id
  pub track_number : NotBlank i.track_number
  pub price : pos 0 ≤ℤ i.price
  pub rid : NotBlank i.rid
  pub name : NotBlank i.name
  pub sale_from : pos 0 ≤ℤ i.sale
  pub sale_to : i.sale ≤ℤ pos 100
  pub size : NotBlank i.size
  pub total_price : pos 0 ≤ℤ i.total_price
  pub nm_id : pos 1 ≤ℤ i.nm_id
  pub brand : NotBlank i.brand
  pub status : pos 0 ≤ℤ i.status

pub record IsValidOrder (parse_address : Text → Bool) (now : Time) (o : Order) : Type 0 where
  pub main : IsValidMain now o
  pub delivery : IsValidDelivery parse_address o.delivery
  pub payment : IsValidPayment o.payment
  pub some_item : o.items ≢ []
  pub items : All IsValidItem o.items
