-- ===== src/Models.antt =====
-- order_service/internal/models/entities.go. A `time.Time` is the count of nanoseconds from the zero
-- time, an `int` or `int64` an integer.
use l0_wb_tech_school.Base.{List}
use l0_wb_tech_school.Base.Int.{ℤ}
use l0_wb_tech_school.Base.Text.{Text}

abbrev pub Time : Type 0
Time = ℤ

pub record Delivery : Type 0 where
  pub order_id : Text
  pub name : Text
  pub phone : Text
  pub zip : Text
  pub city : Text
  pub address : Text
  pub region : Text
  pub email : Text

pub record Payment : Type 0 where
  pub order_id : Text
  pub transaction : Text
  pub request_id : Text
  pub currency : Text
  pub provider : Text
  pub amount : ℤ
  pub payment_dt : ℤ
  pub bank : Text
  pub delivery_cost : ℤ
  pub goods_total : ℤ
  pub custom_fee : ℤ

pub record OrderItem : Type 0 where
  pub order_id : Text
  pub chrt_id : ℤ
  pub track_number : Text
  pub price : ℤ
  pub rid : Text
  pub name : Text
  pub sale : ℤ
  pub size : Text
  pub total_price : ℤ
  pub nm_id : ℤ
  pub brand : Text
  pub status : ℤ

pub record Order : Type 0 where
  pub order_uid : Text
  pub track_number : Text
  pub entry : Text
  pub locale : Text
  pub internal_signature : Text
  pub customer_id : Text
  pub delivery_service : Text
  pub shard_key : Text
  pub sm_id : ℤ
  pub date_created : Time
  pub oof_shard : Text
  pub created_at : Time
  pub updated_at : Time
  pub delivery : Delivery
  pub payment : Payment
  pub items : List OrderItem
