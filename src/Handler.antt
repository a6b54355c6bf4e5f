-- ===== src/Handler.antt =====
-- `OrderIDGet` and `NewError` of order_service/internal/handlers/httphandlers/handler.go. The response
-- types are those of the generated package order_service/internal/api.
pub mod Stored
use Prim.Native.String.{String}
use l0_wb_tech_school.Base.{
  ℕ, Bool, Option, some, true, false, List, [], ◌∷◌, map, if◌then◌else◌, Outcome, ok, err, panic,
  Cmd,
}
use l0_wb_tech_school.Base.Int.{ℤ}
use l0_wb_tech_school.Base.Text.{Text}
use l0_wb_tech_school.Service.{
  OrderCache, OrderStorage, ServiceError, error_checking_cache, error_caching_orders, storage_error,
  getting_last, getting_last_to_cache, Service, get_order,
}
use l0_wb_tech_school.Models.{Time, Delivery, Payment, OrderItem, Order}

-- `api.OptString`
pub record OptString : Type 0 where
  pub value : Text
  pub is_set : Bool

pub record ApiDelivery : Type 0 where
  pub name : Text
  pub phone : Text
  pub zip : Text
  pub city : Text
  pub address : Text
  pub region : Text
  pub email : Text

pub record ApiPayment : Type 0 where
  pub transaction : Text
  pub request_id : OptString
  pub currency : Text
  pub provider : Text
  pub amount : ℤ
  pub payment_dt : ℤ
  pub bank : Text
  pub delivery_cost : ℤ
  pub goods_total : ℤ
  pub custom_fee : ℤ

pub record ApiOrderItem : Type 0 where
  pub chrt_id : ℤ
  pub track_number : Text
  pub price : ℤ
  pub rid : Text
  pub name : Text
  pub sale : ℤ
  pub size : Text
  pub total_price : ℤ
  pub nm_id : ℤ
  pub brand : Text
  pub status : ℤ

-- `none` is a nil slice of items.
pub record OrderResponse : Type 0 where
  pub order_uid : Text
  pub track_number : Text
  pub entry : Text
  pub delivery : ApiDelivery
  pub payment : ApiPayment
  pub items : Option (List ApiOrderItem)
  pub locale : Text
  pub internal_signature : OptString
  pub customer_id : Text
  pub delivery_service : Text
  pub shardkey : Text
  pub sm_id : ℤ
  pub date_created : Time
  pub oof_shard : Text

-- The conversions to `int64` keep an `int` of 64 bits.
abbrev pub item_response : OrderItem → ApiOrderItem
item_response item = record {
  chrt_id = item.chrt_id;
  track_number = item.track_number;
  price = item.price;
  rid = item.rid;
  name = item.name;
  sale = item.sale;
  size = item.size;
  total_price = item.total_price;
  nm_id = item.nm_id;
  brand = item.brand;
  status = item.status;
}

abbrev pub delivery_response : Delivery → ApiDelivery
delivery_response d = record {
  name = d.name;
  phone = d.phone;
  zip = d.zip;
  city = d.city;
  address = d.address;
  region = d.region;
  email = d.email;
}

abbrev pub payment_response : Payment → ApiPayment
payment_response p = record {
  transaction = p.transaction;
  request_id = record { value = p.request_id; is_set = true };
  currency = p.currency;
  provider = p.provider;
  amount = p.amount;
  payment_dt = p.payment_dt;
  bank = p.bank;
  delivery_cost = p.delivery_cost;
  goods_total = p.goods_total;
  custom_fee = p.custom_fee;
}

unfoldable pub order_response : Order → OrderResponse
order_response result = record {
  order_uid = result.order_uid;
  track_number = result.track_number;
  entry = result.entry;
  delivery = delivery_response result.delivery;
  payment = payment_response result.payment;
  items = some (map item_response result.items);
  locale = result.locale;
  internal_signature = record { value = result.internal_signature; is_set = true };
  customer_id = result.customer_id;
  delivery_service = result.delivery_service;
  shardkey = result.shard_key;
  sm_id = result.sm_id;
  date_created = result.date_created;
  oof_shard = result.oof_shard;
}

-- `api.OrderIDGetRes`, with the error that the message tells.
pub data OrderIdGetRes (E : Type 0) : Type 0 where
  responded : OrderResponse → OrderIdGetRes E
  not_found error_response : E → OrderIdGetRes E

-- `api.ErrorResponseStatusCode`
pub record ErrorResponseStatusCode (E : Type 0) : Type 0 where
  pub status_code : ℕ
  pub response : E

-- `is_not_found` is `errors.Is(err, customerrors.ErrOrderNotFound)`.
module _ {E F : Type 0} (is_not_found : F → Bool) where
  abbrev pub is_order_not_found : ServiceError E F → Bool
  is_order_not_found (error_checking_cache e) = false
  is_order_not_found (error_caching_orders e) = false
  is_order_not_found (storage_error e) = is_not_found e
  is_order_not_found (getting_last e) = is_not_found e
  is_order_not_found (getting_last_to_cache e) = is_not_found e

  -- `OrderIDGet` by what the service answers: it returns a response and no error.
  unfoldable pub respond {ℓ} :
      {S : Type ℓ}
      → Outcome (ServiceError E F) S Order
      → Outcome (ServiceError E F) S (OrderIdGetRes (ServiceError E F))
  respond (ok result s) = ok (responded (order_response result)) s
  respond (err e s) = ok (if is_order_not_found e then not_found e else error_response e) s
  respond panic = panic

  unfoldable pub order_id_get {ℓ} :
      {C D : Type ℓ}
      → OrderCache E C
      → OrderStorage F D
      → Text
      → Cmd (ServiceError E F) (Service E F C D) (OrderIdGetRes (ServiceError E F))
  unfolding respond
  order_id_get cache storage id s = respond (get_order cache storage id s)

  unfoldable pub new_error : ServiceError E F → ErrorResponseStatusCode (ServiceError E F)
  new_error e = record { status_code = if is_order_not_found e then 404 else 500; response = e }
