-- ===== src/Api/Codec/Order.antt =====
-- `OrderResponse.Encode` and `OrderResponse.Decode` of order_service/internal/api/oas_json_gen.go.
use l0_wb_tech_school.Base.{Option, none, some, true, false, List, [], ◌∷◌, ◌++◌, map, Cmd}
use l0_wb_tech_school.Base.Text.{Text, lit}
use l0_wb_tech_school.Handler.{OrderResponse}
use l0_wb_tech_school.Api.Jx.{Jx}
use l0_wb_tech_school.Api.Required.{byte}
use l0_wb_tech_school.Api.Object.{DecodeError, Slot, Table, assign, decode_object}
use l0_wb_tech_school.Api.Schemas.{opt_reset}
use l0_wb_tech_school.Api.Codec.{into, opt_field, decode_opt}
use l0_wb_tech_school.Api.Codec.Delivery.{encode_delivery, decode_delivery}
use l0_wb_tech_school.Api.Codec.Payment.{encode_payment, decode_payment}
use l0_wb_tech_school.Api.Codec.Item.{encode_item, decode_items}

abbrev pub order_names : List Text
order_names =
    lit "order_uid"
    ∷ lit "track_number"
    ∷ lit "entry"
    ∷ lit "delivery"
    ∷ lit "payment"
    ∷ lit "items"
    ∷ lit "locale"
    ∷ lit "internal_signature"
    ∷ lit "customer_id"
    ∷ lit "delivery_service"
    ∷ lit "shardkey"
    ∷ lit "sm_id"
    ∷ lit "date_created"
    ∷ lit "oof_shard"
    ∷ []

-- The elements of a slice that may be nil.
abbrev pub elems_of : {A : Type 0} → Option (List A) → List A
elems_of none = []
elems_of (some items) = items

module _ {V E Body : Type 0} (jx : Jx V E Body) where
  abbrev pub order_fields : OrderResponse → List (Text × V)
  order_fields s =
      (lit "order_uid", jx.str s.order_uid)
      ∷ (lit "track_number", jx.str s.track_number)
      ∷ (lit "entry", jx.str s.entry)
      ∷ (lit "delivery", encode_delivery jx s.delivery)
      ∷ (lit "payment", encode_payment jx s.payment)
      ∷ (lit "items", jx.array (map (encode_item jx) (elems_of s.items)))
      ∷ (lit "locale", jx.str s.locale)
      ∷ (opt_field jx (lit "internal_signature") s.internal_signature
          ++ ((lit "customer_id", jx.str s.customer_id)
              ∷ (lit "delivery_service", jx.str s.delivery_service)
              ∷ (lit "shardkey", jx.str s.shardkey)
              ∷ (lit "sm_id", jx.int s.sm_id)
              ∷ (lit "date_created", jx.date_time s.date_created)
              ∷ (lit "oof_shard", jx.str s.oof_shard)
              ∷ []))

  abbrev pub encode_order : OrderResponse → V
  encode_order s = jx.object (order_fields s)

  abbrev pub order_slots : List (Slot V E OrderResponse)
  order_slots =
      record {
        name = lit "order_uid";
        required = true;
        read = assign jx.read_str (λ x s. record s { order_uid = x });
      }
      ∷ record {
        name = lit "track_number";
        required = true;
        read = assign jx.read_str (λ x s. record s { track_number = x });
      }
      ∷ record {
        name = lit "entry";
        required = true;
        read = assign jx.read_str (λ x s. record s { entry = x });
      }
      ∷ record {
        name = lit "delivery";
        required = true;
        read = λ v s. into (λ x. record s { delivery = x }) (decode_delivery jx v s.delivery);
      }
      ∷ record {
        name = lit "payment";
        required = true;
        read = λ v s. into (λ x. record s { payment = x }) (decode_payment jx v s.payment);
      }
      ∷ record {
        name = lit "items";
        required = true;
        read = λ v s.
            into (λ x. record s { items = some x })
              (decode_items jx (jx.elems v).0 (jx.elems v).1 []);
      }
      ∷ record {
        name = lit "locale";
        required = true;
        read = assign jx.read_str (λ x s. record s { locale = x });
      }
      ∷ record {
        name = lit "internal_signature";
        required = false;
        read = λ v s. into (λ x. record s { internal_signature = x }) (decode_opt jx v opt_reset);
      }
      ∷ record {
        name = lit "customer_id";
        required = true;
        read = assign jx.read_str (λ x s. record s { customer_id = x });
      }
      ∷ record {
        name = lit "delivery_service";
        required = true;
        read = assign jx.read_str (λ x s. record s { delivery_service = x });
      }
      ∷ record {
        name = lit "shardkey";
        required = true;
        read = assign jx.read_str (λ x s. record s { shardkey = x });
      }
      ∷ record {
        name = lit "sm_id";
        required = true;
        read = assign jx.read_int (λ x s. record s { sm_id = x });
      }
      ∷ record {
        name = lit "date_created";
        required = true;
        read = assign jx.read_date_time (λ x s. record s { date_created = x });
      }
      ∷ record {
        name = lit "oof_shard";
        required = true;
        read = assign jx.read_str (λ x s. record s { oof_shard = x });
      }
      ∷ []

  abbrev pub order_table : Table V E OrderResponse
  order_table = record {
    of_type = lit "OrderResponse";
    names = order_names;
    masks = byte 0x7f ∷ byte 0x3f ∷ [];
    slots = order_slots;
  }

  unfoldable pub decode_order : V → Cmd (DecodeError E) OrderResponse (Unit {0})
  decode_order v s = decode_object jx order_table v s
