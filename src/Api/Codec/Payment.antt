-- ===== src/Api/Codec/Payment.antt =====
-- `Payment.Encode` and `Payment.Decode` of order_service/internal/api/oas_json_gen.go.
use l0_wb_tech_school.Base.{true, false, List, [], ◌∷◌, ◌++◌, Cmd}
use l0_wb_tech_school.Base.Text.{Text, lit}
use l0_wb_tech_school.Handler.{ApiPayment}
use l0_wb_tech_school.Api.Jx.{Jx}
use l0_wb_tech_school.Api.Required.{byte}
use l0_wb_tech_school.Api.Object.{DecodeError, Slot, Table, assign, decode_object}
use l0_wb_tech_school.Api.Schemas.{opt_reset}
use l0_wb_tech_school.Api.Codec.{into, opt_field, decode_opt}

abbrev pub payment_names : List Text
payment_names =
    lit "transaction"
    ∷ lit "request_id"
    ∷ lit "currency"
    ∷ lit "provider"
    ∷ lit "amount"
    ∷ lit "payment_dt"
    ∷ lit "bank"
    ∷ lit "delivery_cost"
    ∷ lit "goods_total"
    ∷ lit "custom_fee"
    ∷ []

module _ {V E Body : Type 0} (jx : Jx V E Body) where
  abbrev pub payment_fields : ApiPayment → List (Text × V)
  payment_fields s =
      (lit "transaction", jx.str s.transaction)
      ∷ (opt_field jx (lit "request_id") s.request_id
          ++ ((lit "currency", jx.str s.currency)
              ∷ (lit "provider", jx.str s.provider)
              ∷ (lit "amount", jx.int s.amount)
              ∷ (lit "payment_dt", jx.int64 s.payment_dt)
              ∷ (lit "bank", jx.str s.bank)
              ∷ (lit "delivery_cost", jx.int s.delivery_cost)
              ∷ (lit "goods_total", jx.int s.goods_total)
              ∷ (lit "custom_fee", jx.int s.custom_fee)
              ∷ []))

  abbrev pub encode_payment : ApiPayment → V
  encode_payment s = jx.object (payment_fields s)

  abbrev pub payment_slots : List (Slot V E ApiPayment)
  payment_slots =
      record {
        name = lit "transaction";
        required = true;
        read = assign jx.read_str (λ x s. record s { transaction = x });
      }
      ∷ record {
        name = lit "request_id";
        required = false;
        read = λ v s. into (λ x. record s { request_id = x }) (decode_opt jx v opt_reset);
      }
      ∷ record {
        name = lit "currency";
        required = true;
        read = assign jx.read_str (λ x s. record s { currency = x });
      }
      ∷ record {
        name = lit "provider";
        required = true;
        read = assign jx.read_str (λ x s. record s { provider = x });
      }
      ∷ record {
        name = lit "amount";
        required = true;
        read = assign jx.read_int (λ x s. record s { amount = x });
      }
      ∷ record {
        name = lit "payment_dt";
        required = true;
        read = assign jx.read_int64 (λ x s. record s { payment_dt = x });
      }
      ∷ record {
        name = lit "bank";
        required = true;
        read = assign jx.read_str (λ x s. record s { bank = x });
      }
      ∷ record {
        name = lit "delivery_cost";
        required = true;
        read = assign jx.read_int (λ x s. record s { delivery_cost = x });
      }
      ∷ record {
        name = lit "goods_total";
        required = true;
        read = assign jx.read_int (λ x s. record s { goods_total = x });
      }
      ∷ record {
        name = lit "custom_fee";
        required = true;
        read = assign jx.read_int (λ x s. record s { custom_fee = x });
      }
      ∷ []

  abbrev pub payment_table : Table V E ApiPayment
  payment_table = record {
    of_type = lit "Payment";
    names = payment_names;
    masks = byte 0xfd ∷ byte 0x03 ∷ [];
    slots = payment_slots;
  }

  unfoldable pub decode_payment : V → Cmd (DecodeError E) ApiPayment (Unit {0})
  decode_payment v s = decode_object jx payment_table v s
