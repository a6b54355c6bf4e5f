-- ===== src/Api/Codec/Bytes.antt =====
-- `MarshalJSON` and `UnmarshalJSON` of order_service/internal/api/oas_json_gen.go. The first never
-- fails.
use l0_wb_tech_school.Base.{Cmd}
use l0_wb_tech_school.Handler.{ApiDelivery, ApiPayment, ApiOrderItem, OrderResponse}
use l0_wb_tech_school.Api.Jx.{Jx}
use l0_wb_tech_school.Api.Object.{DecodeError}
use l0_wb_tech_school.Api.Schemas.{BadRequestErrorResponse, ErrorResponse, NotFoundErrorResponse}
use l0_wb_tech_school.Api.Codec.{
  encode_bad_request, encode_not_found, encode_error, decode_bad_request, decode_not_found,
  decode_error,
}
use l0_wb_tech_school.Api.Codec.Delivery.{encode_delivery, decode_delivery}
use l0_wb_tech_school.Api.Codec.Item.{encode_item, decode_item}
use l0_wb_tech_school.Api.Codec.Payment.{encode_payment, decode_payment}
use l0_wb_tech_school.Api.Codec.Order.{encode_order, decode_order}

module _ {V E Body : Type 0} (jx : Jx V E Body) where
  abbrev pub marshal_bad_request : BadRequestErrorResponse → Body
  marshal_bad_request s = jx.bytes (encode_bad_request jx s)

  abbrev pub unmarshal_bad_request : Body → Cmd (DecodeError E) BadRequestErrorResponse (Unit {0})
  unmarshal_bad_request buf s = decode_bad_request jx (jx.decode_bytes buf) s

  abbrev pub marshal_not_found : NotFoundErrorResponse → Body
  marshal_not_found s = jx.bytes (encode_not_found jx s)

  abbrev pub unmarshal_not_found : Body → Cmd (DecodeError E) NotFoundErrorResponse (Unit {0})
  unmarshal_not_found buf s = decode_not_found jx (jx.decode_bytes buf) s

  abbrev pub marshal_error : ErrorResponse → Body
  marshal_error s = jx.bytes (encode_error jx s)

  abbrev pub unmarshal_error : Body → Cmd (DecodeError E) ErrorResponse (Unit {0})
  unmarshal_error buf s = decode_error jx (jx.decode_bytes buf) s

  abbrev pub marshal_delivery : ApiDelivery → Body
  marshal_delivery s = jx.bytes (encode_delivery jx s)

  abbrev pub unmarshal_delivery : Body → Cmd (DecodeError E) ApiDelivery (Unit {0})
  unmarshal_delivery buf s = decode_delivery jx (jx.decode_bytes buf) s

  abbrev pub marshal_item : ApiOrderItem → Body
  marshal_item s = jx.bytes (encode_item jx s)

  abbrev pub unmarshal_item : Body → Cmd (DecodeError E) ApiOrderItem (Unit {0})
  unmarshal_item buf s = decode_item jx (jx.decode_bytes buf) s

  abbrev pub marshal_payment : ApiPayment → Body
  marshal_payment s = jx.bytes (encode_payment jx s)

  abbrev pub unmarshal_payment : Body → Cmd (DecodeError E) ApiPayment (Unit {0})
  unmarshal_payment buf s = decode_payment jx (jx.decode_bytes buf) s

  abbrev pub marshal_order : OrderResponse → Body
  marshal_order s = jx.bytes (encode_order jx s)

  abbrev pub unmarshal_order : Body → Cmd (DecodeError E) OrderResponse (Unit {0})
  unmarshal_order buf s = decode_order jx (jx.decode_bytes buf) s
