-- ===== src/Api/Codec/RoundTrip.antt =====
-- Decoding what was encoded.
use mathlib.Core.List.{append-nil, append_assoc}
use l0_wb_tech_school.Base.{
  ◌≡◌, ◌∙◌, refl, List, [], ◌∷◌, ◌++◌, map, Bool-cases, inl, inr, if◌then◌else◌, none, some, ok,
}
use l0_wb_tech_school.Base.Text.{lit}
use l0_wb_tech_school.Models.{Time}
use l0_wb_tech_school.Handler.{OptString, ApiDelivery, ApiPayment, ApiOrderItem, OrderResponse}
use l0_wb_tech_school.Api.Jx.{Jx, IsJx}
use l0_wb_tech_school.Api.Object.{run_slot, switch, each_field}
use l0_wb_tech_school.Api.Object.Missing.{missing}
use l0_wb_tech_school.Api.Object.Verdict.{decode_object-object}
use l0_wb_tech_school.Api.Schemas.{
  new_opt, opt_reset, BadRequestErrorResponse, ErrorResponse, NotFoundErrorResponse,
}
use l0_wb_tech_school.Api.Codec.{
  encode_bad_request, encode_not_found, encode_error, bad_request_table, not_found_table,
  error_table, decode_bad_request, decode_not_found, decode_error,
}
use l0_wb_tech_school.Api.Codec.Laws.{
  delivery_table-IsTable, item_table-IsTable, payment_table-IsTable, order_table-IsTable,
  bad_request_table-IsTable, not_found_table-IsTable, error_table-IsTable,
}
use l0_wb_tech_school.Api.Codec.Delivery.{
  delivery_fields, encode_delivery, delivery_table, decode_delivery,
}
use l0_wb_tech_school.Api.Codec.Item.{
  zero_item, item_fields, encode_item, item_table, decode_item, decode_items,
}
use l0_wb_tech_school.Api.Codec.Payment.{
  payment_fields, encode_payment, payment_table, decode_payment,
}
use l0_wb_tech_school.Api.Codec.Order.{
  elems_of, order_fields, encode_order, order_table, decode_order,
}

-- What decoding leaves of a text that may be absent.
abbrev pub plain : OptString → OptString
plain o = if o.is_set then new_opt o.value else opt_reset

abbrev pub plain_payment : ApiPayment → ApiPayment
plain_payment s = record s { request_id = plain s.request_id }

abbrev pub plain_order : (Time → Time) → OrderResponse → OrderResponse
plain_order to_second s = record s {
  payment = plain_payment s.payment;
  items = some (elems_of s.items);
  internal_signature = plain s.internal_signature;
  date_created = to_second s.date_created;
}

module _ {V E Body : Type 0} (jx : Jx V E Body) (to_second : Time → Time)
    (lawful : IsJx jx to_second) where
  pub decode_bad_request-encode_bad_request :
      (s t : BadRequestErrorResponse) → decode_bad_request jx (encode_bad_request jx s) t ≡ ok tt s
  unfolding decode_bad_request each_field switch run_slot
  decode_bad_request-encode_bad_request s t =
      decode_object-object jx (bad_request_table jx) (bad_request_table-IsTable jx)
        ((lit "message", jx.str s.message) ∷ []) t s (lawful.object_back _) refl
        (simp (lawful.str_back))

  pub decode_not_found-encode_not_found :
      (s t : NotFoundErrorResponse) → decode_not_found jx (encode_not_found jx s) t ≡ ok tt s
  unfolding decode_not_found each_field switch run_slot
  decode_not_found-encode_not_found s t =
      decode_object-object jx (not_found_table jx) (not_found_table-IsTable jx)
        ((lit "message", jx.str s.message) ∷ []) t s (lawful.object_back _) refl
        (simp (lawful.str_back))

  pub decode_error-encode_error :
      (s t : ErrorResponse) → decode_error jx (encode_error jx s) t ≡ ok tt s
  unfolding decode_error each_field switch run_slot
  decode_error-encode_error s t =
      decode_object-object jx (error_table jx) (error_table-IsTable jx)
        ((lit "message", jx.str s.message) ∷ []) t s (lawful.object_back _) refl
        (simp (lawful.str_back))

  pub decode_delivery-encode_delivery :
      (s t : ApiDelivery) → decode_delivery jx (encode_delivery jx s) t ≡ ok tt s
  unfolding decode_delivery each_field switch run_slot
  decode_delivery-encode_delivery s t =
      decode_object-object jx (delivery_table jx) (delivery_table-IsTable jx) (delivery_fields jx s)
        t s (lawful.object_back _) refl (simp (lawful.str_back))

  pub decode_item-encode_item : (s t : ApiOrderItem) → decode_item jx (encode_item jx s) t ≡ ok tt s
  unfolding decode_item each_field switch run_slot
  decode_item-encode_item s t =
      decode_object-object jx (item_table jx) (item_table-IsTable jx) (item_fields jx s) t s
        (lawful.object_back _) refl (simp (lawful.str_back, lawful.int_back, lawful.int64_back))

  pub decode_items-map :
      (items before : List ApiOrderItem)
      → decode_items jx (map (encode_item jx) items) none before ≡ ok tt (before ++ items)
  unfolding decode_items
  decode_items-map [] before = rw append-nil
  decode_items-map (item ∷ items) before =
      rw (decode_item-encode_item item zero_item)
        (decode_items-map items (before ++ item ∷ []) ∙ rw append_assoc)

  -- Without its request id a payment lacks no required field either.
  payment_full : (s : ApiPayment) → missing (payment_table jx).slots (payment_fields jx s) ≡ []
  payment_full s = elim (Bool-cases s.request_id.is_set) [ inl set ↦ rw set | inr unset ↦ rw unset ]

  pub decode_payment-encode_payment :
      (s t : ApiPayment)
      → t.request_id ≡ opt_reset
      → decode_payment jx (encode_payment jx s) t ≡ ok tt (plain_payment s)
  unfolding decode_payment each_field switch run_slot
  decode_payment-encode_payment s t fresh =
      decode_object-object jx (payment_table jx) (payment_table-IsTable jx) (payment_fields jx s) t
        (plain_payment s) (lawful.object_back _) (payment_full s)
        (elim (Bool-cases s.request_id.is_set) [
          | inl set ↦ simp (set, lawful.str_back, lawful.int_back, lawful.int64_back)
          | inr unset ↦ simp (unset, fresh, lawful.str_back, lawful.int_back, lawful.int64_back)
        ])

  order_full : (s : OrderResponse) → missing (order_table jx).slots (order_fields jx s) ≡ []
  order_full s = elim (Bool-cases s.internal_signature.is_set) [
    | inl set ↦ rw set
    | inr unset ↦ rw unset
  ]

  -- `OrderResponse.Decode` reads back what `OrderResponse.Encode` wrote, in a receiver whose two
  -- optional texts are not set: every field is the one encoded, but for the date, which is written to
  -- the second, for the value of a text that is not set, which is not written, and for a nil slice of
  -- items, which comes back as one with no elements. It holds for a jx whose decoder reads what its
  -- encoder wrote.
  pub decode_order-encode_order :
      (s t : OrderResponse)
      → t.internal_signature ≡ opt_reset
      → t.payment.request_id ≡ opt_reset
      → decode_order jx (encode_order jx s) t ≡ ok tt (plain_order to_second s)
  unfolding decode_order each_field switch run_slot
  decode_order-encode_order s t fresh fresh_payment =
      decode_object-object jx (order_table jx) (order_table-IsTable jx) (order_fields jx s) t
        (plain_order to_second s) (lawful.object_back _) (order_full s)
        (elim (Bool-cases s.internal_signature.is_set) [
          | inl set ↦ simp (
            set,
            lawful.str_back,
            lawful.int_back,
            lawful.date_time_back,
            lawful.array_back,
            decode_delivery-encode_delivery s.delivery t.delivery,
            decode_payment-encode_payment s.payment t.payment fresh_payment,
            decode_items-map (elems_of s.items) [],
          )
          | inr unset ↦ simp (
            unset,
            fresh,
            lawful.str_back,
            lawful.int_back,
            lawful.date_time_back,
            lawful.array_back,
            decode_delivery-encode_delivery s.delivery t.delivery,
            decode_payment-encode_payment s.payment t.payment fresh_payment,
            decode_items-map (elems_of s.items) [],
          )
        ])
