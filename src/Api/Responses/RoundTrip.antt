-- ===== src/Api/Responses/RoundTrip.antt =====
-- The client's side reads what the server's side wrote.
use l0_wb_tech_school.Base.{
  ℕ, ◌≡◌, ◌≢◌, refl, inl, false, [], Option, ok, err, Cmd, if◌then◌else◌, ◌==◌, nat_eq, arith,
}
use l0_wb_tech_school.Models.{Time}
use l0_wb_tech_school.Api.Jx.{Jx, IsJx}
use l0_wb_tech_school.Api.Ogen.{Ogen, IsOgen}
use l0_wb_tech_school.Api.Object.{DecodeError}
use l0_wb_tech_school.Api.Schemas.{
  OrderResult, order, bad_request, not_found, failed, StatusResponse,
}
use l0_wb_tech_school.Api.Validate.{validate_order}
use l0_wb_tech_school.Api.Codec.{encode_error, decode_bad_request, decode_not_found, decode_error}
use l0_wb_tech_school.Api.Codec.RoundTrip.{
  plain_order, decode_order-encode_order, decode_bad_request-encode_bad_request,
  decode_not_found-encode_not_found, decode_error-encode_error,
}
use l0_wb_tech_school.Api.Responses.{
  HttpResponse, written, encode_order_id_get_response, encode_error_response, Received,
  status_error, zero_order, Answer, read_json, validated, decode_order_id_get_response,
}

-- A response that arrives whole.
abbrev pub arrived : {E Body : Type 0} → HttpResponse Body → Received E Body
arrived resp = record {
  status = resp.status;
  content_type = resp.content_type;
  body = inl resp.body;
}

module _ {E : Type 0} (ogen : Ogen E) (to_second : Time → Time) where
  -- What the client makes of the server's result.
  abbrev pub client_view : OrderResult → Answer E OrderResult
  client_view (order r) =
      let seen = plain_order to_second r in validated seen (validate_order ogen seen)
  client_view (bad_request r) = ok (bad_request r) tt
  client_view (not_found r) = ok (not_found r) tt
  client_view (failed r) = ok (failed r) tt

abbrev pub client_error_view : {E : Type 0} → StatusResponse → Answer E OrderResult
client_error_view r =
    if r.status_code == 400
    then ok (bad_request (record { message = r.response.message })) tt
    else if r.status_code == 404
    then ok (not_found (record { message = r.response.message })) tt
    else if r.status_code == 500
    then ok (failed r.response) tt
    else err (status_error r) tt

module _ {V E Body : Type 0} (jx : Jx V E Body) (write : Body → Option E) (ogen : Ogen E)
    (to_second : Time → Time) (jx_lawful : IsJx jx to_second) (ogen_lawful : IsOgen ogen) where
  read_json_lem :
      {S : Type 0} (decode : V → Cmd (DecodeError E) S (Unit {0})) (zero_value s : S) (code : ℕ)
      (v : V)
      → decode v zero_value ≡ ok tt s
      → read_json jx ogen decode zero_value (arrived (written jx write code v)) ≡ ok s tt
  read_json_lem decode zero_value s code v e =
      rw (ogen_lawful.json_type)
        (rw (jx_lawful.bytes_back v) (rw e (rw (jx_lawful.bytes_end v) refl)))

  -- What the client decodes of a response that the server encoded, of whichever kind, is the server's
  -- result, but for an order whose view the client's own validator refuses, which is an error; the
  -- date of an order is to the second, a text that is not set has no value, and a slice of items is
  -- not nil. It holds for a response that arrives whole, a jx whose decoder reads what its encoder
  -- wrote, and the media type as documented.
  pub decode_response-encode_response :
      (r : OrderResult)
      → decode_order_id_get_response jx ogen (arrived (encode_order_id_get_response jx write r).0)
        ≡ client_view ogen to_second r
  unfolding decode_order_id_get_response
  decode_response-encode_response (order r) =
      rw
        (read_json_lem _ zero_order _ 200 _
          (decode_order-encode_order jx to_second jx_lawful r zero_order refl refl))
        refl
  decode_response-encode_response (bad_request r) =
      rw
        (read_json_lem _ (record { message = [] }) _ 400 _
          (decode_bad_request-encode_bad_request jx to_second jx_lawful r
            (record { message = [] })))
        refl
  decode_response-encode_response (not_found r) =
      rw
        (read_json_lem _ (record { message = [] }) _ 404 _
          (decode_not_found-encode_not_found jx to_second jx_lawful r (record { message = [] })))
        refl
  decode_response-encode_response (failed r) =
      rw
        (read_json_lem _ (record { message = [] }) _ 500 _
          (decode_error-encode_error jx to_second jx_lawful r (record { message = [] })))
        refl

  decode_response-error :
      (r : StatusResponse)
      → (r.status_code == 200) ≡ false
      → decode_order_id_get_response jx ogen
          (arrived (written jx write r.status_code (encode_error jx r.response)))
        ≡ client_error_view r
  unfolding decode_order_id_get_response
  decode_response-error r not_ok = rw not_ok (
      rw
        (read_json_lem (decode_bad_request jx) (record { message = [] })
          (record { message = r.response.message }) r.status_code _
          (decode_bad_request-encode_bad_request jx to_second jx_lawful
            (record { message = r.response.message }) (record { message = [] })))
        (rw
          (read_json_lem (decode_not_found jx) (record { message = [] })
            (record { message = r.response.message }) r.status_code _
            (decode_not_found-encode_not_found jx to_second jx_lawful
              (record { message = r.response.message }) (record { message = [] })))
          (rw
            (read_json_lem (decode_error jx) (record { message = [] }) r.response r.status_code _
              (decode_error-encode_error jx to_second jx_lawful r.response
                (record { message = [] })))
            refl)))

  -- What the client decodes of an error response with a status code that is neither 0 nor 200: for the
  -- codes 400, 404 and 500 the result of that kind with the message, and for any other code an error
  -- with the code and the message. It holds for a response that arrives whole, a jx whose decoder
  -- reads what its encoder wrote, and the media type as documented.
  pub decode_response-encode_error_response :
      (r : StatusResponse)
      → r.status_code ≢ 0
      → r.status_code ≢ 200
      → decode_order_id_get_response jx ogen (arrived (encode_error_response jx write r).0)
        ≡ client_error_view r
  unfolding encode_error_response
  decode_response-encode_error_response r nonzero not_ok =
      let set : (r.status_code == 0) ≡ false = ground (arith) in
      let other : (r.status_code == 200) ≡ false = ground (arith) in
      rw set (decode_response-error r other)
