-- ===== src/Api/Responses.antt =====
-- order_service/internal/api/oas_response_encoders_gen.go and oas_response_decoders_gen.go. Tracing is
-- left out. Of an `http.ResponseWriter` the model keeps what is handed to it, and of a response that a
-- client receives what it reads of it.
pub mod RoundTrip
pub mod Valid
use l0_wb_tech_school.Base.{
  ℕ, ◌⊎◌, inl, inr, Bool, true, false, Option, none, some, [], Outcome, ok, err, panic, Cmd,
  and_then, if◌then◌else◌, ◌==◌, nat_eq, leb,
}
use l0_wb_tech_school.Base.Int.{pos}
use l0_wb_tech_school.Base.Text.{Text, lit, text_beq}
use l0_wb_tech_school.Handler.{ApiDelivery, ApiPayment, OrderResponse}
use l0_wb_tech_school.Api.Jx.{Jx}
use l0_wb_tech_school.Api.Ogen.{Ogen}
use l0_wb_tech_school.Api.Object.{DecodeError}
use l0_wb_tech_school.Api.Schemas.{
  BadRequestErrorResponse, ErrorResponse, NotFoundErrorResponse, OrderResult, order, bad_request,
  not_found, failed, StatusResponse, opt_reset,
}
use l0_wb_tech_school.Api.Validate.{Failure, validate_order}
use l0_wb_tech_school.Api.Codec.{
  encode_bad_request, encode_not_found, encode_error, decode_bad_request, decode_not_found,
  decode_error,
}
use l0_wb_tech_school.Api.Codec.Order.{encode_order, decode_order}

pub record HttpResponse (Body : Type 0) : Type 0 where
  pub status : ℕ
  pub content_type : Text
  pub body : Body

-- The error of `WriteTo`, and `ht.ErrInternalServerErrorResponse` with its code.
pub data EncodeError (E : Type 0) : Type 0 where
  write_error : E → EncodeError E
  internal_response : ℕ → EncodeError E

abbrev pub json_utf8 : Text
json_utf8 = lit "application/json; charset=utf-8"

abbrev pub of_write : {E : Type 0} → Option E → Option (EncodeError E)
of_write none = none
of_write (some e) = some (write_error e)

-- The error behind a written error response.
abbrev pub of_code : {E : Type 0} → ℕ → Option E → Option (EncodeError E)
of_code code none = if leb 500 code then some (internal_response code) else none
of_code code (some e) = some (write_error e)

-- `write` is what `WriteTo` returns.
module _ {V E Body : Type 0} (jx : Jx V E Body) (write : Body → Option E) where
  abbrev pub written : ℕ → V → HttpResponse Body
  written code v = record { status = code; content_type = json_utf8; body = jx.bytes v }

  abbrev pub sent : ℕ → V → HttpResponse Body × Option (EncodeError E)
  sent code v = (written code v, of_write (write (jx.bytes v)))

  -- `encodeOrderIDGetResponse`
  abbrev pub encode_order_id_get_response : OrderResult → HttpResponse Body × Option (EncodeError E)
  encode_order_id_get_response (order r) = sent 200 (encode_order jx r)
  encode_order_id_get_response (bad_request r) = sent 400 (encode_bad_request jx r)
  encode_order_id_get_response (not_found r) = sent 404 (encode_not_found jx r)
  encode_order_id_get_response (failed r) = sent 500 (encode_error jx r)

  -- `encodeErrorResponse`
  unfoldable pub encode_error_response : StatusResponse → HttpResponse Body × Option (EncodeError E)
  encode_error_response r =
      let code = if r.status_code == 0 then 200 else r.status_code in
      let v = encode_error jx r.response in (written code v, of_code code (write (jx.bytes v)))

-- A response as the client has it; the body is what `io.ReadAll` returns.
pub record Received (E Body : Type 0) : Type 0 where
  pub status : ℕ
  pub content_type : Text
  pub body : Body ⊎ E

pub data ClientError (E : Type 0) : Type 0 where
  media_type_error read_body_error : E → ClientError E
  body_error : DecodeError E → ClientError E
  trailing_data : ClientError E
  invalid_content_type : Text → ClientError E
  invalid_response : Failure E → ClientError E
  status_error : StatusResponse → ClientError E
  default_error : ℕ → ClientError E → ClientError E

-- `var response OrderResponse`
abbrev pub zero_order : OrderResponse
zero_order = record {
  order_uid = [];
  track_number = [];
  entry = [];
  delivery = record {
    name = [];
    phone = [];
    zip = [];
    city = [];
    address = [];
    region = [];
    email = [];
  };
  payment = record {
    transaction = [];
    request_id = opt_reset;
    currency = [];
    provider = [];
    amount = pos 0;
    payment_dt = pos 0;
    bank = [];
    delivery_cost = pos 0;
    goods_total = pos 0;
    custom_fee = pos 0;
  };
  items = none;
  locale = [];
  internal_signature = opt_reset;
  customer_id = [];
  delivery_service = [];
  shardkey = [];
  sm_id = pos 0;
  date_created = pos 0;
  oof_shard = [];
}

abbrev pub Answer : Type 0 → Type 0 → Type 0
Answer E A = Outcome (ClientError E) (Unit {0}) A

module _ {E : Type 0} where
  -- "Validate response."
  abbrev pub validated : OrderResponse → Option (Failure E) → Answer E OrderResult
  validated r none = ok (order r) tt
  validated r (some f) = err (invalid_response f) tt

  -- "Convenient error response.", which is an error of the client.
  abbrev pub default_answer : ℕ → Answer E ErrorResponse → Answer E OrderResult
  default_answer code (ok r s) = err (status_error (record { status_code = code; response = r })) tt
  default_answer code (err e s) = err (default_error code e) tt
  default_answer code panic = panic

module _ {V E Body : Type 0} (jx : Jx V E Body) (ogen : Ogen E) where
  -- `response.Decode(d)`, then `d.Skip()`, which must find the end.
  abbrev pub to_end : {S : Type 0} → Body → Outcome (DecodeError E) S (Unit {0}) → Answer E S
  to_end buf (ok a s) = if jx.at_end buf then ok s tt else err trailing_data tt
  to_end buf (err e s) = err (body_error e) tt
  to_end buf panic = panic

  abbrev pub of_body :
      {S : Type 0} → (V → Cmd (DecodeError E) S (Unit {0})) → S → Body ⊎ E → Answer E S
  of_body decode zero_value (inl buf) = to_end buf (decode (jx.decode_bytes buf) zero_value)
  of_body decode zero_value (inr e) = err (read_body_error e) tt

  abbrev pub of_type :
      {S : Type 0} → (V → Cmd (DecodeError E) S (Unit {0})) → S → Body ⊎ E → Text ⊎ E → Answer E S
  of_type decode zero_value body (inr e) = err (media_type_error e) tt
  of_type decode zero_value body (inl ct) =
      if text_beq ct (lit "application/json")
      then of_body decode zero_value body
      else err (invalid_content_type ct) tt

  -- The steps that every case of the switch has, for the type of its body.
  abbrev pub read_json :
      {S : Type 0} → (V → Cmd (DecodeError E) S (Unit {0})) → S → Received E Body → Answer E S
  read_json decode zero_value resp =
      of_type decode zero_value resp.body (ogen.media_type resp.content_type)

  -- `decodeOrderIDGetResponse`
  unfoldable pub decode_order_id_get_response : Received E Body → Answer E OrderResult
  decode_order_id_get_response resp =
      if resp.status == 200
      then and_then (read_json (decode_order jx) zero_order resp)
          (λ r. λ _. validated r (validate_order ogen r))
      else if resp.status == 400
      then and_then (read_json (decode_bad_request jx) (record { message = [] }) resp)
          (λ r. λ s. ok (bad_request r) s)
      else if resp.status == 404
      then and_then (read_json (decode_not_found jx) (record { message = [] }) resp)
          (λ r. λ s. ok (not_found r) s)
      else if resp.status == 500
      then and_then (read_json (decode_error jx) (record { message = [] }) resp)
          (λ r. λ s. ok (failed r) s)
      else default_answer resp.status (read_json (decode_error jx) (record { message = [] }) resp)
