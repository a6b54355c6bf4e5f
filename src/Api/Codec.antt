-- ===== src/Api/Codec.antt =====
-- `Encode` and `Decode` of order_service/internal/api/oas_json_gen.go for a text that may be absent
-- and for the three responses that are a message; the other types have a child each. Every `Decode`
-- has a table of the cases of its switch, in the order of `jsonFieldsNameOf…`.
pub mod Delivery
pub mod Item
pub mod Payment
pub mod Order
pub mod Bytes
pub mod Laws
pub mod RoundTrip
use l0_wb_tech_school.Base.{
  Bool, true, List, [], ◌∷◌, map, Option, none, some, Outcome, ok, err, panic, Cmd, if◌then◌else◌,
}
use l0_wb_tech_school.Base.Text.{Text, lit}
use l0_wb_tech_school.Handler.{OptString}
use l0_wb_tech_school.Api.Jx.{Jx}
use l0_wb_tech_school.Api.Required.{byte}
use l0_wb_tech_school.Api.Object.{DecodeError, read_error, Slot, Table, assign, decode_object}
use l0_wb_tech_school.Api.Schemas.{BadRequestErrorResponse, ErrorResponse, NotFoundErrorResponse}

-- A field that is decoded in place: it keeps what its own `Decode` left there.
abbrev pub into : {E S T : Type 0} → (T → S) → Outcome E T (Unit {0}) → Outcome E S (Unit {0})
into store (ok a x) = ok a (store x)
into store (err e x) = err e (store x)
into store panic = panic

abbrev pub message_names : List Text
message_names = lit "message" ∷ []

module _ {V E Body : Type 0} (jx : Jx V E Body) where
  -- `OptString.Encode` writes nothing where the text is not set.
  abbrev pub encode_opt : OptString → List V
  encode_opt o = if o.is_set then jx.str o.value ∷ [] else []

  -- `if s.F.Set { e.FieldStart(…); s.F.Encode(e) }`
  abbrev pub opt_field : Text → OptString → List (Text × V)
  opt_field name o = if o.is_set then map (λ v. (name, v)) (encode_opt o) else []

  abbrev pub keep_opt : OptString → Text × Option E → Outcome (DecodeError E) OptString (Unit {0})
  keep_opt o (v, none) = ok tt (record { value = v; is_set = true })
  keep_opt o (v, some e) = err (read_error e) (record o { is_set = true })

  -- `OptString.Decode`
  abbrev pub decode_opt : V → Cmd (DecodeError E) OptString (Unit {0})
  decode_opt v o = keep_opt o (jx.read_str v)

  abbrev pub encode_message : Text → V
  encode_message message = jx.object ((lit "message", jx.str message) ∷ [])

  abbrev pub encode_bad_request : BadRequestErrorResponse → V
  encode_bad_request s = encode_message s.message

  abbrev pub encode_not_found : NotFoundErrorResponse → V
  encode_not_found s = encode_message s.message

  abbrev pub encode_error : ErrorResponse → V
  encode_error s = encode_message s.message

  abbrev pub bad_request_table : Table V E BadRequestErrorResponse
  bad_request_table = record {
    of_type = lit "BadRequestErrorResponse";
    names = message_names;
    masks = byte 0x01 ∷ [];
    slots =
        record {
          name = lit "message";
          required = true;
          read = assign jx.read_str (λ x s. record s { message = x });
        }
        ∷ [];
  }

  abbrev pub not_found_table : Table V E NotFoundErrorResponse
  not_found_table = record {
    of_type = lit "NotFoundErrorResponse";
    names = message_names;
    masks = byte 0x01 ∷ [];
    slots =
        record {
          name = lit "message";
          required = true;
          read = assign jx.read_str (λ x s. record s { message = x });
        }
        ∷ [];
  }

  abbrev pub error_table : Table V E ErrorResponse
  error_table = record {
    of_type = lit "ErrorResponse";
    names = message_names;
    masks = byte 0x01 ∷ [];
    slots =
        record {
          name = lit "message";
          required = true;
          read = assign jx.read_str (λ x s. record s { message = x });
        }
        ∷ [];
  }

  unfoldable pub decode_bad_request : V → Cmd (DecodeError E) BadRequestErrorResponse (Unit {0})
  decode_bad_request v s = decode_object jx bad_request_table v s

  unfoldable pub decode_not_found : V → Cmd (DecodeError E) NotFoundErrorResponse (Unit {0})
  decode_not_found v s = decode_object jx not_found_table v s

  unfoldable pub decode_error : V → Cmd (DecodeError E) ErrorResponse (Unit {0})
  decode_error v s = decode_object jx error_table v s
