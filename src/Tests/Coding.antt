-- ===== src/Tests/Coding.antt =====
-- The codecs, the router, the rules and the responses of order_service/internal/api over JSON trees.
use l0_wb_tech_school.Base.{
  ◌≤◌, ◌≡◌, ◌↔◌, refl, inl, true, false, [], ◌∷◌, ◌++◌, Option, none, length, ok, if◌then◌else◌,
}
use l0_wb_tech_school.Base.Int.{pos}
use l0_wb_tech_school.Base.Text.{Text, lit}
use l0_wb_tech_school.Handler.{OrderResponse, order_response}
use l0_wb_tech_school.Api.Schemas.{NotFoundErrorResponse, order, StatusResponse}
use l0_wb_tech_school.Api.Required.{no_bits}
use l0_wb_tech_school.Api.Object.{verdict, each_field, switch, run_slot, decode_object}
use l0_wb_tech_school.Api.Object.Missing.{missing}
use l0_wb_tech_school.Api.Object.Verdict.{decode_object-missing}
use l0_wb_tech_school.Api.Codec.{not_found_table}
use l0_wb_tech_school.Api.Codec.Laws.{not_found_table-IsTable}
use l0_wb_tech_school.Api.Codec.Order.{encode_order, decode_order}
use l0_wb_tech_school.Api.Codec.RoundTrip.{plain_order, decode_order-encode_order}
use l0_wb_tech_school.Api.Validate.{email_rule, validate_order}
use l0_wb_tech_school.Api.Validate.Rules.{AreSales, validate_order_iff}
use l0_wb_tech_school.Api.Params.{decode_order_id_get_params, decode_order_id_get_params_iff}
use l0_wb_tech_school.Api.Router.{
  Url, contains, slash, handle_order_id_get, request_path, is_escaped, serve_http, find_path,
}
use l0_wb_tech_school.Api.Router.Paths.{
  order_path, serve_http_iff, route_served, find_path-serve_http,
}
use l0_wb_tech_school.Api.Responses.{
  zero_order, encode_order_id_get_response, decode_order_id_get_response,
}
use l0_wb_tech_school.Api.Responses.RoundTrip.{
  arrived, client_view, decode_response-encode_response,
}
use l0_wb_tech_school.Tests.Json.{
  Json, num, obj, field, end, whole_second, trees, trees-IsJx, rules, rules-IsOgen,
}
use l0_wb_tech_school.Tests.Validating.{an_order, any_address}
use l0_wb_tech_school.Validators
use l0_wb_tech_school.Base.Text.{is_blank}
use l0_wb_tech_school.Api.Responses.Valid.{decode_response_of_valid}

abbrev pub a_response : OrderResponse
a_response = order_response an_order

abbrev a_message : NotFoundErrorResponse
a_message = record { message = lit "gone" }

-- An object without the field that is required, and with another.
abbrev an_object : Json
an_object = obj (field (lit "code") (num (pos 404)) end)

decode_object-missing_example :
    decode_object trees (not_found_table trees) an_object a_message
    ≡ verdict (missing (not_found_table trees).slots ((lit "code", num (pos 404)) ∷ [])) a_message
unfolding each_field switch run_slot
decode_object-missing_example =
    decode_object-missing trees (not_found_table trees) (not_found_table-IsTable trees) an_object
      ((lit "code", num (pos 404)) ∷ []) a_message a_message (no_bits (not_found_table trees).masks)
      refl refl

decode_order-encode_order_example :
    decode_order trees (encode_order trees a_response) zero_order
    ≡ ok tt (plain_order whole_second a_response)
decode_order-encode_order_example =
    decode_order-encode_order trees whole_second trees-IsJx a_response zero_order refl refl

validate_order_iff_example :
    (validate_order rules a_response ≡ none)
    ↔ ((rules.check_string email_rule a_response.delivery.email ≡ none) × AreSales a_response.items)
validate_order_iff_example = validate_order_iff rules rules-IsOgen a_response

decode_order_id_get_params_iff_example :
    (decode_order_id_get_params rules (lit "b563") true ≡ inl (record { id = lit "b563" })) ↔ (
      ((if true then rules.path_unescape (lit "b563") else inl (lit "b563")) ≡ inl (lit "b563"))
      × (1 ≤ length (lit "b563"))
      × (length (lit "b563") ≤ 50))
decode_order_id_get_params_iff_example =
    decode_order_id_get_params_iff rules rules-IsOgen (lit "b563") (lit "b563") true

abbrev pub a_url : Url
a_url = record { path = lit "/v1/order/b563"; raw_path = [] }

serve_http_iff_example :
    (serve_http rules (lit "/v1") (lit "GET") a_url ≡ handle_order_id_get (lit "b563") false) ↔ (
      (◌≡◌ {A = Text} (lit "GET") (lit "GET"))
      × (is_escaped rules a_url ≡ false)
      × (request_path rules a_url ≡ lit "/v1" ++ (order_path ++ lit "b563"))
      × (contains (lit "b563") slash ≡ false))
serve_http_iff_example = serve_http_iff rules (lit "/v1") (lit "GET") a_url (lit "b563") false

find_path-serve_http_example : find_path rules (lit "/v1") (lit "POST") a_url ≡ (
    if false
    then route_served (serve_http rules (lit "/v1") (lit "POST") a_url)
    else route_served (serve_http rules (lit "/v1") (lit "POST") a_url))
find_path-serve_http_example = find_path-serve_http rules (lit "/v1") (lit "POST") a_url

unfoldable pub never_fails : Json → Option Text
never_fails body = none

decode_response-encode_response_example :
    decode_order_id_get_response trees rules
      (arrived (encode_order_id_get_response trees never_fails (order a_response)).0)
    ≡ client_view rules whole_second (order a_response)
decode_response-encode_response_example =
    decode_response-encode_response trees never_fails rules whole_second trees-IsJx rules-IsOgen
      (order a_response)

decode_response_of_valid_example :
    decode_order_id_get_response trees rules
      (arrived (encode_order_id_get_response trees never_fails (order a_response)).0)
    ≡ ok (order (record a_response { date_created = whole_second an_order.date_created })) tt
unfolding Validators.validate_order Validators.validate_order_main Validators.validate_delivery
    Validators.validate_payment Validators.validate_items Validators.validate_item
    Validators.first_error any_address is_blank
decode_response_of_valid_example =
    decode_response_of_valid trees never_fails rules whole_second trees-IsJx rules-IsOgen
      any_address (pos 7) an_order refl refl

abbrev a_status : StatusResponse
a_status = record { status_code = 503; response = record { message = lit "later" } }
