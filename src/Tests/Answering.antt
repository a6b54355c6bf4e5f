-- ===== src/Tests/Answering.antt =====
-- The server and the client of order_service/internal/api over the service of Serving.
use l0_wb_tech_school.Base.{
  ℕ, inr, some, ◌≡◌, refl, inl, arith, false, List, [], ◌∷◌, ◌++◌, none, ok, err, panic,
}
use l0_wb_tech_school.Base.Int.{pos}
use l0_wb_tech_school.Base.Text.{Text, lit}
use l0_wb_tech_school.Models.{Order}
use l0_wb_tech_school.Lru
use l0_wb_tech_school.Lru.{CacheError, Cache, new_cache}
use l0_wb_tech_school.Service.{Service, ServiceError, get_order, save_order}
use l0_wb_tech_school.Service.Laws.{lru_cache}
use l0_wb_tech_school.Handler.{responded, order_id_get}
use l0_wb_tech_school.Api.Responses.RoundTrip.{arrived, client_view}
use l0_wb_tech_school.Api.Config.{
  Reply, json, bare, ServerError, params_error, Operation, Middleware, ServerConfig, with_not_found,
  with_middleware, with_path_prefix, with_max_multipart_memory, new_server_config,
}
use l0_wb_tech_school.Api.Client.{Network, decoded, send_order_id_get}
use l0_wb_tech_school.Api.Client.Served.{IsConnected, send_order_id_get-order}
use l0_wb_tech_school.Base.{Outcome, err, ap}
use l0_wb_tech_school.Api.Config.{Request}
use l0_wb_tech_school.Logger.{Line}
use l0_wb_tech_school.Tests.Logging.{a_context}
use l0_wb_tech_school.Api.LoggingMiddleware.{logging_middleware}
use l0_wb_tech_school.Api.Requests.{Handling}
use l0_wb_tech_school.Api.Responses.{Received}
use l0_wb_tech_school.Api.Config.Defaults.{new_server_config-IsReady}
use l0_wb_tech_school.Api.Params.{ParamError}
use l0_wb_tech_school.Api.Requests.{Errors, api_result, order_operation, answer_request}
use l0_wb_tech_school.Api.Requests.Answers.{Asks, Replied, answer_request-Replied}
use l0_wb_tech_school.Api.Requests.Orders.{read_lines, answer_request_bad_id, answer_request-panic}
use l0_wb_tech_school.Tests.Json.{Json, whole_second, trees, trees-IsJx, rules, rules-IsOgen}
use l0_wb_tech_school.Tests.Serving.{TableError, list_storage, saved, served, is_missing}
use l0_wb_tech_school.Tests.Coding.{a_response, a_url, never_fails}

abbrev Logged : Type 0
Logged = Service CacheError TableError (Cache Text Order) (List Order) × List (Line ℕ Text)

-- Middlewares one behind the other.
abbrev pub in_turn : List (Middleware ℕ Text Logged) → Middleware ℕ Text Logged
in_turn [] operation = operation
in_turn (m ∷ ms) operation = m (in_turn ms operation)

abbrev pub say_bad_request : ServerError Text → Reply Json
say_bad_request e = bare 400 []

abbrev a_config : ServerConfig ℕ Text Json Logged
a_config = new_server_config in_turn say_bad_request (
    with_not_found none
    ∷ with_max_multipart_memory (pos 0)
    ∷ with_path_prefix (lit "/v1")
    ∷ with_middleware (logging_middleware (inr 0) (inr 0) ∷ [])
    ∷ [])

abbrev pub no_errors : Errors Text
no_errors = record {
  into_status = λ e. none;
  is_not_implemented = λ e. false;
  is_internal_response = λ e. false;
  new_error = λ e. record { status_code = 500; response = record { message = e } };
}

abbrev pub say : ServiceError CacheError TableError → Text
say e = lit "no order"

abbrev an_operation : Operation ℕ Text Logged
an_operation = order_operation is_missing say say lru_cache list_storage (inr 0)

abbrev pub id_b563 : Text
id_b563 = lit "b563"

abbrev a_request : Request
a_request = record { method = lit "GET"; url = a_url }

a_request-Asks : Asks rules (lit "/v1") a_request id_b563
a_request-Asks = record { arg = id_b563; get = refl; path = refl; leaf = refl; unescaped = refl }

abbrev no_id_request : Request
no_id_request = record {
  method = lit "GET";
  url = record { path = lit "/v1/order/"; raw_path = [] };
}

no_id_request-Asks : Asks rules (lit "/v1") no_id_request []
no_id_request-Asks = record { arg = []; get = refl; path = refl; leaf = refl; unescaped = refl }

answer_request_bad_id_example :
    (e : ParamError Text) × (answer_request trees never_fails rules no_errors a_config an_operation
        (some a_context)
        no_id_request
        (saved, [])
      ≡ ok
          (record {
            replies = say_bad_request (params_error e) ∷ [];
            recorded = lit "DecodeParams" ∷ [];
          })
          (saved, []))
unfolding new_server_config
answer_request_bad_id_example =
    answer_request_bad_id trees never_fails rules rules-IsOgen no_errors a_config an_operation
      (some a_context) no_id_request [] (saved, []) say_bad_request refl no_id_request-Asks
      (inl refl)

-- No logger is made for a request.
abbrev blind_config : ServerConfig ℕ Text Json Logged
blind_config = record a_config {
  middleware = some (logging_middleware (inl (lit "no sink")) (inr 0));
}

answer_request-panic_example :
    answer_request trees never_fails rules no_errors blind_config an_operation
      (some a_context)
      a_request
      (saved, [])
    ≡ panic
unfolding new_server_config
answer_request-panic_example =
    answer_request-panic trees never_fails rules rules-IsOgen no_errors blind_config an_operation
      (lit "no sink") (inr 0) (some a_context) a_request id_b563 (saved, []) refl a_request-Asks
      (omega arith) (omega arith)

-- A network that hands a request to the server as it is.
abbrev first_reply : List (Reply Json) → Logged → Outcome Text Logged (Received Text Json)
first_reply [] t = err (lit "no reply") t
first_reply (json resp ∷ more) t = ok (arrived resp) t
first_reply (bare code headers ∷ more) t = err (lit "no JSON") t

abbrev to_client : Outcome Text Logged (Handling Json) → Outcome Text Logged (Received Text Json)
to_client (ok h t) = first_reply h.replies t
to_client (err e t) = err e t
to_client panic = panic

abbrev joined : List Text → Text
joined [] = []
joined (s ∷ ss) = s ++ joined ss

direct : Network Text Json Logged
direct = record {
  encode_value = λ s. inl s;
  add_path_parts = λ u parts. record u { path = u.path ++ joined parts };
  new_request = λ method u. inl (record { method = method; url = u });
  send = λ r s.
      to_client (
        answer_request trees never_fails rules no_errors a_config an_operation (some a_context) r
          s);
}

direct-IsConnected :
    IsConnected trees never_fails rules no_errors a_config an_operation
      (some a_context)
      (λ r. r)
      direct
unfolding direct
direct-IsConnected = record { delivered = λ r s t resp h. ap to_client h }

send_order_id_get-order_example :
    send_order_id_get trees rules direct
      (record { path = lit "/v1"; raw_path = [] })
      none
      (record { id = id_b563 })
      (saved, [])
    ≡ decoded
        (
          served,
          read_lines {Res = ServiceError CacheError TableError} 0
              (some (lit "r7"))
              id_b563
              (responded a_response),
        )
        (client_view rules whole_second (api_result say (responded a_response)))
unfolding direct new_server_config never_fails order_id_get get_order Lru.get save_order
    list_storage new_cache
send_order_id_get-order_example =
    send_order_id_get-order trees never_fails rules no_errors whole_second trees-IsJx rules-IsOgen
      is_missing say say lru_cache list_storage a_config (λ r. r) direct 0 (inr 0) a_context
      (some (lit "r7")) (record { path = lit "/v1"; raw_path = [] }) a_request id_b563 id_b563 saved
      served [] (responded a_response) direct-IsConnected refl refl refl a_request-Asks refl
      (omega arith) (omega arith) refl refl

-- An operation that finds no order.
abbrev no_order : Operation ℕ Text Logged
no_order ctx params s = err (lit "no order") s

abbrev plain_config : ServerConfig ℕ Text Json Logged
plain_config = new_server_config in_turn say_bad_request []

answer_request-Replied_example : Replied (
    answer_request trees never_fails rules no_errors plain_config no_order
      (some a_context)
      (record { method = lit "PATCH"; url = a_url })
      (saved, []))
unfolding new_server_config
answer_request-Replied_example =
    answer_request-Replied trees never_fails rules no_errors plain_config
      (new_server_config-IsReady in_turn say_bad_request []) no_order (some a_context)
      (record { method = lit "PATCH"; url = a_url }) (saved, []) (λ p h. cc)
