-- ===== src/Api/Requests.antt =====
-- How order_service answers an HTTP request: `handleOrderIDGetRequest` of
-- order_service/internal/api/oas_handlers_gen.go behind the router and the middleware, and the
-- operation that the handler gives. Tracing and
-- metrics are left out, but for the stages at which an error is recorded.
pub mod Answers
pub mod Orders
use l0_wb_tech_school.Base.{
  ℕ, ◌⊎◌, inl, inr, Bool, true, false, List, [], ◌∷◌, ◌++◌, Option, none, some, Outcome, ok, err,
  panic, Cmd, and_then, if◌then◌else◌,
}
use l0_wb_tech_school.Base.Text.{Text, lit}
use l0_wb_tech_school.Service.{OrderCache, OrderStorage, ServiceError, Service}
use l0_wb_tech_school.Handler.{
  OrderIdGetRes, responded, not_found, error_response, ErrorResponseStatusCode, order_id_get,
  new_error,
}
use l0_wb_tech_school.Logger.{Context, Line, string, info, get_or_create_logger_from_ctx, log_at}
use l0_wb_tech_school.Api.LoggingMiddleware.{after_log}
use l0_wb_tech_school.Api.Jx.{Jx}
use l0_wb_tech_school.Api.Ogen.{Ogen}
use l0_wb_tech_school.Api.Params.{OrderIdGetParams, Params, decode_order_id_get_params}
use l0_wb_tech_school.Api.Router.{
  Routed, handle_order_id_get, not_allowed, not_found as no_route, serve_http,
}
use l0_wb_tech_school.Api.Schemas.{
  OrderResult, order, not_found as missing_order, failed, StatusResponse,
}
use l0_wb_tech_school.Api.Responses.{
  HttpResponse, EncodeError, write_error, internal_response, encode_order_id_get_response,
  encode_error_response,
}
use l0_wb_tech_school.Api.Config.{
  Request, Reply, json, ServerError, params_error, not_implemented, encode_failed, Operation,
  Middleware, ServerConfig,
}

-- The replies that are written in turn, and the stages recorded as errors.
pub record Handling (Body : Type 0) : Type 0 where
  pub replies : List (Reply Body)
  pub recorded : List Text

-- What is asked of an error of the operation: `errors.Into[*ErrorResponseStatusCode]`, and `errors.Is`
-- of `ht.ErrNotImplemented` and of `ht.ErrInternalServerErrorResponse`; and `Handler.NewError`.
pub record Errors (E : Type 0) : Type 0 where
  pub into_status : E → Option StatusResponse
  pub is_not_implemented : E → Bool
  pub is_internal_response : E → Bool
  pub new_error : E → StatusResponse

module _ {E : Type 0} (errors : Errors E) where
  -- `errors.Is(err, ht.ErrInternalServerErrorResponse)`
  abbrev pub is_internal : EncodeError E → Bool
  is_internal (write_error e) = errors.is_internal_response e
  is_internal (internal_response code) = true

module _ {E Body S : Type 0} where
  -- A call of the error handler, which is a panic where it is nil.
  abbrev pub report_to :
      Option (ServerError E → Reply Body)
      → ServerError E
      → List (Reply Body)
      → List Text
      → Cmd E S (Handling Body)
  report_to none e before stages s = panic
  report_to (some handle) e before stages s =
      ok (record { replies = before ++ handle e ∷ []; recorded = stages }) s

  -- `encodeErrorResponse(…)` and `defer recordError("Internal", err)`
  abbrev pub error_sent : HttpResponse Body × Option (EncodeError E) → Cmd E S (Handling Body)
  error_sent (resp, none) s = ok (record { replies = json resp ∷ []; recorded = [] }) s
  error_sent (resp, some e) s =
      ok (record { replies = json resp ∷ []; recorded = lit "Internal" ∷ [] }) s

  abbrev pub replied : Request → Option (Request → Reply Body) → Cmd E S (Handling Body)
  replied r none s = panic
  replied r (some handle) s = ok (record { replies = handle r ∷ []; recorded = [] }) s

  abbrev pub refused :
      Request → Text → Option (Request → Text → Reply Body) → Cmd E S (Handling Body)
  refused r allowed none s = panic
  refused r allowed (some handle) s =
      ok (record { replies = handle r allowed ∷ []; recorded = [] }) s

module _ {V L E Body S : Type 0} (jx : Jx V E Body) (write : Body → Option E) (ogen : Ogen E)
    (errors : Errors E) (cfg : ServerConfig L E Body S) where
  abbrev pub result_sent : HttpResponse Body × Option (EncodeError E) → Cmd E S (Handling Body)
  result_sent (resp, none) s = ok (record { replies = json resp ∷ []; recorded = [] }) s
  result_sent (resp, some e) s =
      if is_internal errors e
      then ok (record { replies = json resp ∷ []; recorded = lit "EncodeResponse" ∷ [] }) s
      else report_to cfg.error_handler (encode_failed e) (json resp ∷ [])
          (lit "EncodeResponse" ∷ []) s

  abbrev pub other_error : E → Cmd E S (Handling Body)
  other_error e s =
      if errors.is_not_implemented e
      then report_to cfg.error_handler (not_implemented e) [] [] s
      else error_sent (encode_error_response jx write (errors.new_error e)) s

  abbrev pub status_or_other : E → Option StatusResponse → Cmd E S (Handling Body)
  status_or_other e none s = other_error e s
  status_or_other e (some r) s = error_sent (encode_error_response jx write r) s

  -- What follows the operation's return.
  abbrev pub answered : Outcome E S OrderResult → Outcome E S (Handling Body)
  answered (ok response s) = result_sent (encode_order_id_get_response jx write response) s
  answered (err e s) = status_or_other e (errors.into_status e) s
  answered panic = panic

  -- `if m := s.cfg.Middleware; m != nil`
  abbrev pub hooked : Option (Middleware L E S) → Operation L E S → Operation L E S
  hooked none operation = operation
  hooked (some m) operation = m operation

  abbrev pub with_params : Operation L E S → Context L → Params E → Cmd E S (Handling Body)
  with_params operation ctx (inl params) s = answered (hooked cfg.middleware operation ctx params s)
  with_params operation ctx (inr e) s =
      report_to cfg.error_handler (params_error e) [] (lit "DecodeParams" ∷ []) s

  -- `handleOrderIDGetRequest`; `ctx` is the context of the request.
  unfoldable pub handle_order_id_get_request :
      Operation L E S → Context L → Text → Bool → Cmd E S (Handling Body)
  handle_order_id_get_request operation ctx arg args_escaped s =
      with_params operation ctx (decode_order_id_get_params ogen arg args_escaped) s

  abbrev pub route : Operation L E S → Context L → Request → Routed → Cmd E S (Handling Body)
  route operation ctx r (handle_order_id_get arg escaped) s =
      handle_order_id_get_request operation ctx arg escaped s
  route operation ctx r (not_allowed allowed) s = refused r allowed cfg.method_not_allowed s
  route operation ctx r no_route s = replied r cfg.not_found s

  -- `ServeHTTP`
  unfoldable pub answer_request : Operation L E S → Context L → Request → Cmd E S (Handling Body)
  unfolding handle_order_id_get_request
  answer_request operation ctx r s =
      route operation ctx r (serve_http ogen cfg.prefix r.method r.url) s

-- `OrderIDGet` as the server calls it: the messages are those of `Error()`, and the state has the log.
module _ {E F : Type 0} (message : ServiceError E F → Text) where
  abbrev pub api_result : OrderIdGetRes (ServiceError E F) → OrderResult
  api_result (responded r) = order r
  api_result (not_found e) = missing_order (record { message = message e })
  api_result (error_response e) =
      failed (record { message = lit "couldn't get order: " ++ message e })

module _ {E F : Type 0} (is_not_found : F → Bool) (message : ServiceError E F → Text) where
  -- `NewError` as the server calls it.
  abbrev pub status_response : ServiceError E F → StatusResponse
  status_response e = record {
    status_code = (new_error is_not_found e).status_code;
    response = record { message = message e };
  }

  module _ {L Err C D : Type 0} (as_error : ServiceError E F → Err) where
    -- `logger.GetOrCreateLoggerFromCtx(ctx).Info(ctx, "read order by id", …)` where an order was found;
    -- `later` is what `NewLogger` answers there.
    abbrev pub with_log :
        Err ⊎ L
        → Context L
        → Text
        → List (Line L Err)
        → Outcome (ServiceError E F) (Service E F C D) (OrderIdGetRes (ServiceError E F))
        → Outcome Err (Service E F C D × List (Line L Err)) OrderResult
    with_log later ctx id log (ok (responded r) t) =
        after_log
          (log_at info (get_or_create_logger_from_ctx later ctx) ctx (lit "read order by id")
            (string (lit "order_uid") id ∷ []) log)
          λ log'. ok (order r) (t, log')
    with_log later ctx id log (ok (not_found e) t) = ok (api_result message (not_found e)) (t, log)
    with_log later ctx id log (ok (error_response e) t) =
        ok (api_result message (error_response e)) (t, log)
    with_log later ctx id log (err e t) = err (as_error e) (t, log)
    with_log later ctx id log panic = panic

    unfoldable pub order_operation :
        OrderCache E C
        → OrderStorage F D
        → Err ⊎ L
        → Operation L Err (Service E F C D × List (Line L Err))
    order_operation cache storage later ctx params (s, log) =
        with_log later ctx params.id log (order_id_get is_not_found cache storage params.id s)
