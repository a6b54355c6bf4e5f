-- ===== src/Api/Requests/Orders.antt =====
-- What a client of order_service is answered to a GET request for an order.
use mathlib.Core.List.{append-nil}
use l0_wb_tech_school.Base.{
  ◌++◌, panic, sym, ◌∙◌, ◌≤◌, ◌≡◌, refl, ◌⊎◌, inl, inr, Bool, List, [], ◌∷◌, Option, none, some,
  length, ok, arith,
}
use l0_wb_tech_school.Base.Text.{Text, lit}
use l0_wb_tech_school.Service.{OrderCache, OrderStorage, ServiceError, Service}
use l0_wb_tech_school.Handler.{OrderIdGetRes, responded, not_found, error_response, order_id_get}
use l0_wb_tech_school.Api.Jx.{Jx}
use l0_wb_tech_school.Api.Ogen.{Ogen, IsOgen}
use l0_wb_tech_school.Api.Params.{
  ParamError, Params, decode_order_id_get_params, decode_order_id_get_params_iff,
}
use l0_wb_tech_school.Api.Router.{is_escaped}
use l0_wb_tech_school.Api.Schemas.{OrderResult, order, bad_request, not_found as missing, failed}
use l0_wb_tech_school.Api.Responses.{encode_order_id_get_response}
use l0_wb_tech_school.Api.Config.{
  Request, Reply, json, ServerError, params_error, Operation, ServerConfig,
}
use l0_wb_tech_school.Logger.{
  Values, Context, Line, logger, string, info, key_for_logger, with_value, new,
  get_or_create_logger_from_ctx, log_at, get_logger_from_ctx, try_append_request_id_from_context,
}
use l0_wb_tech_school.Logger.Laws.{id_value, id_fields}
use l0_wb_tech_school.Api.LoggingMiddleware.{logging_middleware}
use l0_wb_tech_school.Api.Requests.{
  Errors, answered, handle_order_id_get_request, answer_request, api_result, order_operation,
}
use l0_wb_tech_school.Api.Requests.Answers.{Asks, answer_request-get}

-- The lines that the handler writes on the id of a request, with the id of the request itself.
abbrev pub read_lines :
    {L Err Res : Type 0} → L → Option Text → Text → OrderIdGetRes Res → List (Line L Err)
read_lines l rid id (responded r) =
    record {
      writer = l;
      level = info;
      message = lit "read order by id";
      fields = string (lit "order_uid") id ∷ id_fields rid;
    }
    ∷ []
read_lines l rid id (not_found e) = []
read_lines l rid id (error_response e) = []

module _ {V Err Body : Type 0} (jx : Jx V Err Body) (write : Body → Option Err) (ogen : Ogen Err)
    (lawful : IsOgen ogen) (errors : Errors Err) where
  answered_whole :
      {L S : Type 0} (cfg : ServerConfig L Err Body S) (result : OrderResult) (s : S)
      → write (encode_order_id_get_response jx write result).0.body ≡ none
      → answered jx write ogen errors cfg (ok result s)
        ≡ ok
            (record {
              replies = json (encode_order_id_get_response jx write result).0 ∷ [];
              recorded = [];
            })
            s
  answered_whole cfg (order r) s sent = rw sent
  answered_whole cfg (bad_request r) s sent = rw sent
  answered_whole cfg (missing r) s sent = rw sent
  answered_whole cfg (failed r) s sent = rw sent

  -- A GET request for an id that is empty or has more than 50 characters, its path escaped or not, is
  -- answered by the error handler alone, with the error of the parameter; the operation is not called,
  -- the state stays as it is, and the stage is recorded. It holds for rules and a path decoder of
  -- ogen as documented.
  pub answer_request_bad_id :
      {L S : Type 0} (cfg : ServerConfig L Err Body S) (operation : Operation L Err S)
      (ctx : Context L) (r : Request) (id : Text) (s : S) (handle : ServerError Err → Reply Body)
      → cfg.error_handler ≡ some handle
      → Asks ogen cfg.prefix r id
      → (length id ≡ 0) ⊎ (51 ≤ length id)
      → (e : ParamError Err) × (answer_request jx write ogen errors cfg operation ctx r s
          ≡ ok
              (record {
                replies = handle (params_error e) ∷ [];
                recorded = lit "DecodeParams" ∷ [];
              })
              s)
  unfolding handle_order_id_get_request
  answer_request_bad_id cfg operation ctx r id s handle handles asks bad =
      let (e, refusal) =
        refused (decode_order_id_get_params ogen asks.arg (is_escaped ogen r.url)) (λ p h.
          let (at, lo, hi) =
            (decode_order_id_get_params_iff ogen lawful asks.arg p (is_escaped ogen r.url)).0 h in
          (sym asks.unescaped ∙ at, lo, hi)) in
      (
        e,
        rw (answer_request-get jx write ogen errors cfg operation ctx r id s asks)
            (rw refusal (rw handles refl)),
      )
    where
      out_of_bounds : (length id ≡ 0) ⊎ (51 ≤ length id) → 1 ≤ length id → length id ≤ 50 → ⊥
      out_of_bounds (inl h) lo hi = omega arith
      out_of_bounds (inr h) lo hi = omega arith

      refused :
          (out : Params Err)
          → ((p : Text)
              → out ≡ inl (record { id = p })
              → ((◌≡◌ {A = Text ⊎ Err} (inl id) (inl p)) × (1 ≤ length p) × (length p ≤ 50)))
          → (e : ParamError Err) × (out ≡ inr e)
      refused (inr e) h = (e, refl)
      refused (inl p) h =
          let (same, lo, hi) = h p.id refl in
          let e : id ≡ p.id = cc same in absurd (out_of_bounds bad (rw e lo) (rw e hi))

  module _ {L E F C D : Type 0} (is_not_found : F → Bool) (message : ServiceError E F → Text)
      (as_error : ServiceError E F → Err) (cache : OrderCache E C) (storage : OrderStorage F D)
      (cfg : ServerConfig L Err Body (Service E F C D × List (Line L Err))) where
    -- The handler in the context that the middleware makes.
    order_operation-lem :
        (l : L) (later : Err ⊎ L) (values : Values L) (rid : Option Text) (id : Text)
        (s t : Service E F C D) (log : List (Line L Err))
        (result : OrderIdGetRes (ServiceError E F))
        → values (lit "request_id") ≡ id_value rid
        → order_id_get is_not_found cache storage id s ≡ ok result t
        → order_operation is_not_found message as_error cache storage later
            (some (with_value key_for_logger (logger (some l)) values))
            (record { id = id })
            (s, log)
          ≡ ok (api_result message result) (t, log ++ read_lines l rid id result)
    unfolding order_operation log_at get_or_create_logger_from_ctx get_logger_from_ctx
        try_append_request_id_from_context with_value
    order_operation-lem l later values none id s t log (responded r) has served =
        rw served (rw has refl)
    order_operation-lem l later values (some x) id s t log (responded r) has served =
        rw served (rw has refl)
    order_operation-lem l later values rid id s t log (not_found e) has served =
        rw served (rw append-nil refl)
    order_operation-lem l later values rid id s t log (error_response e) has served =
        rw served (rw append-nil refl)

    pub answer_request-order :
        (l : L) (later : Err ⊎ L) (values : Values L) (rid : Option Text) (r : Request) (id : Text)
        (s t : Service E F C D) (log : List (Line L Err))
        (result : OrderIdGetRes (ServiceError E F))
        → cfg.middleware ≡ some (logging_middleware (inr l) later)
        → values (lit "request_id") ≡ id_value rid
        → Asks ogen cfg.prefix r id
        → 1 ≤ length id
        → length id ≤ 50
        → order_id_get is_not_found cache storage id s ≡ ok result t
        → write (encode_order_id_get_response jx write (api_result message result)).0.body ≡ none
        → answer_request jx write ogen errors cfg
            (order_operation is_not_found message as_error cache storage later)
            (some values)
            r
            (s, log)
          ≡ ok
              (record {
                replies =
                    json (encode_order_id_get_response jx write (api_result message result)).0 ∷ [];
                recorded = [];
              })
              (t, log ++ read_lines l rid id result)
    unfolding handle_order_id_get_request logging_middleware new
    answer_request-order l later values rid r id s t log result logs has asks lo hi served sent =
        let params : decode_order_id_get_params ogen asks.arg (is_escaped ogen r.url)
            ≡ inl (record { id = id }) =
          (decode_order_id_get_params_iff ogen lawful asks.arg id (is_escaped ogen r.url)).1
            (asks.unescaped, lo, hi) in
        let handled = order_operation-lem l later values rid id s t log result has served in
        rw
          (answer_request-get jx write ogen errors cfg
            (order_operation is_not_found message as_error cache storage later) (some values) r id
            (s, log) asks)
          (rw params (rw logs (rw handled (answered_whole cfg _ _ sent))))

  -- Where `zap` makes no logger for a GET request for an order whose id has from 1 to 50 characters,
  -- `LoggingMiddleware` panics: it asks the nil context for a logger to report that. It holds for every
  -- operation, and for rules and a path decoder of ogen as documented.
  pub answer_request-panic :
      {L S : Type 0} (cfg : ServerConfig L Err Body (S × List (Line L Err)))
      (operation : Operation L Err (S × List (Line L Err))) (e : Err) (later : Err ⊎ L)
      (ctx : Context L) (r : Request) (id : Text) (s : S × List (Line L Err))
      → cfg.middleware ≡ some (logging_middleware (inl e) later)
      → Asks ogen cfg.prefix r id
      → 1 ≤ length id
      → length id ≤ 50
      → answer_request jx write ogen errors cfg operation ctx r s ≡ panic
  unfolding handle_order_id_get_request logging_middleware new get_or_create_logger_from_ctx
      get_logger_from_ctx log_at
  answer_request-panic cfg operation e later ctx r id s logs asks lo hi =
      let params : decode_order_id_get_params ogen asks.arg (is_escaped ogen r.url)
          ≡ inl (record { id = id }) =
        (decode_order_id_get_params_iff ogen lawful asks.arg id (is_escaped ogen r.url)).1
          (asks.unescaped, lo, hi) in
      rw (answer_request-get jx write ogen errors cfg operation ctx r id s asks)
        (rw params (rw logs refl))
