-- ===== src/Api/Client/Served.antt =====
-- The client of order_service/internal/api/oas_client_gen.go, connected to the server.
use l0_wb_tech_school.Base.{
  ◌++◌, ◌⊎◌, inr, Bool, ◌≤◌, ◌≡◌, refl, inl, List, [], ◌∷◌, Option, none, some, length, ok,
}
use l0_wb_tech_school.Base.Text.{Text, lit}
use l0_wb_tech_school.Models.{Time}
use l0_wb_tech_school.Service.{OrderCache, OrderStorage, ServiceError, Service}
use l0_wb_tech_school.Handler.{OrderIdGetRes, order_id_get}
use l0_wb_tech_school.Api.Jx.{Jx, IsJx}
use l0_wb_tech_school.Api.Ogen.{Ogen, IsOgen}
use l0_wb_tech_school.Api.Router.{Url}
use l0_wb_tech_school.Api.Responses.{HttpResponse, encode_order_id_get_response}
use l0_wb_tech_school.Api.Responses.RoundTrip.{
  arrived, client_view, decode_response-encode_response,
}
use l0_wb_tech_school.Api.Config.{Request, json, Operation, ServerConfig}
use l0_wb_tech_school.Logger.{Values, Context, Line}
use l0_wb_tech_school.Logger.Laws.{id_value}
use l0_wb_tech_school.Api.LoggingMiddleware.{logging_middleware}
use l0_wb_tech_school.Api.Requests.{Errors, answer_request, api_result, order_operation}
use l0_wb_tech_school.Api.Requests.Answers.{Asks}
use l0_wb_tech_school.Api.Requests.Orders.{read_lines, answer_request-order}
use l0_wb_tech_school.Api.Client.{Network, decoded, send_order_id_get}

module _ {V E Body : Type 0} (jx : Jx V E Body) (write : Body → Option E) (ogen : Ogen E)
    (errors : Errors E) where
  -- The network is connected to a server: a request arrives as `arrives` says, and if the server
  -- writes one response to it, that response arrives at the client, and the server has stepped.
  pub record IsConnected {L S : Type 0} (cfg : ServerConfig L E Body S)
      (operation : Operation L E S) (ctx : Context L) (arrives : Request → Request)
      (net : Network E Body S) : Type 0 where
    pub delivered :
        (r : Request) (s t : S) (resp : HttpResponse Body)
        → answer_request jx write ogen errors cfg operation ctx (arrives r) s
          ≡ ok (record { replies = json resp ∷ []; recorded = [] }) t
        → net.send r s ≡ ok (arrived resp) t

  module _ (to_second : Time → Time) (jx_lawful : IsJx jx to_second) (ogen_lawful : IsOgen ogen)
      {L Err F C D : Type 0} (is_not_found : F → Bool) (message : ServiceError Err F → Text)
      (as_error : ServiceError Err F → E) (cache : OrderCache Err C) (storage : OrderStorage F D)
      (cfg : ServerConfig L E Body (Service Err F C D × List (Line L E)))
      (arrives : Request → Request)
      (net : Network E Body (Service Err F C D × List (Line L E))) where
    -- A client that asks a server with `LoggingMiddleware` for an order whose id has from 1 to 50
    -- characters gets its own view of what the server's handler gives for that id: the order, its date
    -- to the second, if its validator accepts it, and the message of the error otherwise; the service
    -- is left as the handler leaves it, and the log has one more line if an order was found. It holds
    -- for a network connected to that server on which the id's path is encoded, sent and decoded to
    -- that id, where the logger of the request is made, the id of the request is a string if it has
    -- one, and the response can be written, and for jx and ogen as documented.
    pub send_order_id_get-order :
        (l : L) (later : E ⊎ L) (values : Values L) (rid : Option Text) (base : Url) (r : Request)
        (id encoded : Text) (s t : Service Err F C D) (log : List (Line L E))
        (result : OrderIdGetRes (ServiceError Err F))
        → IsConnected cfg
            (order_operation is_not_found message as_error cache storage later)
            (some values)
            arrives
            net
        → values (lit "request_id") ≡ id_value rid
        → net.encode_value id ≡ inl encoded
        → net.new_request (lit "GET") (net.add_path_parts base (lit "/order/" ∷ encoded ∷ []))
          ≡ inl r
        → Asks ogen cfg.prefix (arrives r) id
        → cfg.middleware ≡ some (logging_middleware (inr l) later)
        → 1 ≤ length id
        → length id ≤ 50
        → order_id_get is_not_found cache storage id s ≡ ok result t
        → write (encode_order_id_get_response jx write (api_result message result)).0.body ≡ none
        → send_order_id_get jx ogen net base none (record { id = id }) (s, log)
          ≡ decoded
              (t, log ++ read_lines l rid id result)
              (client_view ogen to_second (api_result message result))
    unfolding send_order_id_get
    send_order_id_get-order l later values rid base r id encoded s t log result connects has encodes
          asked asks logs lo hi served sent =
        let answered =
          answer_request-order jx write ogen ogen_lawful errors is_not_found message as_error cache
            storage cfg l later values rid (arrives r) id s t log result logs has asks lo hi served
            sent in
        let delivered =
          connects.delivered r (s, log) (t, log ++ read_lines l rid id result)
            (encode_order_id_get_response jx write (api_result message result)).0 answered in
        rw encodes (
          rw asked (
            rw delivered (
              rw
                (decode_response-encode_response jx write ogen to_second jx_lawful ogen_lawful
                  (api_result message result))
                refl)))
