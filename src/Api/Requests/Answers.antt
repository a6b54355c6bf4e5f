-- ===== src/Api/Requests/Answers.antt =====
-- What a client of order_service is answered, from the request line to the service and back.
use l0_wb_tech_school.Base.{
  if◌then◌else◌, inl, ◌≡◌, ◌≢◌, refl, inl, inr, false, List, [], ◌∷◌, ◌++◌, Option, none, some,
  Outcome, ok, err, panic, Bool-cases,
}
use l0_wb_tech_school.Base.Text.{Text, lit}
use l0_wb_tech_school.Logger.{Context}
use l0_wb_tech_school.Api.Jx.{Jx}
use l0_wb_tech_school.Api.Ogen.{Ogen}
use l0_wb_tech_school.Api.Params.{OrderIdGetParams, Params, decode_order_id_get_params}
use l0_wb_tech_school.Api.Router.{
  request_path, is_escaped, Routed, handle_order_id_get, not_allowed, not_found, contains, slash,
  serve_http,
}
use l0_wb_tech_school.Api.Router.Paths.{order_path, serve_http_iff}
use l0_wb_tech_school.Api.Schemas.{OrderResult, StatusResponse}
use l0_wb_tech_school.Api.Responses.{
  HttpResponse, EncodeError, encode_order_id_get_response, encode_error_response,
}
use l0_wb_tech_school.Api.Config.{
  Request, Reply, json, ServerError, params_error, not_implemented, encode_failed, Operation,
  ServerConfig,
}
use l0_wb_tech_school.Api.Config.Defaults.{IsReady}
use l0_wb_tech_school.Api.Requests.{
  Handling, Errors, is_internal, report_to, error_sent, replied, refused, result_sent, other_error,
  status_or_other, answered, hooked, with_params, handle_order_id_get_request, route,
  answer_request,
}

-- A GET request for the order `id`: its path ends in `arg`, which is the id, escaped or not.
pub record Asks {E : Type 0} (ogen : Ogen E) (prefix : Text) (r : Request) (id : Text)
    : Type 0 where
  pub arg : Text
  pub get : r.method ≡ lit "GET"
  pub path : request_path ogen r.url ≡ prefix ++ (order_path ++ arg)
  pub leaf : contains arg slash ≡ false
  pub unescaped : (if is_escaped ogen r.url then ogen.path_unescape arg else inl arg) ≡ inl id

-- The call returns, and at least one reply is written.
abbrev pub Replied {ℓ} : {E Body : Type 0} {S : Type ℓ} → Outcome E S (Handling Body) → Type 0
Replied (ok h t) = h.replies ≢ []
Replied (err e t) = ⊥
Replied panic = ⊥

append-ne-nil : {A : Type 0} (xs : List A) (x : A) → xs ++ x ∷ [] ≢ []
append-ne-nil [] x = λ h. cc
append-ne-nil (y ∷ xs) x = λ h. cc

module _ {E Body S : Type 0} where
  report_to-Replied :
      (handler : Option (ServerError E → Reply Body)) (e : ServerError E)
      (before : List (Reply Body)) (stages : List Text) (s : S)
      → handler ≢ none
      → Replied (report_to handler e before stages s)
  report_to-Replied none e before stages s ready = absurd (ready refl)
  report_to-Replied (some handle) e before stages s ready = append-ne-nil before (handle e)

  error_sent-Replied :
      (sent : HttpResponse Body × Option (EncodeError E)) (s : S) → Replied (error_sent sent s)
  error_sent-Replied (resp, none) s = λ h. cc
  error_sent-Replied (resp, some e) s = λ h. cc

module _ (E : Type 0) {Body S : Type 0} where
  replied-Replied :
      (r : Request) (handler : Option (Request → Reply Body)) (s : S)
      → handler ≢ none
      → Replied (replied {E = E} r handler s)
  replied-Replied r none s ready = absurd (ready refl)
  replied-Replied r (some handle) s ready = λ h. cc

  refused-Replied :
      (r : Request) (allowed : Text) (handler : Option (Request → Text → Reply Body)) (s : S)
      → handler ≢ none
      → Replied (refused {E = E} r allowed handler s)
  refused-Replied r allowed none s ready = absurd (ready refl)
  refused-Replied r allowed (some handle) s ready = λ h. cc

module _ {V L E Body S : Type 0} (jx : Jx V E Body) (write : Body → Option E) (ogen : Ogen E)
    (errors : Errors E) (cfg : ServerConfig L E Body S) where
  pub answer_request-get :
      (operation : Operation L E S) (ctx : Context L) (r : Request) (id : Text) (s : S)
      (asks : Asks ogen cfg.prefix r id)
      → answer_request jx write ogen errors cfg operation ctx r s
        ≡ handle_order_id_get_request jx write ogen errors cfg operation ctx asks.arg
            (is_escaped ogen r.url)
            s
  unfolding answer_request
  answer_request-get operation ctx r id s asks =
      let routed =
        (serve_http_iff ogen cfg.prefix r.method r.url asks.arg (is_escaped ogen r.url)).1
          (asks.get, refl, asks.path, asks.leaf) in
      rw routed refl

  module _ (ready : IsReady cfg) where
    result_sent-Replied :
        (sent : HttpResponse Body × Option (EncodeError E)) (s : S)
        → Replied (result_sent jx write ogen errors cfg sent s)
    result_sent-Replied (resp, none) s = λ h. cc
    result_sent-Replied (resp, some e) s = elim (Bool-cases (is_internal errors e)) [
      | inl internal ↦ rw internal (λ h. cc)
      | inr other ↦ rw other (
          report_to-Replied cfg.error_handler (encode_failed e) (json resp ∷ [])
            (lit "EncodeResponse" ∷ []) s ready.reports)
    ]

    other_error-Replied : (e : E) (s : S) → Replied (other_error jx write ogen errors cfg e s)
    other_error-Replied e s = elim (Bool-cases (errors.is_not_implemented e)) [
      | inl unimplemented ↦
          rw unimplemented
            (report_to-Replied cfg.error_handler (not_implemented e) [] [] s ready.reports)
      | inr other ↦
          rw other (error_sent-Replied (encode_error_response jx write (errors.new_error e)) s)
    ]

    answered-Replied :
        (out : Outcome E S OrderResult)
        → out ≢ panic
        → Replied (answered jx write ogen errors cfg out)
    answered-Replied (ok response s) h =
        result_sent-Replied (encode_order_id_get_response jx write response) s
    answered-Replied (err e s) h = by_status (errors.into_status e)
      where
        by_status :
            (o : Option StatusResponse) → Replied (status_or_other jx write ogen errors cfg e o s)
        by_status none = other_error-Replied e s
        by_status (some r) = error_sent-Replied (encode_error_response jx write r) s
    answered-Replied panic h = absurd (h refl)

    with_params-Replied :
        (operation : Operation L E S) (ctx : Context L) (params : Params E) (s : S)
        → ((p : OrderIdGetParams)
            → hooked jx write ogen errors cfg cfg.middleware operation ctx p s ≢ panic)
        → Replied (with_params jx write ogen errors cfg operation ctx params s)
    with_params-Replied operation ctx (inl p) s h = answered-Replied _ (h p)
    with_params-Replied operation ctx (inr e) s h =
        report_to-Replied cfg.error_handler (params_error e) [] (lit "DecodeParams" ∷ []) s
          ready.reports

    -- A server whose functions for what is not found, for what is not allowed and for errors are not
    -- nil returns from every request with at least one reply written, whatever its method and path, if
    -- its operation behind the middleware does not panic from the state at hand.
    pub answer_request-Replied :
        (operation : Operation L E S) (ctx : Context L) (r : Request) (s : S)
        → ((p : OrderIdGetParams)
            → hooked jx write ogen errors cfg cfg.middleware operation ctx p s ≢ panic)
        → Replied (answer_request jx write ogen errors cfg operation ctx r s)
    unfolding answer_request handle_order_id_get_request
    answer_request-Replied operation ctx r s h =
        by_route (serve_http ogen cfg.prefix r.method r.url)
      where
        by_route :
            (routed : Routed) → Replied (route jx write ogen errors cfg operation ctx r routed s)
        by_route (handle_order_id_get arg escaped) =
            with_params-Replied operation ctx (decode_order_id_get_params ogen arg escaped) s h
        by_route (not_allowed allowed) =
            refused-Replied E r allowed cfg.method_not_allowed s ready.refuses
        by_route not_found = replied-Replied E r cfg.not_found s ready.finds
