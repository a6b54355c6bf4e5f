-- ===== src/Api/Client.antt =====
-- order_service/internal/api/oas_client_gen.go: the client of the API. Tracing and metrics are left
-- out. What the client calls of ogen and `net/http` is a record of operations.
pub mod Served
use l0_wb_tech_school.Base.{
  ℕ, ◌⊎◌, inl, inr, List, [], ◌∷◌, Bool, true, false, Option, none, some, Outcome, ok, err, panic,
  Cmd, if◌then◌else◌, ◌==◌, nat_eq,
}
use l0_wb_tech_school.Base.Text.{Text, lit}
use l0_wb_tech_school.Api.Jx.{Jx}
use l0_wb_tech_school.Api.Ogen.{Ogen}
use l0_wb_tech_school.Api.Params.{OrderIdGetParams}
use l0_wb_tech_school.Api.Router.{Url, slash}
use l0_wb_tech_school.Api.Schemas.{OrderResult}
use l0_wb_tech_school.Api.Responses.{Received, ClientError, Answer, decode_order_id_get_response}
use l0_wb_tech_school.Api.Config.{Request}

-- `EncodeValue` of a simple path parameter and the encoder's `Result`, `uri.AddPathParts`,
-- `ht.NewRequest` with its error, and `Client.Do`, which may change what is on the other side.
pub record Network (E Body T : Type 0) : Type 0 where
  pub encode_value : Text → Text ⊎ E
  pub add_path_parts : Url → List Text → Url
  pub new_request : Text → Url → Request ⊎ E
  pub send : Request → Cmd E T (Received E Body)

-- What the error is wrapped with: "encode path", "create request", "do request", "decode response".
pub data SendError (E : Type 0) : Type 0 where
  encode_path create_request do_request : E → SendError E
  decode_response : ClientError E → SendError E

abbrev pub unless_slash : ℕ → Text → Text
unless_slash c [] = if c == slash then [] else c ∷ []
unless_slash c (d ∷ rest) = c ∷ d ∷ rest

-- `strings.TrimRight(s, "/")`
abbrev pub trim_right : Text → Text
trim_right [] = []
trim_right (c ∷ s) = unless_slash c (trim_right s)

-- `trimTrailingSlashes`
abbrev pub trim_trailing_slashes : Url → Url
trim_trailing_slashes u = record { path = trim_right u.path; raw_path = trim_right u.raw_path }

-- `NewClient`, by what `url.Parse` returns, for a configuration that is accepted: the URL of the server.
abbrev pub new_client : {E : Type 0} → Url ⊎ E → Url ⊎ E
new_client (inl u) = inl (trim_trailing_slashes u)
new_client (inr e) = inr e

-- `requestURL`: a URL of the context, if it has one, or that of the server.
abbrev pub request_url : Option Url → Url → Url
request_url none server_url = server_url
request_url (some u) server_url = u

module _ {E T : Type 0} where
  abbrev pub decoded : T → Answer E OrderResult → Outcome (SendError E) T OrderResult
  decoded t (ok r u) = ok r t
  decoded t (err e u) = err (decode_response e) t
  decoded t panic = panic

module _ {V E Body T : Type 0} (jx : Jx V E Body) (ogen : Ogen E) (net : Network E Body T) where
  abbrev pub after_send : Outcome E T (Received E Body) → Outcome (SendError E) T OrderResult
  after_send (ok resp t) = decoded t (decode_order_id_get_response jx ogen resp)
  after_send (err e t) = err (do_request e) t
  after_send panic = panic

  abbrev pub after_request : Request ⊎ E → Cmd (SendError E) T OrderResult
  after_request (inl r) t = after_send (net.send r t)
  after_request (inr e) t = err (create_request e) t

  abbrev pub after_encode : Url → Text ⊎ E → Cmd (SendError E) T OrderResult
  after_encode u (inl encoded) t =
      after_request
        (net.new_request (lit "GET") (net.add_path_parts u (lit "/order/" ∷ encoded ∷ []))) t
  after_encode u (inr e) t = err (encode_path e) t

  -- `sendOrderIDGet`
  unfoldable pub send_order_id_get :
      Url → Option Url → OrderIdGetParams → Cmd (SendError E) T OrderResult
  send_order_id_get server_url override params t =
      after_encode (request_url override server_url) (net.encode_value params.id) t
