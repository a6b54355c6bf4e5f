-- ===== src/Api/Config.antt =====
-- order_service/internal/api/oas_cfg_gen.go: the configuration of the server and its options. Tracing
-- and metrics are left out. A function that may be nil is an `Option`.
pub mod Defaults
use l0_wb_tech_school.Base.{
  ℕ, Bool, true, false, List, [], ◌∷◌, Option, none, some, Cmd, if◌then◌else◌,
}
use l0_wb_tech_school.Base.Int.{ℤ, pos, ltb_ℤ}
use l0_wb_tech_school.Base.Text.{Text, lit, text_beq}
use l0_wb_tech_school.Api.Params.{OrderIdGetParams, ParamError}
use l0_wb_tech_school.Logger.{Context}
use l0_wb_tech_school.Api.Router.{Url}
use l0_wb_tech_school.Api.Schemas.{OrderResult}
use l0_wb_tech_school.Api.Responses.{HttpResponse, EncodeError}

pub record Request : Type 0 where
  pub method : Text
  pub url : Url

-- What is written to an `http.ResponseWriter`: JSON, or a status and headers.
pub data Reply (Body : Type 0) : Type 0 where
  json : HttpResponse Body → Reply Body
  bare : ℕ → List (Text × Text) → Reply Body

-- What the error handler is called with.
pub data ServerError (E : Type 0) : Type 0 where
  params_error : ParamError E → ServerError E
  not_implemented : E → ServerError E
  encode_failed : EncodeError E → ServerError E

-- `Handler.OrderIDGet` in a context, and what wraps it.
abbrev pub Operation : Type 0 → Type 0 → Type 0 → Type 0
Operation L E S = Context L → OrderIdGetParams → Cmd E S OrderResult

abbrev pub Middleware : Type 0 → Type 0 → Type 0 → Type 0
Middleware L E S = Operation L E S → Operation L E S

pub record ServerConfig (L E Body S : Type 0) : Type 0 where
  pub not_found : Option (Request → Reply Body)
  pub method_not_allowed : Option (Request → Text → Reply Body)
  pub error_handler : Option (ServerError E → Reply Body)
  pub prefix : Text
  pub middleware : Option (Middleware L E S)
  pub max_multipart_memory : ℤ

-- `WithNotFound` and the others. A path prefix may be empty, a list of middlewares too.
pub data ServerOption (L E Body S : Type 0) : Type 0 where
  with_not_found : Option (Request → Reply Body) → ServerOption L E Body S
  with_method_not_allowed : Option (Request → Text → Reply Body) → ServerOption L E Body S
  with_error_handler : Option (ServerError E → Reply Body) → ServerOption L E Body S
  with_path_prefix : Text → ServerOption L E Body S
  with_middleware : List (Middleware L E S) → ServerOption L E Body S
  with_max_multipart_memory : ℤ → ServerOption L E Body S

-- `if x != nil { cfg.F = x }`
abbrev pub unless_nil : {A : Type 0} → Option A → Option A → Option A
unless_nil none old = old
unless_nil (some x) old = some x

-- The default for a method that is not allowed.
abbrev pub refuse_method : {Body : Type 0} → Request → Text → Reply Body
refuse_method r allowed =
    if text_beq r.method (lit "OPTIONS")
    then bare 204 (
        (lit "Access-Control-Allow-Methods", allowed)
        ∷ (lit "Access-Control-Allow-Headers", lit "Content-Type")
        ∷ [])
    else bare 405 ((lit "Allow", allowed) ∷ [])

-- `chain` is `middleware.ChainMiddlewares`. The default error handler is that of ogen, and of
-- `http.NotFound` the model keeps the status.
module _ {L E S : Type 0} (chain : List (Middleware L E S) → Middleware L E S) where
  abbrev pub chosen : List (Middleware L E S) → Option (Middleware L E S)
  chosen [] = none
  chosen (m ∷ []) = some m
  chosen (m ∷ n ∷ more) = some (chain (m ∷ n ∷ more))

module _ {L E Body S : Type 0} (chain : List (Middleware L E S) → Middleware L E S) where
  unfoldable pub apply_server :
      ServerOption L E Body S → ServerConfig L E Body S → ServerConfig L E Body S
  apply_server (with_not_found h) cfg = record cfg { not_found = unless_nil h cfg.not_found }
  apply_server (with_method_not_allowed h) cfg = record cfg {
    method_not_allowed = unless_nil h cfg.method_not_allowed;
  }
  apply_server (with_error_handler h) cfg = record cfg {
    error_handler = unless_nil h cfg.error_handler;
  }
  apply_server (with_path_prefix p) cfg = record cfg { prefix = p }
  apply_server (with_middleware ms) cfg = record cfg { middleware = chosen chain ms }
  apply_server (with_max_multipart_memory max) cfg = record cfg {
    max_multipart_memory = if ltb_ℤ (pos 0) max then max else cfg.max_multipart_memory;
  }

  unfoldable pub apply_all :
      List (ServerOption L E Body S) → ServerConfig L E Body S → ServerConfig L E Body S
  apply_all [] cfg = cfg
  apply_all (opt ∷ opts) cfg = apply_all opts (apply_server opt cfg)

  -- `newServerConfig`
  unfoldable pub new_server_config :
      (ServerError E → Reply Body) → List (ServerOption L E Body S) → ServerConfig L E Body S
  unfolding apply_all apply_server
  new_server_config default_error_handler opts = apply_all opts (record {
    not_found = some (λ r. bare 404 []);
    method_not_allowed = some refuse_method;
    error_handler = some default_error_handler;
    prefix = [];
    middleware = none;
    max_multipart_memory = pos 33554432;
  })
