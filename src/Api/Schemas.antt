-- ===== src/Api/Schemas.antt =====
-- order_service/internal/api/oas_schemas_gen.go, but for the types that Handler has: the responses
-- with a message, and the optional text.
use l0_wb_tech_school.Base.{ℕ, Bool, true, false, if◌then◌else◌, []}
use l0_wb_tech_school.Base.Text.{Text}
use l0_wb_tech_school.Handler.{OptString, OrderResponse}

pub record BadRequestErrorResponse : Type 0 where
  pub message : Text

pub record ErrorResponse : Type 0 where
  pub message : Text

pub record NotFoundErrorResponse : Type 0 where
  pub message : Text

-- The types that `OrderIDGetRes` is implemented by.
pub data OrderResult : Type 0 where
  order : OrderResponse → OrderResult
  bad_request : BadRequestErrorResponse → OrderResult
  not_found : NotFoundErrorResponse → OrderResult
  failed : ErrorResponse → OrderResult

pub record StatusResponse : Type 0 where
  pub status_code : ℕ
  pub response : ErrorResponse

abbrev pub new_opt : Text → OptString
new_opt v = record { value = v; is_set = true }

-- `Reset` leaves the zero value.
abbrev pub opt_reset : OptString
opt_reset = record { value = []; is_set = false }

-- `Get` returns the value and whether it is set, the zero value if not.
abbrev pub opt_get : OptString → Text × Bool
opt_get o = if o.is_set then (o.value, true) else ([], false)

-- `Or`
abbrev pub opt_or : OptString → Text → Text
opt_or o d = if (opt_get o).1 then (opt_get o).0 else d
