-- ===== src/Tests/Logging.antt =====
-- The loggers of order_service/pkg/logger/logger.go in contexts with a request's id.
use l0_wb_tech_school.Base.{inr, ℕ, ◌≡◌, refl, none, some, ok, [], ◌∷◌, ◌↔◌, if◌then◌else◌}
use l0_wb_tech_school.Base.Text.{Text, lit, text_beq}
use l0_wb_tech_school.Logger.{
  Field, string, text, logger, Values, Context, key_for_logger, with_value, info, new,
  get_logger_from_ctx, get_or_create_logger_from_ctx, log_at,
}
use l0_wb_tech_school.Logger.Laws.{HasLogger, get_or_create_logger_from_ctx_iff, log_at-new}

abbrev pub a_context : Values ℕ
a_context key = if text_beq key (lit "request_id") then some (text (lit "r7")) else none

-- A logger could be made, and the context has none.
get_or_create_logger_from_ctx_iff_example :
    (get_or_create_logger_from_ctx {E = Text} (inr 4) (some a_context) ≡ none)
    ↔ (¬ HasLogger (some a_context))
get_or_create_logger_from_ctx_iff_example =
    get_or_create_logger_from_ctx_iff (inr 4) (some a_context)

abbrev with_logger_4 : Context ℕ
with_logger_4 = some (with_value key_for_logger (logger (some 4)) a_context)

abbrev an_id : Field Text
an_id = string (lit "request_id") (lit "r7")

log_at-new_example :
    log_at {E = Text} info (get_logger_from_ctx with_logger_4) with_logger_4 (lit "saved") [] []
    ≡ ok tt (record { writer = 4; level = info; message = lit "saved"; fields = an_id ∷ [] } ∷ [])
unfolding new
log_at-new_example =
    log_at-new 4 a_context with_logger_4 (some (lit "r7")) refl refl info (lit "saved") [] []
