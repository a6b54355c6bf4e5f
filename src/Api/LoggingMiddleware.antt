-- ===== src/Api/LoggingMiddleware.antt =====
-- `LoggingMiddleware` of order_service/internal/handlers/httphandlers/middlewares.go, around the
-- operation of the generated server.
use l0_wb_tech_school.Base.{◌⊎◌, List, [], ◌∷◌, Outcome, ok, err, panic, Cmd}
use l0_wb_tech_school.Base.Text.{Text, lit}
use l0_wb_tech_school.Logger.{
  Context, Line, Exit, error, error_field, new, get_or_create_logger_from_ctx, log_at,
}
use l0_wb_tech_school.Api.Config.{Middleware}

module _ {L E : Type 0} (later : E ⊎ L) where
  -- `logger.GetOrCreateLoggerFromCtx(ctx).Error(ctx, message, zap.Error(err))`; `later` is what
  -- `NewLogger` answers there.
  abbrev pub log_error :
      Context L → Text → E → List (Line L E) → Outcome Exit (List (Line L E)) (Unit {0})
  log_error ctx message e log =
      log_at error (get_or_create_logger_from_ctx later ctx) ctx message (error_field e ∷ []) log

module _ {L E S A : Type 0} where
  -- What follows a call of `Error`, which does not end the program.
  abbrev pub after_log :
      Outcome Exit (List (Line L E)) (Unit {0})
      → (List (Line L E) → Outcome E (S × List (Line L E)) A)
      → Outcome E (S × List (Line L E)) A
  after_log (ok u log) next = next log
  after_log (err x log) next = panic
  after_log panic next = panic

module _ {L E S A : Type 0} (later : E ⊎ L) where
  abbrev pub error_logged :
      Context L → Outcome E (S × List (Line L E)) A → Outcome E (S × List (Line L E)) A
  error_logged ctx (ok a t) = ok a t
  error_logged ctx (err e (s, log)) =
      after_log (log_error later ctx (lit "response with error") e log) λ log'. err e (s, log')
  error_logged ctx panic = panic

  abbrev pub with_logger :
      Outcome E (Context L) (Unit {0})
      → (Context L → Cmd E (S × List (Line L E)) A)
      → Cmd E (S × List (Line L E)) A
  with_logger (ok u ctx) next t = error_logged ctx (next ctx t)
  with_logger (err e ctx) next (s, log) =
      after_log (log_error later ctx (lit "error creating logger for request") e log)
        λ log'. error_logged ctx (next ctx (s, log'))
  with_logger panic next t = panic

-- `LoggingMiddleware`: `new_logger` is what `NewLogger` answers in `logger.New`; what is behind it
-- gets the context with the new logger.
unfoldable pub logging_middleware :
    {L E S : Type 0} → E ⊎ L → E ⊎ L → Middleware L E (S × List (Line L E))
logging_middleware new_logger later next ctx params t =
    with_logger later (new new_logger ctx) (λ c. next c params) t
