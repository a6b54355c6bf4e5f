-- ===== src/Logger/Laws.antt =====
-- Which logger order_service/pkg/logger/logger.go finds in a context.
use mathlib.Core.List.{append-nil}
use l0_wb_tech_school.Base.{
  ◌⊎◌, inr, ◌≡◌, ◌↔◌, refl, subst, List, [], ◌∷◌, ◌++◌, Option, none, some, Outcome, ok, err,
}
use l0_wb_tech_school.Base.Text.{Text, lit}
use l0_wb_tech_school.Logger.{
  Value, logger, text, other, Values, Context, key_for_logger, with_value, Field, string, Level,
  debug, info, warn, error, fatal, Line, Exit, exited, new, as_logger, get_logger_from_ctx,
  append_id, try_append_request_id_from_context, made_if_nil, get_or_create_logger_from_ctx,
  written, log_at,
}

-- A request's id as a context has it, and as a line shows it.
abbrev pub id_value : {L : Type 0} → Option Text → Option (Value L)
id_value none = none
id_value (some id) = some (text id)

abbrev pub id_fields : {E : Type 0} → Option Text → List (Field E)
id_fields none = []
id_fields (some id) = string (lit "request_id") id ∷ []

-- How a call ends that has written the log: only a fatal one ends the program.
abbrev pub ends_after :
    {L E : Type 0} → Level → List (Line L E) → Outcome Exit (List (Line L E)) (Unit {0})
ends_after debug log = ok tt log
ends_after info log = ok tt log
ends_after warn log = ok tt log
ends_after error log = ok tt log
ends_after fatal log = err exited log

-- A context with a `*Logger`, which may be nil.
abbrev pub HasLogger : {L : Type 0} → Context L → Type 0
HasLogger none = ⊥
HasLogger {L} (some values) = (p : Option L) × (values (lit "logger") ≡ some (logger p))

as_logger-none :
    {L : Type 0} (found : Option (Value L))
    → (as_logger found ≡ none) ↔ ((p : Option L) × (found ≡ some (logger p)) → ⊥)
as_logger-none none = (λ h (p, e). cc e, λ h. refl)
as_logger-none (some (logger p)) = (λ h. absurd (cc h), λ h. absurd (h (p, refl)))
as_logger-none (some (text s)) = (λ h (p, e). cc e, λ h. refl)
as_logger-none (some other) = (λ h (p, e). cc e, λ h. refl)

appended-id :
    (L : Type 0) {E : Type 0} (rid : Option Text) (fields : List (Field E))
    → append_id {L = L} (id_value rid) fields ≡ some (fields ++ id_fields rid)
appended-id L none fields = rw append-nil refl
appended-id L (some id) fields = refl

module _ {L E : Type 0} where
  made_if_nil-none :
      (new_logger : E ⊎ L) (found : Option (Option L))
      → (made_if_nil new_logger found ≡ none) ↔ (found ≡ none)
  made_if_nil-none new_logger none = (λ h. refl, λ h. refl)
  made_if_nil-none new_logger (some none) = (λ h. absurd (cc h), λ h. absurd (cc h))
  made_if_nil-none new_logger (some (some l)) = (λ h. absurd (cc h), λ h. absurd (cc h))

  -- `GetOrCreateLoggerFromCtx` panics exactly in a context that is nil or has no `*Logger`, whether a
  -- logger could be made or not: it makes none where there is none.
  pub get_or_create_logger_from_ctx_iff :
      (new_logger : E ⊎ L) (ctx : Context L)
      → (get_or_create_logger_from_ctx new_logger ctx ≡ none) ↔ (¬ HasLogger ctx)
  unfolding get_or_create_logger_from_ctx get_logger_from_ctx
  get_or_create_logger_from_ctx_iff new_logger none = (λ h k. k, λ h. refl)
  get_or_create_logger_from_ctx_iff new_logger (some values) =
      let made = made_if_nil-none new_logger (as_logger (values key_for_logger)) in
      let found = as_logger-none (values key_for_logger) in
      (λ h. found.0 (made.0 h), λ h. made.1 (found.1 h))

  log_at-line :
      (level : Level) (l : L) (message : Text) (fields : List (Field E)) (log : List (Line L E))
      → written (record { writer = l; level = level; message = message; fields = fields }) level log
        ≡ ends_after level
            (log ++ record { writer = l; level = level; message = message; fields = fields } ∷ [])
  log_at-line debug l message fields log = refl
  log_at-line info l message fields log = refl
  log_at-line warn l message fields log = refl
  log_at-line error l message fields log = refl
  log_at-line fatal l message fields log = refl

  -- In a context that `New` gives with no error, a message at any level is one more line of the new
  -- logger, with its fields and the id of the request, where the old context has one; the program
  -- ends after it only at the level `fatal`. It holds for an id that is a string.
  pub log_at-new :
      (l : L) (values : Values L) (c : Context L) (rid : Option Text)
      → new {E = E} (inr l) (some values) ≡ ok tt c
      → values (lit "request_id") ≡ id_value rid
      → (level : Level) (message : Text) (fields : List (Field E)) (log : List (Line L E))
      → log_at level (get_logger_from_ctx c) c message fields log
        ≡ ends_after level (
            log
            ++ record {
              writer = l;
              level = level;
              message = message;
              fields = fields ++ id_fields rid;
            }
              ∷ [])
  unfolding new get_logger_from_ctx log_at try_append_request_id_from_context with_value
  log_at-new l values c rid h has level message fields log =
      let same : some (with_value key_for_logger (logger (some l)) values) ≡ c = cc h in
      subst
        (λ x.
          log_at level (get_logger_from_ctx x) x message fields log
          ≡ ends_after level (
              log
              ++ record {
                writer = l;
                level = level;
                message = message;
                fields = fields ++ id_fields rid;
              }
                ∷ []))
        same
        (rw has (
          rw (appended-id L rid fields)
            (log_at-line level l message (fields ++ id_fields rid) log)))
