-- ===== src/Logger.antt =====
-- order_service/pkg/logger/logger.go: the logger that a `context.Context` carries. What
-- `zap.NewProduction` answers is a parameter, and `L` are the loggers that it makes. A call that
-- panics gives no result.
pub mod Laws
use l0_wb_tech_school.Base.{
  ℕ, ◌⊎◌, inl, inr, Bool, List, [], ◌∷◌, ◌++◌, Option, none, some, ok, err, panic, Cmd,
  if◌then◌else◌,
}
use l0_wb_tech_school.Base.Text.{Text, lit, text_beq}

-- What a context may have under a key: a `*Logger`, a string, or something else.
pub data Value (L : Type 0) : Type 0 where
  logger : Option L → Value L
  text : Text → Value L
  other : Value L

-- A context that is nil, or one with its method `Value` on keys of the type `key`.
abbrev pub Values : Type 0 → Type 0
Values L = Text → Option (Value L)

abbrev pub Context : Type 0 → Type 0
Context L = Option (Values L)

abbrev pub key_for_logger : Text
key_for_logger = lit "logger"

abbrev pub key_for_request_id : Text
key_for_request_id = lit "request_id"

-- `context.WithValue` for a context that is not nil.
unfoldable pub with_value : {L : Type 0} → Text → Value L → Values L → Values L
with_value key v values j = if text_beq j key then some v else values j

-- A `zap.Field`: of `zap.String`, `zap.Strings`, `zap.Int` and `zap.Error`.
pub data Field (E : Type 0) : Type 0 where
  string : Text → Text → Field E
  strings : Text → List Text → Field E
  int : Text → ℕ → Field E
  error_field : E → Field E

pub data Level : Type 0 where
  debug info warn error fatal : Level

-- A line that a logger writes.
pub record Line (L E : Type 0) : Type 0 where
  pub writer : L
  pub level : Level
  pub message : Text
  pub fields : List (Field E)

-- `zap`'s `Fatal` ends the program.
pub data Exit : Type 0 where
  exited : Exit

-- `New`: with an error, the context is nil. `context.WithValue` panics where it is given nil.
unfoldable pub new : {L E : Type 0} → E ⊎ L → Cmd E (Context L) (Unit {0})
new (inl e) ctx = err e none
new (inr l) none = panic
new (inr l) (some values) = ok tt (some (with_value key_for_logger (logger (some l)) values))

module _ {L : Type 0} where
  -- The type assertion `.(*Logger)`.
  abbrev pub as_logger : Option (Value L) → Option (Option L)
  as_logger none = none
  as_logger (some (logger l)) = some l
  as_logger (some (text s)) = none
  as_logger (some other) = none

  unfoldable pub get_logger_from_ctx : Context L → Option (Option L)
  get_logger_from_ctx none = none
  get_logger_from_ctx (some values) = as_logger (values key_for_logger)

  abbrev pub append_id : {E : Type 0} → Option (Value L) → List (Field E) → Option (List (Field E))
  append_id none fields = some fields
  append_id (some (text id)) fields = some (fields ++ string key_for_request_id id ∷ [])
  append_id (some (logger l)) fields = none
  append_id (some other) fields = none

  unfoldable pub try_append_request_id_from_context :
      {E : Type 0} → Context L → List (Field E) → Option (List (Field E))
  try_append_request_id_from_context none fields = none
  try_append_request_id_from_context (some values) fields =
      append_id (values key_for_request_id) fields

  -- `logger, _ = NewLogger()`
  abbrev pub made : {E : Type 0} → E ⊎ L → Option L
  made (inl e) = none
  made (inr l) = some l

  abbrev pub made_if_nil : {E : Type 0} → E ⊎ L → Option (Option L) → Option (Option L)
  made_if_nil new_logger none = none
  made_if_nil new_logger (some none) = some (made new_logger)
  made_if_nil new_logger (some (some l)) = some (some l)

  unfoldable pub get_or_create_logger_from_ctx :
      {E : Type 0} → E ⊎ L → Context L → Option (Option L)
  get_or_create_logger_from_ctx new_logger ctx = made_if_nil new_logger (get_logger_from_ctx ctx)

module _ {L E : Type 0} where
  -- The line is written; after a fatal one the program ends.
  abbrev pub written : Line L E → Level → Cmd Exit (List (Line L E)) (Unit {0})
  written line debug log = ok tt (log ++ line ∷ [])
  written line info log = ok tt (log ++ line ∷ [])
  written line warn log = ok tt (log ++ line ∷ [])
  written line error log = ok tt (log ++ line ∷ [])
  written line fatal log = err exited (log ++ line ∷ [])

  -- `l.l` panics where `l` is nil.
  abbrev pub write_fields :
      Level
      → Option (Option L)
      → Text
      → Option (List (Field E))
      → Cmd Exit (List (Line L E)) (Unit {0})
  write_fields level (some (some l)) message (some fields) log =
      written (record { writer = l; level = level; message = message; fields = fields }) level log
  write_fields level (some (some l)) message none log = panic
  write_fields level (some none) message fields log = panic
  write_fields level none message fields log = panic

  -- `Debug`, `Info`, `Warn`, `Error` and `Fatal`, on what a function like `GetLoggerFromCtx` gives.
  unfoldable pub log_at :
      Level
      → Option (Option L)
      → Context L
      → Text
      → List (Field E)
      → Cmd Exit (List (Line L E)) (Unit {0})
  log_at level l ctx message fields =
      write_fields level l message (try_append_request_id_from_context ctx fields)
