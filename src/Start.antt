-- ===== src/Start.antt =====
-- `main` of order_service/cmd/main.go up to where the server and the receiver run: it ends the program
-- at the first thing that fails, but for `CacheLastOrders`. What the connections answer is a parameter.
pub mod Ends
pub mod Ready
pub mod Returns
use l0_wb_tech_school.Base.{
  ℕ, Bool, true, false, ◌⊎◌, inl, inr, List, [], ◌∷◌, Option, none, some, Outcome, ok, err, panic,
  Cmd, and_then, ◌>>=◌, ◌>>◌, pure,
}
use l0_wb_tech_school.Base.Int.{ℤ}
use l0_wb_tech_school.Base.Text.{Text, lit}
use l0_wb_tech_school.Models.{Time, Order}
use l0_wb_tech_school.Lru.{CacheError, Cache, new_cache}
use l0_wb_tech_school.Receiver.{Receiver, new_receiver}
use l0_wb_tech_school.Service.{OrderStorage, ServiceError, Service, cache_last_orders}
use l0_wb_tech_school.Service.Laws.{lru_cache}
use l0_wb_tech_school.Logger.{
  Values, Context, Field, string, strings, int, error_field, Level, info, error, fatal, Line, Exit,
  exited, new, get_logger_from_ctx, get_or_create_logger_from_ctx, log_at,
}
use l0_wb_tech_school.Topic.{TopicError, Cluster, Tried, create_topic_if_not_exists}
use l0_wb_tech_school.Api.Config.{
  Reply, ServerError, Middleware, ServerConfig, with_middleware, new_server_config,
}
use l0_wb_tech_school.Api.LoggingMiddleware.{logging_middleware}

-- What `main` uses of the configuration. The sizes of channels and queries are not negative.
pub record Settings : Type 0 where
  pub brokers : List Text
  pub kafka_topic : Text
  pub kafka_group_id : Text
  pub cache_capacity : ℤ
  pub cached_orders_on_startup_count : ℕ
  pub max_save_retries_amount : ℤ
  pub max_save_retries_capacity : ℕ
  pub save_backoff : Time

-- What `NewLogger`, `config.TryRead`, `postgres.New`, the cluster and `api.NewServer` answer, whether
-- the client of Kafka makes a reader, which panics otherwise, and what `NewLogger` answers in a
-- request and in `GetOrCreateLoggerFromCtx`.
pub record Answers (L E D : Type 0) : Type 0 where
  pub logger : E ⊎ L
  pub settings : E ⊎ Settings
  pub pool : E ⊎ D
  pub cluster : Cluster
  pub reader_made : Bool
  pub server_failure : Option E
  pub request_logger : E ⊎ L
  pub later_logger : E ⊎ L

abbrev pub Served : Type 0 → Type 0 → Type 0 → Type 0 → Type 0
Served L E F D = Service CacheError F (Cache Text Order) D × List (Line L E)

pub record Running (L E F D Raw Body : Type 0) : Type 0 where
  pub service : Service CacheError F (Cache Text Order) D
  pub receiver : Receiver Raw Order
  pub server : ServerConfig L E Body (Served L E F D)

-- `NewOrderService`, with `NewOrderCacheAdapterInMemoryLRU`.
abbrev pub new_order_service : {F D : Type 0} → ℤ → D → Service CacheError F (Cache Text Order) D
new_order_service capacity d = record {
  cache = new_cache capacity;
  storage = d;
  pending = [];
  log = [];
}

-- A context with neither key, also that of a request.
abbrev pub background : {L : Type 0} → Values L
background key = none

abbrev pub Main : Type 0 → Type 0 → Type 0 → Type 0
Main L E A = Cmd Exit (List (Line L E)) A

abbrev pub failure_of : {E : Type 0} → Option E → E ⊎ Unit {0}
failure_of none = inr tt
failure_of (some e) = inl e

module _ {L E : Type 0} where
  -- `ctx, _ = logger.New(ctx)`
  abbrev pub context_of : Outcome E (Context L) (Unit {0}) → Main L E (Context L)
  context_of (ok u ctx) log = ok ctx log
  context_of (err e ctx) log = ok ctx log
  context_of panic log = panic

  -- `logger.GetLoggerFromCtx(ctx).Info(ctx, …)` and the like.
  abbrev pub say : Level → Context L → Text → List (Field E) → Main L E (Unit {0})
  say level ctx message fields = log_at level (get_logger_from_ctx ctx) ctx message fields

  -- Behind `Fatal` nothing runs.
  abbrev pub exits :
      {A : Type 0} → Outcome Exit (List (Line L E)) (Unit {0}) → Outcome Exit (List (Line L E)) A
  exits (ok u log) = err exited log
  exits (err x log) = err x log
  exits panic = panic

  abbrev pub or_fatal : {A : Type 0} → Context L → Text → E ⊎ A → Main L E A
  or_fatal ctx message (inr a) log = ok a log
  or_fatal ctx message (inl e) log = exits (say fatal ctx message (error_field e ∷ []) log)

  abbrev pub of_tried : (TopicError → E) → Context L → Tried → Main L E (Unit {0})
  of_tried topic_error ctx (ok u n) log = ok tt log
  of_tried topic_error ctx (err e n) log =
      exits
        (say fatal ctx (lit "failed to create topic kafka") (error_field (topic_error e) ∷ []) log)
  of_tried topic_error ctx panic log = panic

-- `kafka.NewReader`
abbrev pub new_reader : {L E : Type 0} → E ⊎ L → Bool → Context L → Settings → Main L E (Unit {0})
new_reader later false ctx settings log = panic
new_reader later true ctx settings log =
    log_at info (get_or_create_logger_from_ctx later ctx) ctx (lit "connected to Kafka topic")
      (strings (lit "brokers") settings.brokers
        ∷ string (lit "topic") settings.kafka_topic
        ∷ string (lit "group_id") settings.kafka_group_id
        ∷ [])
      log

abbrev pub then_goes_on : {S A : Type 0} → A → Outcome Exit S (Unit {0}) → Outcome Exit S A
then_goes_on a (ok u s) = ok a s
then_goes_on a (err x s) = err x s
then_goes_on a panic = panic

module _ {L E F D : Type 0} (service_error : ServiceError CacheError F → E) where
  -- An error of `CacheLastOrders` is logged, and the service runs.
  abbrev pub after_filling :
      Context L
      → ℕ
      → Outcome (ServiceError CacheError F) (Service CacheError F (Cache Text Order) D) (Unit {0})
      → Main L E (Service CacheError F (Cache Text Order) D)
  after_filling ctx limit (ok u s) log = ok s log
  after_filling ctx limit (err e s) log = then_goes_on s (
      say error ctx (lit "failed to cache last orders")
        (error_field (service_error e) ∷ int (lit "limit") limit ∷ []) log)
  after_filling ctx limit panic log = panic

module _ {L E F D Body : Type 0}
    (chain : List (Middleware L E (Served L E F D)) → Middleware L E (Served L E F D))
    (default_error_handler : ServerError E → Reply Body) (answers : Answers L E D) where
  -- `api.NewServer(…, api.WithMiddleware(httphandlers.LoggingMiddleware()))`
  abbrev pub new_server : ServerConfig L E Body (Served L E F D)
  new_server =
      new_server_config chain default_error_handler
        (with_middleware (logging_middleware answers.request_logger answers.later_logger ∷ []) ∷ [])

module _ {L E F D Raw Body : Type 0} (topic_error : TopicError → E)
    (service_error : ServiceError CacheError F → E) (storage : OrderStorage F D)
    (arrange : List Order → List Order)
    (chain : List (Middleware L E (Served L E F D)) → Middleware L E (Served L E F D))
    (default_error_handler : ServerError E → Reply Body) (answers : Answers L E D) where
  abbrev pub ready : Settings → Service CacheError F (Cache Text Order) D → Running L E F D Raw Body
  ready settings service = record {
    service = service;
    receiver =
        new_receiver settings.max_save_retries_amount settings.max_save_retries_capacity
          settings.save_backoff;
    server = new_server chain default_error_handler answers;
  }

  abbrev pub with_service :
      Context L
      → Settings
      → Service CacheError F (Cache Text Order) D
      → Main L E (Running L E F D Raw Body)
  with_service ctx settings service =
      or_fatal ctx (lit "failed to create http server") (failure_of answers.server_failure) >>= λ u.
      pure (ready settings service)

  abbrev pub with_topic : Context L → Settings → D → Unit {0} → Main L E (Running L E F D Raw Body)
  with_topic ctx settings d u =
      after_filling service_error ctx settings.cached_orders_on_startup_count (
        cache_last_orders lru_cache storage arrange settings.cached_orders_on_startup_count
          (new_order_service settings.cache_capacity d))
      >>= with_service ctx settings

  abbrev pub with_pool : Context L → Settings → D → Main L E (Running L E F D Raw Body)
  with_pool ctx settings d =
      say info ctx (lit "connected to postgres") []
      >> of_tried topic_error ctx
          (create_topic_if_not_exists settings.brokers settings.kafka_topic 1 answers.cluster)
      >> new_reader answers.later_logger answers.reader_made ctx settings
      >>= with_topic ctx settings d

  abbrev pub with_settings : Context L → Settings → Main L E (Running L E F D Raw Body)
  with_settings ctx settings =
      or_fatal ctx (lit "failed to connect to postgres") answers.pool >>= with_pool ctx settings

  abbrev pub with_context : Context L → Main L E (Running L E F D Raw Body)
  with_context ctx =
      or_fatal ctx (lit "failed to load config") answers.settings >>= with_settings ctx

  unfoldable pub start_up : Main L E (Running L E F D Raw Body)
  start_up = context_of (new answers.logger (some background)) >>= with_context
