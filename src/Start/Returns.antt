-- ===== src/Start/Returns.antt =====
-- When `main` of order_service/cmd/main.go gets to run its server.
use l0_wb_tech_school.Base.{
  ℕ, true, inr, ◌≡◌, ◌≢◌, refl, List, [], ◌∷◌, ◌++◌, none, some, Outcome, ok, err, panic,
}
use l0_wb_tech_school.Base.Text.{Text, lit}
use l0_wb_tech_school.Models.{Order}
use l0_wb_tech_school.Lru.{CacheError, Cache}
use l0_wb_tech_school.Service.{OrderStorage, ServiceError, Service, cache_last_orders}
use l0_wb_tech_school.Service.Laws.{lru_cache}
use l0_wb_tech_school.Logger.{
  info, string, strings, Line, logger, with_value, key_for_logger, new, get_logger_from_ctx,
  get_or_create_logger_from_ctx, log_at, try_append_request_id_from_context,
}
use l0_wb_tech_school.Topic.{TopicError, create_topic_if_not_exists}
use l0_wb_tech_school.Api.Config.{Reply, ServerError, Middleware}
use l0_wb_tech_school.Start.{
  ready, Settings, Answers, Served, Running, new_order_service, background, after_filling, start_up,
}

module _ {L E : Type 0} (l : L) where
  abbrev connected : Line L E
  connected = record {
    writer = l;
    level = info;
    message = lit "connected to postgres";
    fields = [];
  }

  abbrev reads : Settings → Line L E
  reads settings = record {
    writer = l;
    level = info;
    message = lit "connected to Kafka topic";
    fields =
        strings (lit "brokers") settings.brokers
        ∷ string (lit "topic") settings.kafka_topic
        ∷ string (lit "group_id") settings.kafka_group_id
        ∷ [];
  }

module _ {L E F D : Type 0} (service_error : ServiceError CacheError F → E) (l : L)
    (limit : ℕ) where
  after_filling-ok :
      (out : Outcome
        (ServiceError CacheError F)
        (Service CacheError F (Cache Text Order) D)
        (Unit {0}))
      (log : List (Line L E))
      → out ≢ panic
      → (s : Service CacheError F (Cache Text Order) D) × (log' : List (Line L E)) × (after_filling
            service_error
            (some (with_value key_for_logger (logger (some l)) background))
            limit
            out
            log
          ≡ ok s log')
  unfolding log_at get_logger_from_ctx try_append_request_id_from_context with_value
  after_filling-ok (ok u s) log h = (s, log, refl)
  after_filling-ok (err e s) log h = (s, _, refl)
  after_filling-ok panic log h = absurd (h refl)

module _ {L E F D Body : Type 0} (Raw : Type 0) (topic_error : TopicError → E)
    (service_error : ServiceError CacheError F → E) (storage : OrderStorage F D)
    (arrange : List Order → List Order)
    (chain : List (Middleware L E (Served L E F D)) → Middleware L E (Served L E F D))
    (default_error_handler : ServerError E → Reply Body) (answers : Answers L E D) where
  -- Where the logger, the configuration, the pool, the topic, the reader and the server are had, `main`
  -- gets to run its server, whether `CacheLastOrders` returns an error or not.
  pub start_up-ok :
      (l : L) (settings : Settings) (d : D) (n : ℕ) (log : List (Line L E))
      → answers.logger ≡ inr l
      → answers.settings ≡ inr settings
      → answers.pool ≡ inr d
      → create_topic_if_not_exists settings.brokers settings.kafka_topic 1 answers.cluster ≡ ok tt n
      → answers.reader_made ≡ true
      → answers.server_failure ≡ none
      → cache_last_orders lru_cache storage arrange settings.cached_orders_on_startup_count
          (new_order_service settings.cache_capacity d)
        ≢ panic
      → (running : Running L E F D Raw Body) × (log' : List (Line L E)) × (start_up topic_error
            service_error storage arrange chain default_error_handler answers log
          ≡ ok running log')
  unfolding start_up new log_at get_logger_from_ctx get_or_create_logger_from_ctx
      try_append_request_id_from_context with_value
  start_up-ok l settings d n log made read pooled topic reader served fills =
      let (s, log', filled) =
        after_filling-ok service_error l settings.cached_orders_on_startup_count
          (cache_last_orders lru_cache storage arrange settings.cached_orders_on_startup_count
            (new_order_service settings.cache_capacity d))
          ((log ++ connected l ∷ []) ++ reads l settings ∷ []) fills in
      (
        ready topic_error service_error storage arrange chain default_error_handler answers settings
            s,
        log',
        rw made (rw read (rw pooled (rw topic (rw reader (rw filled (rw served refl)))))),
      )
