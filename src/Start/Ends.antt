-- ===== src/Start/Ends.antt =====
-- The service that `main` of order_service/cmd/main.go starts, on every path on which it gets there.
use l0_wb_tech_school.Base.{
  ℕ, ◌≡◌, refl, subst, List, [], some, Outcome, ok, err, panic, Cmd, and_then, pure,
}
use l0_wb_tech_school.Base.Text.{Text, lit, text_eq}
use l0_wb_tech_school.Models.{Order}
use l0_wb_tech_school.Lru.{CacheError, Cache}
use l0_wb_tech_school.Service.{OrderStorage, ServiceError, Service, cache_last_orders}
use l0_wb_tech_school.Service.Laws.{lru_cache}
use l0_wb_tech_school.Service.Turns.{Arranged, left, Reaches, filling, here, ◌then◌}
use l0_wb_tech_school.Logger.{new, info, Context, Line, Exit}
use l0_wb_tech_school.Topic.{TopicError, create_topic_if_not_exists}
use l0_wb_tech_school.Api.Config.{Reply, ServerError, Middleware}
use l0_wb_tech_school.Start.{
  new_reader, ready, Settings, Answers, Served, Running, new_order_service, context_of, say,
  or_fatal, of_tried, failure_of, then_goes_on, background, after_filling, new_server, with_service,
  with_topic, with_pool, with_settings, with_context, start_up,
}

module _ {S A : Type 0} (P : A → Type 0) where
  -- Where the program goes on, it does so with what keeps `P`.
  abbrev pub Ends : Outcome Exit S A → Type 0
  Ends (ok a s) = P a
  Ends (err x s) = Unit
  Ends panic = Unit

  and_then-Ends :
      {B : Type 0} (x : Outcome Exit S B) (k : B → Cmd Exit S A)
      → ((b : B) (s : S) → Ends (k b s))
      → Ends (and_then x k)
  and_then-Ends (ok b s) k h = h b s
  and_then-Ends (err x s) k h = tt
  and_then-Ends panic k h = tt

  pub Ends-ok : {x : Outcome Exit S A} {a : A} {s : S} → Ends x → x ≡ ok a s → P a
  Ends-ok h e = subst Ends e h

Ends-mono :
    {S A : Type 0} {P Q : A → Type 0}
    → ((a : A) → P a → Q a)
    → (x : Outcome Exit S A) → Ends P x
    → Ends Q x
Ends-mono f (ok a s) h = f a h
Ends-mono f (err x s) h = tt
Ends-mono f panic h = tt

then_goes_on-Ends :
    {S A : Type 0} (a : A) (out : Outcome Exit S (Unit {0}))
    → Ends (λ b. a ≡ b) (then_goes_on a out)
then_goes_on-Ends a (ok u s) = refl
then_goes_on-Ends a (err x s) = tt
then_goes_on-Ends a panic = tt

module _ {L E F D : Type 0} (service_error : ServiceError CacheError F → E)
    (storage : OrderStorage F D) (arrange : List Order → List Order) (limit : ℕ)
    (start : Service CacheError F (Cache Text Order) D) where
  after_filling-Ends :
      (ctx : Context L)
      (out : Outcome
        (ServiceError CacheError F)
        (Service CacheError F (Cache Text Order) D)
        (Unit {0}))
      (log : List (Line L E))
      → Ends (λ s. left out start ≡ s) (after_filling service_error ctx limit out log)
  after_filling-Ends ctx (ok u s) log = refl
  after_filling-Ends ctx (err e s) log = then_goes_on-Ends s _
  after_filling-Ends ctx panic log = tt

module _ {L E F D Body : Type 0} (Raw : Type 0) (topic_error : TopicError → E)
    (service_error : ServiceError CacheError F → E) (storage : OrderStorage F D)
    (arrange : List Order → List Order)
    (arranges : (orders : List Order) → Arranged orders (arrange orders))
    (chain : List (Middleware L E (Served L E F D)) → Middleware L E (Served L E F D))
    (default_error_handler : ServerError E → Reply Body) (answers : Answers L E D) where
  -- A service with an empty cache and no goroutines, after the filling.
  abbrev pub Begun : Running L E F D Raw Body → Type 0
  Begun running =
      (settings : Settings) × (d : D) × Reaches lru_cache storage
        (new_order_service settings.cache_capacity d) running.service
      × (running.server ≡ new_server chain default_error_handler answers)

  with_service-Ends :
      (ctx : Context L) (settings : Settings) (d : D)
      (service : Service CacheError F (Cache Text Order) D) (log : List (Line L E))
      → Reaches lru_cache storage (new_order_service settings.cache_capacity d) service
      → Ends Begun (
          with_service topic_error service_error storage arrange chain default_error_handler answers
            ctx settings service log)
  with_service-Ends ctx settings d service log run =
      and_then-Ends Begun
        (or_fatal ctx (lit "failed to create http server") (failure_of answers.server_failure) log)
        (λ u. pure (
          ready topic_error service_error storage arrange chain default_error_handler answers
            settings service))
        λ u log'. (settings, d, run, refl)

  filled-Ends :
      (ctx : Context L) (settings : Settings) (d : D)
      (out : Outcome Exit (List (Line L E)) (Service CacheError F (Cache Text Order) D))
      → Ends (λ s. Reaches lru_cache storage (new_order_service settings.cache_capacity d) s) out
      → Ends Begun (
          and_then out (
            with_service topic_error service_error storage arrange chain default_error_handler
              answers ctx settings))
  filled-Ends ctx settings d (ok s log) run = with_service-Ends ctx settings d s log run
  filled-Ends ctx settings d (err x log) run = tt
  filled-Ends ctx settings d panic run = tt

  with_topic-Ends :
      (ctx : Context L) (settings : Settings) (d : D) (u : Unit {0}) (log : List (Line L E))
      → Ends Begun (
          with_topic topic_error service_error storage arrange chain default_error_handler answers
            ctx settings d u log)
  with_topic-Ends ctx settings d u log =
      let start = new_order_service {F = F} settings.cache_capacity d in
      let limit = settings.cached_orders_on_startup_count in
      let out = cache_last_orders lru_cache storage arrange limit start in
      filled-Ends ctx settings d (after_filling service_error ctx limit out log) (
        Ends-mono
          (λ s e.
            subst (Reaches lru_cache storage start) e (here then filling arrange limit arranges))
          (after_filling service_error ctx limit out log)
          (after_filling-Ends service_error storage arrange limit start ctx out log))

  with_pool-Ends :
      (ctx : Context L) (settings : Settings) (d : D) (log : List (Line L E))
      → Ends Begun (
          with_pool topic_error service_error storage arrange chain default_error_handler answers
            ctx settings d log)
  with_pool-Ends ctx settings d log =
      and_then-Ends Begun
        (and_then
          (and_then (say info ctx (lit "connected to postgres") [] log) λ u.
            of_tried topic_error ctx
              (create_topic_if_not_exists settings.brokers settings.kafka_topic 1 answers.cluster))
          λ u. new_reader answers.later_logger answers.reader_made ctx settings)
        (with_topic topic_error service_error storage arrange chain default_error_handler answers
          ctx settings d)
        (with_topic-Ends ctx settings d)

  pub start_up-Ends :
      (log : List (Line L E))
      → Ends Begun (
          start_up {Raw = Raw} {Body = Body} topic_error service_error storage arrange chain
            default_error_handler answers log)
  unfolding start_up
  start_up-Ends log =
      and_then-Ends Begun (context_of (new answers.logger (some background)) log)
        (with_context topic_error service_error storage arrange chain default_error_handler answers)
        λ ctx log.
          and_then-Ends Begun (or_fatal ctx (lit "failed to load config") answers.settings log)
            (with_settings topic_error service_error storage arrange chain default_error_handler
              answers ctx)
            λ settings log.
              and_then-Ends Begun
                (or_fatal ctx (lit "failed to connect to postgres") answers.pool log)
                (with_pool topic_error service_error storage arrange chain default_error_handler
                  answers ctx settings)
                λ d log. with_pool-Ends ctx settings d log
