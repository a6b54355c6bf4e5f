-- ===== src/Tests/Starting.antt =====
-- A start of order_service/cmd/main.go with an order in the storage, and a request for it.
use l0_wb_tech_school.Base.{ℕ, inr, ◌≡◌, refl, true, List, [], ◌∷◌, none, ok}
use l0_wb_tech_school.Base.Int.{pos}
use l0_wb_tech_school.Base.Text.{Text, lit, text_eq}
use l0_wb_tech_school.Models.{Order}
use l0_wb_tech_school.Heap.{new_node, set_next, write, load}
use l0_wb_tech_school.LinkedList.{get_index, insert, move_to_first}
use l0_wb_tech_school.Lru
use l0_wb_tech_school.Lru.{CacheError, Cache, new_cache}
use l0_wb_tech_school.Service.{Service, get_order, cache_last_orders, run_sets}
use l0_wb_tech_school.Service.Laws.{lru_cache}
use l0_wb_tech_school.Service.Turns.{left}
use l0_wb_tech_school.Logger.{Line, info, string, strings}
use l0_wb_tech_school.Topic.{TopicError, create_topic_if_not_exists}
use l0_wb_tech_school.Api.Config.{Request}
use l0_wb_tech_school.Start.{Settings, Answers, Running, new_order_service, ready, start_up}
use l0_wb_tech_school.Start.Returns.{start_up-ok}
use l0_wb_tech_school.Tests.Validating.{an_order}
use l0_wb_tech_school.Tests.Json.{Json}
use l0_wb_tech_school.Tests.Serving.{TableError, list_storage}
use l0_wb_tech_school.Tests.Answering.{in_turn, say_bad_request, say, id_b563}

abbrev some_settings : Settings
some_settings = record {
  brokers = lit "kafka" ∷ [];
  kafka_topic = lit "orders";
  kafka_group_id = lit "order_service";
  cache_capacity = pos 2;
  cached_orders_on_startup_count = 5;
  max_save_retries_amount = pos 3;
  max_save_retries_capacity = 10;
  save_backoff = pos 1;
}

abbrev all_well : Answers ℕ Text (List Order)
all_well = record {
  logger = inr 1;
  settings = inr some_settings;
  pool = inr (an_order ∷ []);
  cluster = record { dials = true; has_controller = true; dials_controller = true; creates = true };
  reader_made = true;
  server_failure = none;
  request_logger = inr 2;
  later_logger = inr 3;
}

abbrev no_topic : TopicError → Text
no_topic e = lit "no topic"

abbrev a_service : Service CacheError TableError (Cache Text Order) (List Order)
a_service =
    let start = new_order_service {F = TableError} (pos 2) (an_order ∷ []) in
    left (cache_last_orders lru_cache list_storage (λ orders. orders) 5 start) start

abbrev running : Running ℕ Text TableError (List Order) ℕ Json
running =
    ready no_topic say list_storage (λ orders. orders) in_turn say_bad_request all_well
      some_settings a_service

abbrev connected : Line ℕ Text
connected = record { writer = 1; level = info; message = lit "connected to postgres"; fields = [] }

abbrev reads : Line ℕ Text
reads = record {
  writer = 1;
  level = info;
  message = lit "connected to Kafka topic";
  fields =
      strings (lit "brokers") (lit "kafka" ∷ [])
      ∷ string (lit "topic") (lit "orders")
      ∷ string (lit "group_id") (lit "order_service")
      ∷ [];
}

abbrev then_served : Service CacheError TableError (Cache Text Order) (List Order)
then_served = left (get_order lru_cache list_storage id_b563 a_service) a_service

abbrev for_b563 : Request
for_b563 = record { method = lit "GET"; url = record { path = lit "/order/b563"; raw_path = [] } }

-- The storage and the server are had; the answer of `CacheLastOrders` is computed.
start_up-ok_example :
    (r : Running ℕ Text TableError (List Order) ℕ Json) × (log : List (Line ℕ Text)) × (start_up
        no_topic say list_storage
        (λ orders. orders)
        in_turn
        say_bad_request
        all_well
        []
      ≡ ok r log)
unfolding create_topic_if_not_exists cache_last_orders list_storage run_sets new_cache Lru.set
    get_index insert move_to_first new_node set_next write load
start_up-ok_example =
    start_up-ok ℕ no_topic say list_storage (λ orders. orders) in_turn say_bad_request all_well 1
      some_settings (an_order ∷ []) 1 [] refl refl refl refl refl refl (λ e. cc e)
