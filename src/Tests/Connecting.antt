-- ===== src/Tests/Connecting.antt =====
-- The tries of order_service/pkg/kafka/kafka.go to create a topic.
use l0_wb_tech_school.Base.{ℕ, ◌≡◌, refl, true, false, [], ◌∷◌, ok, err, arith}
use l0_wb_tech_school.Base.Int.{pos}
use l0_wb_tech_school.Base.Text.{lit}
use l0_wb_tech_school.Topic.{
  TopicError, Cluster, create_topic_if_not_exists, retry_loop, create_topic_with_retry,
  create_topic_with_retry-err,
}

abbrev headless : ℕ → Cluster
headless i = record {
  dials = true;
  has_controller = false;
  dials_controller = true;
  creates = true;
}

create_topic_with_retry-err_example :
    (f : TopicError) × (m : ℕ) × (create_topic_if_not_exists
        (lit "kafka" ∷ [])
        (lit "orders")
        2
        (headless 2)
      ≡ err f m)
unfolding create_topic_with_retry retry_loop create_topic_if_not_exists
create_topic_with_retry-err_example =
    create_topic_with_retry-err (lit "kafka" ∷ []) (lit "orders") headless 3 refl 1 (omega arith)

-- Without tries there is no error, and no topic.
no_tries_test : create_topic_with_retry (lit "kafka" ∷ []) (lit "orders") headless (pos 0) ≡ ok tt 0
unfolding create_topic_with_retry retry_loop
no_tries_test = refl
