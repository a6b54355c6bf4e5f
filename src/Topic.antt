-- ===== src/Topic.antt =====
-- `CreateTopicIfNotExists` and `CreateTopicWithRetry` of order_service/pkg/kafka/kafka.go. What the
-- cluster answers to the calls of a try is a parameter.
use l0_wb_tech_school.Base.{
  ℕ, zero, suc, ◌+◌, ◌<◌, ◌≡◌, refl, subst, arith, Bool, Option, none, some, List, [], ◌∷◌, Outcome,
  ok, err, panic, if◌then◌else◌,
}
use l0_wb_tech_school.Base.Int.{ℤ, pos, pos_part}
use l0_wb_tech_school.Base.Text.{Text, text_beq}

pub data TopicError : Type 0 where
  empty_name dial_failed no_controller controller_dial_failed creation_failed : TopicError

-- Whether `kafka.Dial`, `Controller`, the second `Dial` and `CreateTopics` succeed.
pub record Cluster : Type 0 where
  pub dials : Bool
  pub has_controller : Bool
  pub dials_controller : Bool
  pub creates : Bool

-- The result of one try; the state is the number of tries so far.
abbrev pub Tried : Type 0
Tried = Outcome TopicError ℕ (Unit {0})

abbrev pub all_calls : ℕ → Cluster → Tried
all_calls i c =
    if c.dials
    then if c.has_controller
      then if c.dials_controller
        then if c.creates then ok tt i else err creation_failed i
        else err controller_dial_failed i
      else err no_controller i
    else err dial_failed i

-- `cfg.Brokers[0]` panics where there is none.
abbrev pub dial_first : List Text → ℕ → Cluster → Tried
dial_first [] i c = panic
dial_first (broker ∷ brokers) i c = all_calls i c

unfoldable pub create_topic_if_not_exists : List Text → Text → ℕ → Cluster → Tried
create_topic_if_not_exists brokers topic i c =
    if text_beq topic [] then err empty_name i else dial_first brokers i c

-- After a try: `return nil`, or the next round with the error kept.
abbrev pub or_again : Tried → (TopicError → Tried) → Tried
or_again (ok u i) again = ok u i
or_again (err e i) again = again e
or_again panic again = panic

abbrev pub last_error : Option TopicError → ℕ → Tried
last_error none i = ok tt i
last_error (some e) i = err e i

module _ (attempt : ℕ → Tried) where
  -- `k` rounds are left, `i` tries were made, and `last` is the value of `err`.
  unfoldable pub retry_loop : ℕ → ℕ → Option TopicError → Tried
  retry_loop zero i last = last_error last i
  retry_loop (suc k) i last = or_again (attempt (suc i)) λ e. retry_loop k (suc i) (some e)

unfoldable pub create_topic_with_retry : List Text → Text → (ℕ → Cluster) → ℤ → Tried
unfolding create_topic_if_not_exists retry_loop
create_topic_with_retry brokers topic clusters retries =
    retry_loop (λ i. create_topic_if_not_exists brokers topic i (clusters i)) (pos_part retries) 0
      none

-- What a result says of the tries from the `i`th on.
module _ (attempt : ℕ → Tried) where
  Failed : ℕ → Type 0
  Failed i = (e : TopicError) × (n : ℕ) × (attempt i ≡ err e n)

  AllFailed : ℕ → ℕ → Tried → Type 0
  AllFailed k i (ok u n) = Unit
  AllFailed k i (err e n) = (j : ℕ) → j < k → Failed (suc (j + i))
  AllFailed k i panic = Unit

  first-Failed :
      (k i : ℕ)
      → Failed (suc i)
      → ((j : ℕ) → j < k → Failed (suc (j + suc i)))
      → (j : ℕ) → j < suc k
      → Failed (suc (j + i))
  first-Failed k i f later zero lt = subst Failed (omega arith) f
  first-Failed k i f later (suc j) lt = subst Failed (omega arith) (later j (omega arith))

  again-AllFailed :
      (k i : ℕ) → Failed (suc i) → (t : Tried) → AllFailed k (suc i) t → AllFailed (suc k) i t
  unfolding AllFailed
  again-AllFailed k i f (ok u n) h = tt
  again-AllFailed k i f (err e n) h = first-Failed k i f h
  again-AllFailed k i f panic h = tt

  or_again-AllFailed :
      (k i : ℕ) (t : Tried) (again : TopicError → Tried)
      → attempt (suc i) ≡ t
      → ((e : TopicError) → AllFailed k (suc i) (again e))
      → AllFailed (suc k) i (or_again t again)
  unfolding AllFailed Failed
  or_again-AllFailed k i (ok u n) again e h = tt
  or_again-AllFailed k i (err x n) again e h = again-AllFailed k i (x, n, e) (again x) (h x)
  or_again-AllFailed k i panic again e h = tt

  retry_loop-AllFailed :
      (k i : ℕ) (last : Option TopicError) → AllFailed k i (retry_loop attempt k i last)
  unfolding retry_loop AllFailed
  retry_loop-AllFailed zero i none = tt
  retry_loop-AllFailed zero i (some e) = λ j lt. absurd (omega arith)
  retry_loop-AllFailed (suc k) i last =
      or_again-AllFailed k i (attempt (suc i)) _ refl λ e. retry_loop-AllFailed k (suc i) (some e)

-- Where `CreateTopicWithRetry` returns an error, every one of its `retries` tries has failed.
pub create_topic_with_retry-err :
    (brokers : List Text) (topic : Text) (clusters : ℕ → Cluster) (retries : ℕ) {e : TopicError}
    {n : ℕ}
    → create_topic_with_retry brokers topic clusters (pos retries) ≡ err e n
    → (j : ℕ) → j < retries
    → (f : TopicError) × (m : ℕ) × (create_topic_if_not_exists brokers topic
          (suc j)
          (clusters (suc j))
        ≡ err f m)
unfolding create_topic_with_retry AllFailed Failed
create_topic_with_retry-err brokers topic clusters retries h j lt =
    let attempt : ℕ → Tried = λ i. create_topic_if_not_exists brokers topic i (clusters i) in
    let all : (i : ℕ) → i < retries → Failed attempt (suc (i + 0)) =
      subst (AllFailed attempt retries 0) h (retry_loop-AllFailed attempt retries 0 none) in
    subst (λ k. Failed attempt (suc k)) (omega arith) (all j lt)
