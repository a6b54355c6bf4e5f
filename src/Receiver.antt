-- ===== src/Receiver.antt =====
-- `KafkaReceiver` in order_service/pkg/pkgports/adapters/receiver/kafka.go and the receiving loop
-- of order_service/internal/service/order_receiver_service.go. The Kafka client is a parameter: what
-- `ReadMessage` and `json.Unmarshal` answer is an argument, and the calls of `CommitMessages` are
-- recorded, as is what goes to the dead letters (which the source only logs).
pub mod Loop
pub mod Calls
pub mod Attempts
pub mod Tried
pub mod Invariant
pub mod Blocking
use l0_wb_tech_school.Base.{
  ℕ, zero, suc, ◌+◌, Bool, false, true, Option, none, some, List, [], ◌∷◌, ◌++◌, length, ltb,
  if◌then◌else◌,
}
use l0_wb_tech_school.Base.Int.{ℤ, pos, ltb_ℤ, ◌+ℤ◌}
use l0_wb_tech_school.Models.{Time}

-- `KafkaMessage`
pub record Message {ℓ} (Raw V : Type ℓ) : Type ℓ where
  pub value : V
  pub message : Raw
  pub retry_after : Time
  pub total_tries : ℕ

-- `KafkaReceiver`: `retry_chan` has the oldest message first.
pub record Receiver {ℓ} (Raw V : Type ℓ) : Type ℓ where
  pub max_retries : ℤ
  pub retries_capacity : ℕ
  pub fixed_backoff : Time
  pub retry_chan : List (Message Raw V)
  pub committed : List Raw
  pub dead_letters : List (Message Raw V)

-- What the `select` that begins `Consume` finds in the retry channel.
pub data Taken {ℓ} (Raw V : Type ℓ) : Type ℓ where
  ready early : Message Raw V → Receiver Raw V → Taken Raw V
  no_retry : Taken Raw V

-- What `Consume` comes to. It is `blocked` where it sends to a channel that is full.
pub data Consumed {ℓ} (Raw V : Type ℓ) : Type ℓ where
  consumed : Message Raw V → Consumed Raw V
  read_failed unmarshal_failed blocked : Consumed Raw V

module _ {ℓ} {Raw V : Type ℓ} where
  -- `NewFreshMessage`; a `RetryAfter` that is not set is the zero time.
  unfoldable pub new_fresh_message : Raw → V → Message Raw V
  new_fresh_message raw v = record {
    value = v;
    message = raw;
    retry_after = pos 0;
    total_tries = 0;
  }

  unfoldable pub new_retried_message : Time → Message Raw V → Time → Message Raw V
  new_retried_message now m retry_delay = record {
    value = m.value;
    message = m.message;
    retry_after = now +ℤ retry_delay;
    total_tries = m.total_tries + 1;
  }

  unfoldable pub new_receiver : ℤ → ℕ → Time → Receiver Raw V
  new_receiver max_retries retries_capacity fixed_backoff = record {
    max_retries = max_retries;
    retries_capacity = retries_capacity;
    fixed_backoff = fixed_backoff;
    retry_chan = [];
    committed = [];
    dead_letters = [];
  }

  -- A send that does not wait: `none` where the channel is full.
  unfoldable pub try_send : Message Raw V → Receiver Raw V → Option (Receiver Raw V)
  try_send m k =
      if ltb (length k.retry_chan) k.retries_capacity
      then some (record k { retry_chan = k.retry_chan ++ (m ∷ []) })
      else none

  unfoldable pub send_to_dlq : Message Raw V → Receiver Raw V → Receiver Raw V
  send_to_dlq m k = record k { dead_letters = m ∷ k.dead_letters }

  -- The `default` case of the `select` in `sendToRetries`.
  unfoldable pub or_dlq : Message Raw V → Receiver Raw V → Option (Receiver Raw V) → Receiver Raw V
  or_dlq m k (some sent) = sent
  or_dlq m k none = send_to_dlq m k

  unfoldable pub send_to_retries : Time → Message Raw V → Receiver Raw V → Receiver Raw V
  unfolding try_send new_retried_message or_dlq send_to_dlq
  send_to_retries now m k =
      let total_tries = m.total_tries + 1 in
      if ltb_ℤ k.max_retries (pos total_tries)
      then send_to_dlq m k
      else or_dlq m k (try_send (new_retried_message now m k.fixed_backoff) k)

  unfoldable pub on_fail : Time → Bool → Message Raw V → Receiver Raw V → Receiver Raw V
  unfolding send_to_retries send_to_dlq
  on_fail now should_retry m k = if should_retry then send_to_retries now m k else send_to_dlq m k

  unfoldable pub on_success : Message Raw V → Receiver Raw V → Receiver Raw V
  on_success m k = record k { committed = m.message ∷ k.committed }

  abbrev pub take_from : Time → Receiver Raw V → List (Message Raw V) → Taken Raw V
  take_from now k [] = no_retry
  take_from now k (m ∷ rest) =
      if ltb_ℤ (m.retry_after) now
      then ready m (record k { retry_chan = rest })
      else early m (record k { retry_chan = rest })

  unfoldable pub take_retry : Time → Receiver Raw V → Taken Raw V
  take_retry now k = take_from now k k.retry_chan

  -- The rest of `Consume` once the retry channel has nothing for it.
  unfoldable pub unmarshalled : Raw → Option V → Consumed Raw V
  unfolding new_fresh_message
  unmarshalled raw none = unmarshal_failed
  unmarshalled raw (some v) = consumed (new_fresh_message raw v)

  unfoldable pub read_message : (Raw → Option V) → Option Raw → Consumed Raw V
  unfolding unmarshalled
  read_message unmarshal none = read_failed
  read_message unmarshal (some raw) = unmarshalled raw (unmarshal raw)

  pub put_back :
      (Raw → Option V)
      → Option Raw
      → Receiver Raw V
      → Option (Receiver Raw V)
      → Consumed Raw V × Receiver Raw V
  unfolding read_message
  put_back unmarshal raw k (some sent) = (read_message unmarshal raw, sent)
  put_back unmarshal raw k none = (blocked, k)

  pub consume_taken :
      (Raw → Option V) → Option Raw → Receiver Raw V → Taken Raw V → Consumed Raw V × Receiver Raw V
  unfolding put_back try_send read_message
  consume_taken unmarshal raw k (ready m rest) = (consumed m, rest)
  consume_taken unmarshal raw k (early m rest) = put_back unmarshal raw rest (try_send m rest)
  consume_taken unmarshal raw k no_retry = (read_message unmarshal raw, k)

  -- `Consume` with no other goroutine in between; Receiver/Loop has the interleavings.
  unfoldable pub consume :
      (Raw → Option V) → Time → Option Raw → Receiver Raw V → Consumed Raw V × Receiver Raw V
  unfolding take_retry consume_taken
  consume unmarshal now raw k = consume_taken unmarshal raw k (take_retry now k)
