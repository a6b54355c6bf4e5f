-- ===== src/Receiver/Loop.antt =====
-- `StartReceivingOrders` of order_service/internal/service/order_receiver_service.go over the Kafka
-- receiver, with the goroutines it starts: the loop and each of them take their steps in any order.
use l0_wb_tech_school.Base.{
  ◌≡◌, Bool, true, false, if◌then◌else◌, Option, none, some, List, [], ◌∷◌, ◌++◌,
}
use l0_wb_tech_school.Models.{Time}
use l0_wb_tech_school.Receiver.{
  Message, Receiver, ready, early, no_retry, Consumed, consumed, read_failed, unmarshal_failed,
  blocked, try_send, on_fail, on_success, take_retry, read_message,
}

-- Where the loop stands: at its `select`, in the send of `Consume`, in `ReadMessage`, or behind the
-- loop.
pub data Consumer {ℓ} (Raw V : Type ℓ) : Type ℓ where
  idle reading stopped : Consumer Raw V
  requeueing : Message Raw V → Consumer Raw V

-- `in_flight` are the messages whose orders are processed by a goroutine; `received` is the record of
-- the messages that were read and unmarshalled.
pub record System {ℓ} (Raw V : Type ℓ) : Type ℓ where
  pub receiver : Receiver Raw V
  pub consumer : Consumer Raw V
  pub in_flight : List (Message Raw V)
  pub received : List Raw

module _ {ℓ} {Raw V : Type ℓ} where
  -- The end of a goroutine, by whether `ProcessOrder` failed.
  unfoldable pub finish_order : Time → Bool → Message Raw V → Receiver Raw V → Receiver Raw V
  unfolding on_success on_fail
  finish_order now failed m k = if failed then on_fail now true m k else on_success m k

-- Steps 2 and 3 of the loop, by what `ValidateOrder` answers.
unfoldable pub dispatch {ℓ} :
    {Raw V : Type ℓ} {E : Type 0} → Time → Message Raw V → System Raw V → Option E → System Raw V
unfolding on_fail
dispatch now m s none = record s { consumer = idle; in_flight = m ∷ s.in_flight }
dispatch now m s (some e) = record s { consumer = idle; receiver = on_fail now false m s.receiver }

module _ {ℓ} {Raw V : Type ℓ} {E : Type 0} (validate : V → Option E) where
  unfoldable pub handle : Time → Message Raw V → System Raw V → System Raw V
  unfolding dispatch
  handle now m s = dispatch now m s (validate m.value)

  -- Step 1, where `Consume` ends by a read. After an error the loop goes round.
  unfoldable pub receive : Time → Consumed Raw V → System Raw V → System Raw V
  receive now (consumed m) s = handle now m (record s { received = m.message ∷ s.received })
  receive now read_failed s = record s { consumer = idle }
  receive now unmarshal_failed s = record s { consumer = idle }
  receive now blocked s = s

module _ {ℓ} {Raw V : Type ℓ} {E : Type 0} (unmarshal : Raw → Option V)
    (validate : V → Option E) where
  pub data Step : System Raw V → System Raw V → Type ℓ where
    take_ready :
        {s : System Raw V} {m : Message Raw V} {k : Receiver Raw V} (now : Time)
        → s.consumer ≡ idle
        → take_retry now s.receiver ≡ ready m k
        → Step s (handle validate now m (record s { receiver = k }))
    take_early :
        {s : System Raw V} {m : Message Raw V} {k : Receiver Raw V} (now : Time)
        → s.consumer ≡ idle
        → take_retry now s.receiver ≡ early m k
        → Step s (record s { receiver = k; consumer = requeueing m })
    take_none :
        {s : System Raw V} (now : Time)
        → s.consumer ≡ idle
        → take_retry now s.receiver ≡ no_retry
        → Step s (record s { consumer = reading })
    requeue :
        {s : System Raw V} {m : Message Raw V} {k : Receiver Raw V}
        → s.consumer ≡ requeueing m
        → try_send m s.receiver ≡ some k
        → Step s (record s { receiver = k; consumer = reading })
    read :
        {s : System Raw V} (now : Time) (raw : Option Raw)
        → s.consumer ≡ reading
        → Step s (receive validate now (read_message unmarshal raw) s)
    finish :
        {s : System Raw V} (now : Time) (failed : Bool) (before : List (Message Raw V))
        (m : Message Raw V) (after : List (Message Raw V))
        → s.in_flight ≡ before ++ m ∷ after
        → Step s (record s {
          receiver = finish_order now failed m s.receiver;
          in_flight = before ++ after;
        })
    stop : {s : System Raw V} → s.consumer ≡ idle → Step s (record s { consumer = stopped })

  infixl 5 ◌then◌
  pub data Reaches (s : System Raw V) : System Raw V → Type ℓ where
    here : Reaches s s
    ◌then◌ : {t u : System Raw V} → Reaches s t → Step t u → Reaches s u

-- `NewOrderReceiverService` over `NewKafkaReceiver`.
unfoldable pub new_system {ℓ} : {Raw V : Type ℓ} → Receiver Raw V → System Raw V
new_system k = record { receiver = k; consumer = idle; in_flight = []; received = [] }
