-- ===== src/Receiver/Blocking.antt =====
-- The send of `Consume` in order_service/pkg/pkgports/adapters/receiver/kafka.go to the retry channel,
-- alone and among the goroutines.
use l0_wb_tech_school.Base.{
  ◌+◌, ◌≤◌, ◌<◌, ◌≡◌, ◌≢◌, refl, ◌∙◌, sym, Bool, true, false, Option, none, some, [], ◌∷◌, ◌++◌,
  arith, length, ltb, if◌then◌else◌, inl, inr, Bool-cases,
}
use l0_wb_tech_school.Base.Int.{pos, ltb_ℤ}
use l0_wb_tech_school.Models.{Time}
use l0_wb_tech_school.Receiver.{
  unmarshalled, consume_taken, Message, Receiver, Taken, ready, early, no_retry, blocked,
  new_retried_message, try_send, send_to_dlq, send_to_retries, on_fail, on_success, take_retry,
  read_message, consume,
}
use l0_wb_tech_school.Receiver.Loop.{
  requeueing, System, finish_order, Step, take_ready, take_early, take_none, requeue, read, finish,
  stop, Reaches, here, ◌then◌,
}
use l0_wb_tech_school.Receiver.Calls.{Bounded, try_send-Keeps, take_retry-Takes}

module _ {ℓ} {Raw V : Type ℓ} where
  try_send-has_room :
      (m : Message Raw V) (k : Receiver Raw V)
      → length k.retry_chan < k.retries_capacity
      → (k' : Receiver Raw V) × (try_send m k ≡ some k')
  unfolding try_send
  try_send-has_room m k room =
      let fits : ltb (length k.retry_chan) k.retries_capacity ≡ true = ground arith in
      rw fits (record k { retry_chan = k.retry_chan ++ (m ∷ []) }, refl)

  try_send-full :
      (m : Message Raw V) (k : Receiver Raw V)
      → k.retries_capacity ≤ length k.retry_chan
      → try_send m k ≡ none
  unfolding try_send
  try_send-full m k full =
      let over : ltb (length k.retry_chan) k.retries_capacity ≡ false = ground arith in rw over

  unmarshalled-ne-blocked : (raw : Raw) (o : Option V) → unmarshalled raw o ≢ blocked
  unfolding unmarshalled
  unmarshalled-ne-blocked raw none e = cc e
  unmarshalled-ne-blocked raw (some v) e = cc e

  read_message-ne-blocked :
      (unmarshal : Raw → Option V) (raw : Option Raw) → read_message unmarshal raw ≢ blocked
  unfolding read_message
  read_message-ne-blocked unmarshal none e = cc e
  read_message-ne-blocked unmarshal (some raw) e = unmarshalled-ne-blocked raw (unmarshal raw) e

  consume_taken-ne-blocked :
      (unmarshal : Raw → Option V) (now : Time) (raw : Option Raw) (k : Receiver Raw V)
      (t : Taken Raw V)
      → Bounded k
      → take_retry now k ≡ t
      → ((consume_taken unmarshal raw k t).0 ≢ blocked)
        × Bounded (consume_taken unmarshal raw k t).1
  unfolding consume_taken
  consume_taken-ne-blocked unmarshal now raw k (ready m rest) b e =
      ((λ never. cc never), (take_retry-Takes now k b (inl e)).bounded)
  consume_taken-ne-blocked unmarshal now raw k (early m rest) b e =
      let takes = take_retry-Takes now k b (inr e) in
      let (sent, fits) = try_send-has_room m rest takes.has_room in
      rw fits (
        read_message-ne-blocked unmarshal raw,
        (try_send-Keeps m rest takes.bounded takes.tried fits).bounded,
      )
  consume_taken-ne-blocked unmarshal now raw k no_retry b e =
      (read_message-ne-blocked unmarshal raw, b)

  -- On a receiver whose channel keeps its bound and whose messages keep the bound on tries, a `Consume`
  -- that no other goroutine cuts into does not block, and it keeps these bounds.
  pub consume-ne-blocked :
      (unmarshal : Raw → Option V) (now : Time) (raw : Option Raw) (k : Receiver Raw V)
      → Bounded k
      → ((consume unmarshal now raw k).0 ≢ blocked) × Bounded (consume unmarshal now raw k).1
  unfolding consume
  consume-ne-blocked unmarshal now raw k b =
      consume_taken-ne-blocked unmarshal now raw k (take_retry now k) b refl

  -- The loop waits in its send to a full channel.
  pub record IsBlocked (s : System Raw V) : Type ℓ where
    pub waiting : Message Raw V
    pub at : s.consumer ≡ requeueing waiting
    pub full : s.receiver.retries_capacity ≤ length s.receiver.retry_chan

  send_to_retries-full :
      (now : Time) (m : Message Raw V) (k : Receiver Raw V)
      → k.retries_capacity ≤ length k.retry_chan
      → send_to_retries now m k ≡ send_to_dlq m k
  unfolding send_to_retries
  send_to_retries-full now m k full =
      elim (Bool-cases (ltb_ℤ k.max_retries (pos (m.total_tries + 1)))) [
        | inl over ↦ rw over
        | inr under ↦
            rw under (rw (try_send-full (new_retried_message now m k.fixed_backoff) k full))
      ]

  finish_order-chan :
      (now : Time) (failed : Bool) (m : Message Raw V) (k : Receiver Raw V)
      → k.retries_capacity ≤ length k.retry_chan
      → (finish_order now failed m k).retries_capacity
        ≤ length (finish_order now failed m k).retry_chan
  unfolding finish_order on_fail on_success send_to_dlq
  finish_order-chan now true m k full = rw (send_to_retries-full now m k full) full
  finish_order-chan now false m k full = full

  module _ {E : Type 0} (unmarshal : Raw → Option V) (validate : V → Option E) where
    Step-IsBlocked :
        {s t : System Raw V}
        → Step unmarshal validate s t
        → (b : IsBlocked s) → IsBlocked t × (t.received ≡ s.received)
    Step-IsBlocked (take_ready now at e) b = cc (sym at ∙ b.at)
    Step-IsBlocked (take_early now at e) b = cc (sym at ∙ b.at)
    Step-IsBlocked (take_none now at e) b = cc (sym at ∙ b.at)
    Step-IsBlocked (requeue {s} {m} {k} at e) b =
        let never : some k ≡ none = sym e ∙ try_send-full m s.receiver b.full in cc never
    Step-IsBlocked (read now raw at) b = cc (sym at ∙ b.at)
    Step-IsBlocked (finish {s} now failed before m after e) b = (
      record {
        waiting = b.waiting;
        at = b.at;
        full = finish_order-chan now failed m s.receiver b.full;
      },
      refl,
    )
    Step-IsBlocked (stop at) b = cc (sym at ∙ b.at)

    -- Once the loop waits in `k.retryChan <- failedMessage` for a full channel, it waits for ever,
    -- whatever the goroutines do, and no message is received any more.
    pub Reaches-IsBlocked :
        {s t : System Raw V}
        → Reaches unmarshal validate s t
        → IsBlocked s
        → IsBlocked t × (t.received ≡ s.received)
    Reaches-IsBlocked here b = (b, refl)
    Reaches-IsBlocked (run then step) b =
        let (still, same) = Reaches-IsBlocked run b in
        let (now_still, as_before) = Step-IsBlocked step still in (now_still, as_before ∙ same)
