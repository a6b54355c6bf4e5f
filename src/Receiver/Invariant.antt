-- ===== src/Receiver/Invariant.antt =====
-- Invariants of the receiving loop of order_service/internal/service/order_receiver_service.go and its
-- goroutines.
use l0_wb_tech_school.Base.{
  ℕ, ◌+◌, ◌≡◌, ap, sym, subst, Bool, false, Option, none, some, List, [], ◌∷◌, ◌++◌, arith,
  if◌then◌else◌, All-append, All-of_append, tally, tally-append, tally-cons, inl, inr, Option-cases,
}
use l0_wb_tech_school.Base.Int.{ℤ}
use l0_wb_tech_school.Models.{Time}
use l0_wb_tech_school.Receiver.{Message, Receiver, new_fresh_message, new_receiver, read_message}
use l0_wb_tech_school.Receiver.Loop.{
  Consumer, idle, reading, stopped, requeueing, System, handle, receive, finish_order, Step,
  take_ready, take_early, take_none, requeue, read, finish, stop, Reaches, here, ◌then◌, new_system,
}
use l0_wb_tech_school.Receiver.Calls.{
  WithinTries, Bounded, tally_of, kept, Keeps, try_send-Keeps, on_fail-Keeps, finish_order-Keeps,
  Takes, take_retry-Takes,
}

module _ {ℓ} {Raw V : Type ℓ} where
  -- The message that the loop holds in its hands.
  abbrev pub held : Consumer Raw V → List (Message Raw V)
  held idle = []
  held reading = []
  held stopped = []
  held (requeueing m) = m ∷ []

  -- A system whose loop holds the messages `hand`.
  pub record SoundWith (hand : List (Message Raw V)) (s : System Raw V) : Type ℓ where
    pub bounded : Bounded s.receiver
    pub tried : WithinTries s.receiver.max_retries hand
    pub flying : WithinTries s.receiver.max_retries s.in_flight
    pub conserved :
        (p : Raw → Bool)
        → tally p s.received ≡ tally_of p hand + kept p s.receiver + tally_of p s.in_flight

  -- The retry channel holds no more than its capacity, no message is tried again more often than the
  -- receiver allows, and each message received is in one place: queued, held by the loop, processed
  -- by a goroutine, committed or given up.
  abbrev pub Sound : System Raw V → Type ℓ
  Sound s = SoundWith (held s.consumer) s

  pub new_system-Sound :
      (max_retries : ℤ) (retries_capacity : ℕ) (fixed_backoff : Time)
      → Sound (new_system (new_receiver max_retries retries_capacity fixed_backoff))
  unfolding new_system new_receiver
  new_system-Sound max_retries retries_capacity fixed_backoff = record {
    bounded = record { fits = omega arith; queued = tt; dead = tt };
    tried = tt;
    flying = tt;
    conserved = λ p. omega arith;
  }

  module _ (m : Message Raw V) (s : System Raw V) where
    -- The message in the loop's hands goes to a receiver that keeps it.
    release :
        {k : Receiver Raw V}
        → SoundWith (m ∷ []) s
        → Keeps m s.receiver k
        → (c : Consumer Raw V) → SoundWith [] (record s { receiver = k; consumer = c })
    release h keeps c = record {
      bounded = keeps.bounded;
      tried = tt;
      flying = subst (λ n. WithinTries n s.in_flight) (sym keeps.max_retries) h.flying;
      conserved = λ p. omega (arith, h.conserved p, keeps.added p);
    }

    taken :
        {k : Receiver Raw V}
        → SoundWith [] s
        → Takes m s.receiver k
        → (c : Consumer Raw V) → SoundWith (m ∷ []) (record s { receiver = k; consumer = c })
    taken h takes c = record {
      bounded = takes.bounded;
      tried = (takes.tried, tt);
      flying = subst (λ n. WithinTries n s.in_flight) (sym takes.max_retries) h.flying;
      conserved = λ p. omega (arith, h.conserved p, takes.removed p);
    }

    landed :
        (now : Time) (failed : Bool) (before after : List (Message Raw V))
        {hand : List (Message Raw V)}
        → s.in_flight ≡ before ++ m ∷ after
        → SoundWith hand s
        → SoundWith hand (record s {
          receiver = finish_order now failed m s.receiver;
          in_flight = before ++ after;
        })
    landed now failed before after {hand} split h =
        let parts =
          All-of_append _ before (m ∷ after)
            (subst (WithinTries s.receiver.max_retries) split h.flying) in
        let keeps = finish_order-Keeps now failed m s.receiver h.bounded parts.1.0 in
        record {
          bounded = keeps.bounded;
          tried = subst (λ n. WithinTries n hand) (sym keeps.max_retries) h.tried;
          flying =
              subst (λ n. WithinTries n (before ++ after)) (sym keeps.max_retries)
                (All-append _ before after parts.0 parts.1.1);
          conserved = λ p.
              let q : Message Raw V → Bool = λ m. p m.message in
              let flew : tally_of p s.in_flight ≡ tally_of p (before ++ m ∷ after) =
                ap (tally_of p) split in
              omega (
                arith,
                h.conserved p,
                keeps.added p,
                flew,
                tally-append q before (m ∷ after),
                tally-cons q m after,
                tally-append q before after,
              );
        }

  module _ {E : Type 0} (validate : V → Option E) (now : Time) where
    handle-Sound :
        (m : Message Raw V) (s : System Raw V)
        → SoundWith (m ∷ []) s
        → Sound (handle validate now m s)
    unfolding handle
    handle-Sound m s h = elim (Option-cases (validate m.value)) [
      | inl valid ↦ rw valid (record {
        bounded = h.bounded;
        tried = tt;
        flying = (h.tried.0, h.flying);
        conserved = λ p. omega (arith, h.conserved p, tally-cons (λ m. p m.message) m s.in_flight);
      })
      | inr (e, invalid) ↦
          rw invalid (release m s h (on_fail-Keeps now false m s.receiver h.bounded h.tried.0) idle)
    ]

    receive-Sound :
        (unmarshal : Raw → Option V) (raw : Option Raw) (s : System Raw V)
        → SoundWith [] s
        → Sound (receive validate now (read_message unmarshal raw) s)
    unfolding receive read_message new_fresh_message
    receive-Sound unmarshal none s h = record {
      bounded = h.bounded;
      tried = tt;
      flying = h.flying;
      conserved = h.conserved;
    }
    receive-Sound unmarshal (some raw) s h = elim (Option-cases (unmarshal raw)) [
      | inl malformed ↦
          rw malformed
            (record { bounded = h.bounded; tried = tt; flying = h.flying; conserved = h.conserved })
      | inr (v, parsed) ↦ rw parsed (
          handle-Sound (new_fresh_message raw v) (record s { received = raw ∷ s.received })
            (record {
              bounded = h.bounded;
              tried = (omega arith, tt);
              flying = h.flying;
              conserved = λ p. omega (arith, h.conserved p, tally-cons p raw s.received);
            }))
    ]

  -- With the loop where it stands written out.
  standing :
      {s : System Raw V} {c : Consumer Raw V} → s.consumer ≡ c → Sound s → SoundWith (held c) s
  standing {s} at h = subst (λ c. SoundWith (held c) s) at h

  moved :
      {s : System Raw V} {hand : List (Message Raw V)}
      → SoundWith hand s
      → (c : Consumer Raw V) → SoundWith hand (record s { consumer = c })
  moved h c = record {
    bounded = h.bounded;
    tried = h.tried;
    flying = h.flying;
    conserved = h.conserved;
  }

  module _ {E : Type 0} (unmarshal : Raw → Option V) (validate : V → Option E) where
    Step-Sound : {s t : System Raw V} → Step unmarshal validate s t → Sound s → Sound t
    Step-Sound (take_ready {s} {m} {k} now at e) h =
        handle-Sound validate now m (record s { receiver = k })
          (taken m s (standing at h) (take_retry-Takes now s.receiver h.bounded (inl e)) s.consumer)
    Step-Sound (take_early {s} {m} {k} now at e) h =
        taken m s (standing at h) (take_retry-Takes now s.receiver h.bounded (inr e)) (requeueing m)
    Step-Sound {s} (take_none now at e) h = moved (standing at h) reading
    Step-Sound (requeue {s} {m} at e) h =
        let inside = standing at h in
        release m s inside (try_send-Keeps m s.receiver h.bounded inside.tried.0 e) reading
    Step-Sound {s} (read now raw at) h = receive-Sound validate now unmarshal raw s (standing at h)
    Step-Sound {s} (finish now failed before m after e) h = landed m s now failed before after e h
    Step-Sound {s} (stop at) h = moved (standing at h) stopped

    pub Reaches-Sound : {s t : System Raw V} → Reaches unmarshal validate s t → Sound s → Sound t
    Reaches-Sound here h = h
    Reaches-Sound (run then step) h = Step-Sound step (Reaches-Sound run h)

    -- Whatever the loop and the goroutines do from the start on, the retry channel holds no more than
    -- its capacity, no message is tried again more often than `maxRetries`, and each message received
    -- is in exactly one place: queued, held by the loop, processed by a goroutine, committed or given
    -- up.
    pub reachable-Sound :
        (max_retries : ℤ) (retries_capacity : ℕ) (fixed_backoff : Time) {t : System Raw V}
        → Reaches unmarshal validate
            (new_system (new_receiver max_retries retries_capacity fixed_backoff))
            t
        → Sound t
    reachable-Sound max_retries retries_capacity fixed_backoff run =
        Reaches-Sound run (new_system-Sound max_retries retries_capacity fixed_backoff)
