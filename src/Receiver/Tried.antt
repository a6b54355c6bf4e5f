-- ===== src/Receiver/Tried.antt =====
-- Saving is tried a bounded number of times, whatever the receiving loop of
-- order_service/internal/service/order_receiver_service.go and its goroutines do.
use l0_wb_tech_school.Base.{
  ◌⊎◌, ℕ, suc, ◌+◌, ◌*◌, ◌≤◌, ◌≡◌, refl, ◌∙◌, ap, sym, subst, Bool, false, Option, none, some, List,
  [], ◌∷◌, ◌++◌, arith, length, inl, inr, Option-cases, All-of_append,
}
use native.Mathlib.Nat.{zero-mul, suc-mul}
use l0_wb_tech_school.Base.Int.{ℤ, pos_part}
use l0_wb_tech_school.Models.{Time}
use l0_wb_tech_school.Receiver.{
  Message, Receiver, on_fail, ready, early, new_fresh_message, new_receiver, read_message,
  take_retry, try_send,
}
use l0_wb_tech_school.Receiver.Loop.{
  Consumer, reading, stopped, requeueing, System, handle, receive, finish_order, Step, take_ready,
  take_early, take_none, requeue, read, finish, stop, Reaches, here, ◌then◌, new_system,
}
use l0_wb_tech_school.Receiver.Calls.{
  WithinTries, Bounded, on_fail-Keeps, finish_order-Keeps, try_send-Keeps, take_retry-Takes,
}
use l0_wb_tech_school.Receiver.Attempts.{
  tries_left, tries_left-append, try_send-tries_left, Spends, on_fail-Spends, finish_order-Spends,
  take_retry-tries_left,
}
use l0_wb_tech_school.Receiver.Invariant.{held, Sound, SoundWith, Reaches-Sound, new_system-Sound}

-- The tries that are granted to the messages received.
abbrev granted {ℓ} : {Raw : Type ℓ} → ℕ → List Raw → ℕ
granted n [] = 0
granted n (raw ∷ more) = suc n + granted n more

granted-eq {ℓ} :
    {Raw : Type ℓ} (n : ℕ) (received : List Raw) → granted n received ≡ length received * suc n
granted-eq n [] = sym (zero-mul (suc n))
granted-eq n (raw ∷ more) = omega (arith, granted-eq n more, suc-mul (length more) (suc n))

module _ {ℓ} {Raw V : Type ℓ} {E : Type 0} {unmarshal : Raw → Option V}
    {validate : V → Option E} where
  -- Whether a step is the end of a goroutine, which has tried to save an order.
  abbrev pub tried_in : {s t : System Raw V} → Step unmarshal validate s t → ℕ
  tried_in (take_ready now at e) = 0
  tried_in (take_early now at e) = 0
  tried_in (take_none now at e) = 0
  tried_in (requeue at e) = 0
  tried_in (read now raw at) = 0
  tried_in (finish now failed before m after e) = 1
  tried_in (stop at) = 0

  -- How often a run has tried to save an order.
  abbrev pub tries : {s t : System Raw V} → Reaches unmarshal validate s t → ℕ
  tries here = 0
  tries (run then step) = tries run + tried_in step

module _ {ℓ} {Raw V : Type ℓ} (n : ℕ) where
  abbrev all_left : List (Message Raw V) → System Raw V → ℕ
  all_left hand s =
      tries_left n s.receiver.retry_chan + tries_left n hand + tries_left n s.in_flight

  -- From `s`, whose loop holds `hand`, to `t`, with `a` tries.
  record Pays (a : ℕ) (hand : List (Message Raw V)) (s : System Raw V)
      (later : List (Message Raw V)) (t : System Raw V) : Type ℓ where
    same : t.receiver.max_retries ≡ s.receiver.max_retries
    paid : a + all_left later t + granted n s.received ≤ all_left hand s + granted n t.received

  Pays-trans :
      {a b : ℕ} {x y z : List (Message Raw V)} {s t u : System Raw V}
      → Pays a x s y t
      → Pays b y t z u
      → Pays (a + b) x s z u
  Pays-trans p q = record { same = q.same ∙ p.same; paid = omega (arith, p.paid, q.paid) }

  module _ (m : Message Raw V) (s : System Raw V)
      (allows : pos_part s.receiver.max_retries ≡ n) where
    taken-Pays :
        (now : Time) {k : Receiver Raw V}
        → Bounded s.receiver
        → (take_retry now s.receiver ≡ ready m k) ⊎ (take_retry now s.receiver ≡ early m k)
        → (c : Consumer Raw V) → Pays 0 [] s (m ∷ []) (record s { receiver = k; consumer = c })
    taken-Pays now b e c = record {
      same = (take_retry-Takes now s.receiver b e).max_retries;
      paid = omega (arith, take_retry-tries_left n now s.receiver e);
    }

    handle-Pays :
        {E : Type 0} (validate : V → Option E) (now : Time)
        → Bounded s.receiver
        → m.total_tries ≤ pos_part s.receiver.max_retries
        → Pays 0 (m ∷ []) s (held (handle validate now m s).consumer) (handle validate now m s)
    unfolding handle
    handle-Pays validate now b tried = elim (Option-cases (validate m.value)) [
      | inl valid ↦ rw valid (record { same = refl; paid = omega arith })
      | inr (e, invalid) ↦
          let spends =
            subst (λ k. Spends k m s.receiver (on_fail now false m s.receiver)) allows
              (on_fail-Spends now false m s.receiver tried) in
          rw invalid (record {
            same = (on_fail-Keeps now false m s.receiver b tried).max_retries;
            paid = omega (arith, spends);
          })
    ]

    landed-Pays :
        (now : Time) (failed : Bool) (before after hand : List (Message Raw V))
        → s.in_flight ≡ before ++ m ∷ after
        → SoundWith hand s
        → Pays 1 hand s hand (record s {
          receiver = finish_order now failed m s.receiver;
          in_flight = before ++ after;
        })
    landed-Pays now failed before after hand split h =
        let parts =
          All-of_append _ before (m ∷ after)
            (subst (WithinTries s.receiver.max_retries) split h.flying) in
        let spends =
          subst (λ k. Spends k m s.receiver (finish_order now failed m s.receiver)) allows
            (finish_order-Spends now failed m s.receiver parts.1.0) in
        record {
          same = (finish_order-Keeps now failed m s.receiver h.bounded parts.1.0).max_retries;
          paid = omega (
            arith,
            spends,
            ap (tries_left n) split,
            tries_left-append n before (m ∷ after),
            tries_left-append n before after,
          );
        }

    requeue-Pays :
        {k : Receiver Raw V}
        → SoundWith (m ∷ []) s
        → try_send m s.receiver ≡ some k
        → Pays 0 (m ∷ []) s [] (record s { receiver = k; consumer = reading })
    requeue-Pays h sent = record {
      same = (try_send-Keeps m s.receiver h.bounded h.tried.0 sent).max_retries;
      paid = omega (arith, try_send-tries_left n m s.receiver sent);
    }

  receive-Pays :
      {E : Type 0} (unmarshal : Raw → Option V) (validate : V → Option E) (now : Time)
      (raw : Option Raw) (s : System Raw V)
      → pos_part s.receiver.max_retries ≡ n
      → Bounded s.receiver
      → Pays 0 [] s
          (held (receive validate now (read_message unmarshal raw) s).consumer)
          (receive validate now (read_message unmarshal raw) s)
  unfolding receive read_message new_fresh_message
  receive-Pays unmarshal validate now none s allows b = record { same = refl; paid = omega arith }
  receive-Pays unmarshal validate now (some raw) s allows b = elim (Option-cases (unmarshal raw)) [
    | inl malformed ↦ rw malformed (record { same = refl; paid = omega arith })
    | inr (v, parsed) ↦
        let fresh : Message Raw V = new_fresh_message raw v in
        let handled =
          handle-Pays fresh (record s { received = raw ∷ s.received }) allows validate now b
            (omega arith) in
        rw parsed (record { same = handled.same; paid = omega (arith, handled.paid) })
  ]

  module _ {E : Type 0} (unmarshal : Raw → Option V) (validate : V → Option E) where
    Step-Pays :
        {s t : System Raw V} (step : Step unmarshal validate s t)
        → pos_part s.receiver.max_retries ≡ n
        → Sound s
        → Pays (tried_in step) (held s.consumer) s (held t.consumer) t
    Step-Pays (take_ready {s} {m} {k} now at e) allows h =
        let takes = take_retry-Takes now s.receiver h.bounded (inl e) in
        subst
          (λ c.
            Pays 0 (held c) s (held (handle validate now m (record s { receiver = k })).consumer)
              (handle validate now m (record s { receiver = k })))
          (sym at)
          (Pays-trans (taken-Pays m s allows now h.bounded (inl e) s.consumer) (
            handle-Pays m (record s { receiver = k }) (ap pos_part takes.max_retries ∙ allows)
              validate now takes.bounded takes.tried))
    Step-Pays (take_early {s} {m} {k} now at e) allows h =
        subst (λ c. Pays 0 (held c) s (m ∷ []) (record s { receiver = k; consumer = requeueing m }))
          (sym at) (taken-Pays m s allows now h.bounded (inr e) (requeueing m))
    Step-Pays {s} (take_none now at e) allows h =
        subst (λ c. Pays 0 (held c) s [] (record s { consumer = reading })) (sym at)
          (record { same = refl; paid = omega arith })
    Step-Pays (requeue {s} {m} {k} at e) allows h =
        subst (λ c. Pays 0 (held c) s [] (record s { receiver = k; consumer = reading })) (sym at)
          (requeue-Pays m s allows (subst (λ c. SoundWith (held c) s) at h) e)
    Step-Pays {s} (read now raw at) allows h =
        subst
          (λ c.
            Pays 0 (held c) s (held (receive validate now (read_message unmarshal raw) s).consumer)
              (receive validate now (read_message unmarshal raw) s))
          (sym at) (receive-Pays unmarshal validate now raw s allows h.bounded)
    Step-Pays {s} (finish now failed before m after e) allows h =
        landed-Pays m s allows now failed before after (held s.consumer) e h
    Step-Pays {s} (stop at) allows h =
        subst (λ c. Pays 0 (held c) s [] (record s { consumer = stopped })) (sym at)
          (record { same = refl; paid = omega arith })

    Reaches-Pays :
        {s t : System Raw V} (run : Reaches unmarshal validate s t)
        → pos_part s.receiver.max_retries ≡ n
        → Sound s
        → Pays (tries run) (held s.consumer) s (held t.consumer) t
    Reaches-Pays here allows h = record { same = refl; paid = omega arith }
    Reaches-Pays (run then step) allows h =
        let before = Reaches-Pays run allows h in
        Pays-trans before (
          Step-Pays step (ap pos_part before.same ∙ allows)
            (Reaches-Sound unmarshal validate run h))

module _ {ℓ} {Raw V : Type ℓ} {E : Type 0} (unmarshal : Raw → Option V)
    (validate : V → Option E) where
  -- From the start on, in any order of the steps of the loop and its goroutines, saving is tried no
  -- more than `maxRetries` and one times for each message received, where a negative `maxRetries` counts
  -- as none.
  pub tries-le_granted :
      (max_retries : ℤ) (retries_capacity : ℕ) (fixed_backoff : Time) {t : System Raw V}
      (run : Reaches unmarshal validate
        (new_system (new_receiver max_retries retries_capacity fixed_backoff))
        t)
      → tries run ≤ length t.received * suc (pos_part max_retries)
  unfolding new_system new_receiver
  tries-le_granted max_retries retries_capacity fixed_backoff {t} run =
      let n = pos_part max_retries in
      let pays =
        Reaches-Pays n unmarshal validate run refl
          (new_system-Sound max_retries retries_capacity fixed_backoff) in
      omega (arith, pays.paid, granted-eq n t.received)
