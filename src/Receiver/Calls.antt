-- ===== src/Receiver/Calls.antt =====
-- The calls of order_service/pkg/pkgports/adapters/receiver/kafka.go on the bounds and on the messages.
use l0_wb_tech_school.Base.{
  ℕ, suc, ◌+◌, ◌≤◌, ◌<◌, ◌≡◌, refl, ◌∙◌, ap, sym, subst, Bool, true, false, none, some, List, [],
  ◌∷◌, ◌++◌, arith, length, length-append, ltb, All, All-append, tally, tally-append, tally-cons,
  ◌⊎◌, inl, inr, Bool-cases, Option-cases,
}
use l0_wb_tech_school.Base.Int.{ℤ, pos, negsuc, pos_part, ltb_ℤ}
use l0_wb_tech_school.Models.{Time}
use l0_wb_tech_school.Receiver.{
  Message, Receiver, ready, early, new_retried_message, try_send, send_to_dlq, send_to_retries,
  on_fail, on_success, take_from, take_retry,
}
use l0_wb_tech_school.Receiver.Loop.{finish_order}

pub tries-le : (max : ℤ) (n : ℕ) → ltb_ℤ max (pos n) ≡ false → n ≤ pos_part max
tries-le (pos k) n h = ground arith
tries-le (negsuc k) n h = cc h

module _ {ℓ} {Raw V : Type ℓ} where
  -- No message is tried again more often than the receiver allows.
  abbrev pub WithinTries : ℤ → List (Message Raw V) → Type 0
  WithinTries max = All (λ m. m.total_tries ≤ pos_part max)

  -- The channel's bound and the bound on tries.
  pub record Bounded (k : Receiver Raw V) : Type 0 where
    pub fits : length k.retry_chan ≤ k.retries_capacity
    pub queued : WithinTries k.max_retries k.retry_chan
    pub dead : WithinTries k.max_retries k.dead_letters

  -- How many of a kind of messages a list has, and how many a receiver has queued, given up or
  -- committed.
  abbrev pub tally_of : (Raw → Bool) → List (Message Raw V) → ℕ
  tally_of p = tally (λ m. p m.message)

  abbrev pub kept : (Raw → Bool) → Receiver Raw V → ℕ
  kept p k = tally_of p k.retry_chan + tally_of p k.dead_letters + tally p k.committed

  -- `k'` is `k` with the message `m`.
  pub record Keeps (m : Message Raw V) (k k' : Receiver Raw V) : Type ℓ where
    pub bounded : Bounded k'
    pub max_retries : k'.max_retries ≡ k.max_retries
    pub added : (p : Raw → Bool) → kept p k' ≡ tally_of p (m ∷ []) + kept p k

  module _ (m : Message Raw V) (k : Receiver Raw V) (b : Bounded k)
      (tried : m.total_tries ≤ pos_part k.max_retries) where
    send_to_dlq-Keeps : Keeps m k (send_to_dlq m k)
    unfolding send_to_dlq
    send_to_dlq-Keeps = record {
      bounded = record { fits = b.fits; queued = b.queued; dead = (tried, b.dead) };
      max_retries = refl;
      added = λ p. omega (arith, tally-cons (λ m. p m.message) m k.dead_letters);
    }

    on_success-Keeps : Keeps m k (on_success m k)
    unfolding on_success
    on_success-Keeps = record {
      bounded = record { fits = b.fits; queued = b.queued; dead = b.dead };
      max_retries = refl;
      added = λ p. omega (arith, tally-cons p m.message k.committed);
    }

    pub try_send-Keeps : {k' : Receiver Raw V} → try_send m k ≡ some k' → Keeps m k k'
    unfolding try_send
    try_send-Keeps {k'} e = elim (Bool-cases (ltb (length k.retry_chan) k.retries_capacity)) [
      | inl room ↦
          let sent : some (record k { retry_chan = k.retry_chan ++ (m ∷ []) }) ≡ some k' =
            rw room at e in
          let same : record k { retry_chan = k.retry_chan ++ (m ∷ []) } ≡ k' = cc sent in
          subst (Keeps m k) same (record {
            bounded = record {
              fits = ground (arith, length-append k.retry_chan (m ∷ []), room);
              queued = All-append _ k.retry_chan (m ∷ []) b.queued (tried, tt);
              dead = b.dead;
            };
            max_retries = refl;
            added = λ p. omega (arith, tally-append (λ m. p m.message) k.retry_chan (m ∷ []));
          })
      | inr full ↦ let never : none ≡ some k' = rw full at e in cc never
    ]

  send_to_retries-Keeps :
      (now : Time) (m : Message Raw V) (k : Receiver Raw V)
      → Bounded k
      → m.total_tries ≤ pos_part k.max_retries
      → Keeps m k (send_to_retries now m k)
  unfolding send_to_retries new_retried_message
  send_to_retries-Keeps now m k b tried =
      elim (Bool-cases (ltb_ℤ k.max_retries (pos (m.total_tries + 1)))) [
        | inl over ↦ rw over (send_to_dlq-Keeps m k b tried)
        | inr under ↦
            rw under (elim (Option-cases (try_send (new_retried_message now m k.fixed_backoff) k)) [
              | inl full ↦ rw full (send_to_dlq-Keeps m k b tried)
              | inr (k', sent) ↦
                  let keeps =
                    try_send-Keeps (new_retried_message now m k.fixed_backoff) k b
                      (tries-le k.max_retries _ under) sent in
                  rw sent (record {
                    bounded = keeps.bounded;
                    max_retries = keeps.max_retries;
                    added = keeps.added;
                  })
            ])
      ]

  -- `OnFail` bounds the channel and the tries, and keeps the message: queued once more or given up.
  pub on_fail-Keeps :
      (now : Time) (should_retry : Bool) (m : Message Raw V) (k : Receiver Raw V)
      → Bounded k
      → m.total_tries ≤ pos_part k.max_retries
      → Keeps m k (on_fail now should_retry m k)
  unfolding on_fail
  on_fail-Keeps now true m k b tried = send_to_retries-Keeps now m k b tried
  on_fail-Keeps now false m k b tried = send_to_dlq-Keeps m k b tried

  pub finish_order-Keeps :
      (now : Time) (failed : Bool) (m : Message Raw V) (k : Receiver Raw V)
      → Bounded k
      → m.total_tries ≤ pos_part k.max_retries
      → Keeps m k (finish_order now failed m k)
  unfolding finish_order
  finish_order-Keeps now true m k b tried = on_fail-Keeps now true m k b tried
  finish_order-Keeps now false m k b tried = on_success-Keeps m k b tried

  pub take_from-pops :
      (now : Time) (k : Receiver Raw V) (q : List (Message Raw V)) {m : Message Raw V}
      {k' : Receiver Raw V}
      → (take_from now k q ≡ ready m k') ⊎ (take_from now k q ≡ early m k')
      → (rest : List (Message Raw V)) × (q ≡ m ∷ rest) × (k' ≡ record k { retry_chan = rest })
  take_from-pops now k [] h = elim h [ inl e ↦ cc e | inr e ↦ cc e ]
  take_from-pops now k (x ∷ rest) {m} {k'} h = elim (Bool-cases (ltb_ℤ x.retry_after now)) [
    | inl over ↦ elim h [
      | inl e ↦
          let taken : ready x (record k { retry_chan = rest }) ≡ ready m k' = rw over at e in
          let same : m ≡ x = cc taken in
          let less : k' ≡ record k { retry_chan = rest } = cc taken in
          (rest, ap (λ y. y ∷ rest) (sym same), less)
      | inr e ↦
          let never : ready x (record k { retry_chan = rest }) ≡ early m k' = rw over at e in
          cc never
    ]
    | inr waits ↦ elim h [
      | inl e ↦
          let never : early x (record k { retry_chan = rest }) ≡ ready m k' = rw waits at e in
          cc never
      | inr e ↦
          let taken : early x (record k { retry_chan = rest }) ≡ early m k' = rw waits at e in
          let same : m ≡ x = cc taken in
          let less : k' ≡ record k { retry_chan = rest } = cc taken in
          (rest, ap (λ y. y ∷ rest) (sym same), less)
    ]
  ]

  -- The receiver that a receive from the retry channel leaves, and the message that is received.
  pub record Takes (m : Message Raw V) (k k' : Receiver Raw V) : Type ℓ where
    pub bounded : Bounded k'
    pub tried : m.total_tries ≤ pos_part k'.max_retries
    pub max_retries : k'.max_retries ≡ k.max_retries
    pub has_room : length k'.retry_chan < k'.retries_capacity
    pub removed : (p : Raw → Bool) → kept p k ≡ tally_of p (m ∷ []) + kept p k'

  pub take_retry-Takes :
      (now : Time) (k : Receiver Raw V) {m : Message Raw V} {k' : Receiver Raw V}
      → Bounded k
      → (take_retry now k ≡ ready m k') ⊎ (take_retry now k ≡ early m k')
      → Takes m k k'
  unfolding take_retry
  take_retry-Takes now k {m} {k'} b h =
      let (rest, queue, less) = take_from-pops now k k.retry_chan h in
      let queued : WithinTries k.max_retries (m ∷ rest) =
        subst (WithinTries k.max_retries) queue b.queued in
      let fits : suc (length rest) ≤ k.retries_capacity =
        subst (λ q. length q ≤ k.retries_capacity) queue b.fits in
      subst (Takes m k) (sym less) (record {
        bounded = record { fits = omega arith; queued = queued.1; dead = b.dead };
        tried = queued.0;
        max_retries = refl;
        has_room = omega arith;
        removed = λ p.
            let split : tally_of p k.retry_chan ≡ tally_of p (m ∷ []) + tally_of p rest =
              ap (tally_of p) queue ∙ tally-cons (λ m. p m.message) m rest in
            omega (arith, split);
      })
