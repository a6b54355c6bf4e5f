-- ===== src/Receiver/Attempts.antt =====
-- How often order_service/internal/service/order_receiver_service.go tries to save the orders that it
-- receives: what each call of the receiver takes of the tries that a message has left.
use l0_wb_tech_school.Base.{
  ℕ, suc, ◌+◌, ◌-◌, ◌≤◌, ◌≡◌, ◌∙◌, ap, sym, subst, Bool, true, false, none, some, List, [], ◌∷◌,
  ◌++◌, arith, length, ltb, ◌⊎◌, inl, inr, Bool-cases, Option-cases,
}
use l0_wb_tech_school.Base.Int.{pos, pos_part, ltb_ℤ}
use l0_wb_tech_school.Models.{Time}
use l0_wb_tech_school.Receiver.{
  Message, Receiver, ready, early, new_retried_message, try_send, send_to_dlq, send_to_retries,
  on_fail, on_success, take_retry,
}
use l0_wb_tech_school.Receiver.Loop.{finish_order}
use l0_wb_tech_school.Receiver.Calls.{tries-le, take_from-pops}

module _ {ℓ} {Raw V : Type ℓ} where
  -- The tries that messages have left where `n` retries are allowed.
  abbrev pub left_of : ℕ → Message Raw V → ℕ
  left_of n m = suc n - m.total_tries

  abbrev pub tries_left : ℕ → List (Message Raw V) → ℕ
  tries_left n [] = 0
  tries_left n (m ∷ ms) = left_of n m + tries_left n ms

  pub tries_left-append :
      (n : ℕ) (ms more : List (Message Raw V))
      → tries_left n (ms ++ more) ≡ tries_left n ms + tries_left n more
  tries_left-append n [] more = omega arith
  tries_left-append n (m ∷ ms) more = omega (arith, tries_left-append n ms more)

  pub try_send-tries_left :
      (n : ℕ) (m : Message Raw V) (k : Receiver Raw V) {k' : Receiver Raw V}
      → try_send m k ≡ some k'
      → tries_left n k'.retry_chan ≡ tries_left n k.retry_chan + left_of n m
  unfolding try_send
  try_send-tries_left n m k {k'} e =
      elim (Bool-cases (ltb (length k.retry_chan) k.retries_capacity)) [
        | inl room ↦
            let sent : some (record k { retry_chan = k.retry_chan ++ (m ∷ []) }) ≡ some k' =
              rw room at e in
            let same : record k { retry_chan = k.retry_chan ++ (m ∷ []) } ≡ k' = cc sent in
            subst (λ x. tries_left n x.retry_chan ≡ tries_left n k.retry_chan + left_of n m) same
              (omega (arith, tries_left-append n k.retry_chan (m ∷ [])))
        | inr full ↦ let never : none ≡ some k' = rw full at e in cc never
      ]

  -- A message that goes back or is given up has fewer tries left.
  abbrev pub Spends : ℕ → Message Raw V → Receiver Raw V → Receiver Raw V → Type 0
  Spends n m k k' = tries_left n k'.retry_chan + 1 ≤ tries_left n k.retry_chan + left_of n m

  send_to_retries-Spends :
      (now : Time) (m : Message Raw V) (k : Receiver Raw V)
      → m.total_tries ≤ pos_part k.max_retries
      → Spends (pos_part k.max_retries) m k (send_to_retries now m k)
  unfolding send_to_retries new_retried_message send_to_dlq
  send_to_retries-Spends now m k tried =
      elim (Bool-cases (ltb_ℤ k.max_retries (pos (m.total_tries + 1)))) [
        | inl over ↦ rw over (omega arith)
        | inr under ↦
            rw under (elim (Option-cases (try_send (new_retried_message now m k.fixed_backoff) k)) [
              | inl full ↦ rw full (omega arith)
              | inr (k', sent) ↦
                  let fewer =
                    try_send-tries_left (pos_part k.max_retries)
                      (new_retried_message now m k.fixed_backoff) k sent in
                  let allowed = tries-le k.max_retries _ under in
                  rw sent (omega (arith, fewer, allowed))
            ])
      ]

  pub on_fail-Spends :
      (now : Time) (should_retry : Bool) (m : Message Raw V) (k : Receiver Raw V)
      → m.total_tries ≤ pos_part k.max_retries
      → Spends (pos_part k.max_retries) m k (on_fail now should_retry m k)
  unfolding on_fail send_to_dlq
  on_fail-Spends now true m k tried = send_to_retries-Spends now m k tried
  on_fail-Spends now false m k tried = omega arith

  pub finish_order-Spends :
      (now : Time) (failed : Bool) (m : Message Raw V) (k : Receiver Raw V)
      → m.total_tries ≤ pos_part k.max_retries
      → Spends (pos_part k.max_retries) m k (finish_order now failed m k)
  unfolding finish_order on_success
  finish_order-Spends now true m k tried = on_fail-Spends now true m k tried
  finish_order-Spends now false m k tried = omega arith

  pub take_retry-tries_left :
      (n : ℕ) (now : Time) (k : Receiver Raw V) {m : Message Raw V} {k' : Receiver Raw V}
      → (take_retry now k ≡ ready m k') ⊎ (take_retry now k ≡ early m k')
      → tries_left n k.retry_chan ≡ left_of n m + tries_left n k'.retry_chan
  unfolding take_retry
  take_retry-tries_left n now k {m} {k'} h =
      let (rest, queue, less) = take_from-pops now k k.retry_chan h in
      ap (tries_left n) queue ∙ ap (λ x. left_of n m + tries_left n x.retry_chan) (sym less)
