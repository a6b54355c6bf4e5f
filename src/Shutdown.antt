-- ===== src/Shutdown.antt =====
-- How the receiving loop ends: the `select` of `StartReceivingOrders` and `StopReceivingOrders` in
-- order_service/internal/service/order_receiver_service.go, which main calls through
-- `ShutdownOrderReceiver` (order_service/internal/runner/order_recevier.go) once the signal's context is
-- done. `done` has no buffer: a send and its receive are one step.
use l0_wb_tech_school.Base.{◌≡◌, ◌≢◌, refl, sym, ◌∙◌, Bool, true, false, Bool-cases, inl, inr}

pub data Loop : Type 0 where
  at_select working left : Loop

pub data Stopper : Type 0 where
  not_called sending returned : Stopper

pub record Process : Type 0 where
  pub ctx_done : Bool
  pub loop : Loop
  pub stopper : Stopper

abbrev pub started : Process
started = record { ctx_done = false; loop = at_select; stopper = not_called }

pub data Step : Process → Process → Type 0 where
  -- An interrupt cancels the context.
  interrupt : {p : Process} → Step p (record p { ctx_done = true })
  -- `<-ctx.Done()` in main, and the call.
  call_stop :
      {p : Process}
      → p.ctx_done ≡ true
      → p.stopper ≡ not_called
      → Step p (record p { stopper = sending })
  -- `case <-ctx.Done()`
  leave : {p : Process} → p.ctx_done ≡ true → p.loop ≡ at_select → Step p (record p { loop = left })
  -- `case <-s.done`, with the send
  stop :
      {p : Process}
      → p.loop ≡ at_select
      → p.stopper ≡ sending
      → Step p (record p { loop = left; stopper = returned })
  -- `default`: neither of them is ready.
  work :
      {p : Process}
      → p.ctx_done ≡ false
      → p.stopper ≢ sending
      → p.loop ≡ at_select
      → Step p (record p { loop = working })
  go_round : {p : Process} → p.loop ≡ working → Step p (record p { loop = at_select })

infixl 5 ◌then◌
pub data Reaches (p : Process) : Process → Type 0 where
  here : Reaches p p
  ◌then◌ : {q r : Process} → Reaches p q → Step q r → Reaches p r

Step-left :
    {p q : Process}
    → Step p q
    → p.loop ≡ left
    → (q.loop ≡ left) × (p.stopper ≢ returned → q.stopper ≢ returned)
Step-left interrupt l = (l, λ n. n)
Step-left (call_stop c n) l = (l, λ n e. cc e)
Step-left (leave c s) l = cc (sym s ∙ l)
Step-left (stop s t) l = cc (sym s ∙ l)
Step-left (work c n s) l = cc (sym s ∙ l)
Step-left (go_round w) l = cc (sym w ∙ l)

-- Once the loop has left by `ctx.Done()` before the send of `StopReceivingOrders` was received, the
-- send is never received: `StopReceivingOrders` does not return in any later state.
pub left-ne-returned :
    {p q : Process}
    → Reaches p q
    → p.loop ≡ left
    → p.stopper ≢ returned
    → (q.loop ≡ left) × (q.stopper ≢ returned)
left-ne-returned here l n = (l, n)
left-ne-returned (run then step) l n =
    let (still, waits) = left-ne-returned run l n in
    let (after, kept) = Step-left step still in (after, kept waits)

-- Before the context is done, the loop is not left and the stop is not called.
Early : Process → Type 0
Early p = p.ctx_done ≡ false → (p.loop ≢ left) × (p.stopper ≡ not_called)

Step-Early : {p q : Process} → Step p q → Early p → Early q
unfolding Early
Step-Early interrupt h c = cc c
Step-Early (call_stop d n) h c = cc (sym d ∙ c)
Step-Early (leave d s) h c = cc (sym d ∙ c)
Step-Early (stop s t) h c = cc (sym t ∙ (h c).1)
Step-Early (work d n s) h c = ((λ e. cc e), (h c).1)
Step-Early (go_round w) h c = ((λ e. cc e), (h c).1)

Reaches-Early : {p : Process} → Reaches started p → Early p
unfolding Early
Reaches-Early here c = ((λ e. cc e), refl)
Reaches-Early (run then step) c = Step-Early step (Reaches-Early run) c

-- The loop does not end before an interrupt.
pub left-ctx_done : {p : Process} → Reaches started p → p.loop ≡ left → p.ctx_done ≡ true
unfolding Early
left-ctx_done {p} run l = elim (Bool-cases p.ctx_done) [
  | inl t ↦ t
  | inr f ↦ absurd ((Reaches-Early run f).0 l)
]
