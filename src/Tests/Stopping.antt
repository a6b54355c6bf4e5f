-- ===== src/Tests/Stopping.antt =====
-- `StopReceivingOrders` of order_service/internal/service/order_receiver_service.go after an interrupt.
use l0_wb_tech_school.Base.{◌≡◌, ◌≢◌, refl, true}
use l0_wb_tech_school.Shutdown.{
  Process, left, not_called, sending, returned, started, interrupt, call_stop, leave, Reaches, here,
  ◌then◌, left-ne-returned,
}

-- The context is done, the loop left by it, and `StopReceivingOrders` is called.
abbrev loop_left : Process
loop_left = record { ctx_done = true; loop = left; stopper = not_called }

abbrev stop_called : Process
stop_called = record { ctx_done = true; loop = left; stopper = sending }

calls_stop : Reaches loop_left stop_called
calls_stop = here then call_stop refl refl

left-ne-returned_example : (stop_called.loop ≡ left) × (stop_called.stopper ≢ returned)
left-ne-returned_example = left-ne-returned calls_stop refl (λ e. cc e)

-- Such a state is reached from the start.
stop_called_test : Reaches started stop_called
stop_called_test = here then interrupt then leave refl refl then call_stop refl refl
