-- ===== src/Handler/Stored.antt =====
-- What `OrderIDGet` of order_service/internal/handlers/httphandlers/handler.go responds with.
use l0_wb_tech_school.Base.{◌≡◌, Bool, Outcome, ok, err, panic}
use l0_wb_tech_school.Base.Text.{Text}
use l0_wb_tech_school.Models.{Order}
use l0_wb_tech_school.Service.{ServiceError, Service}
use l0_wb_tech_school.Handler.{
  OrderIdGetRes, responded, not_found, error_response, order_response, responded,
}

module _ {E F : Type 0} (is_not_found : F → Bool) where
  -- Where a response has an order, it is the view of the order that the service gave.
  From {ℓ} :
      {S : Type ℓ}
      → Outcome (ServiceError E F) S Order
      → Outcome (ServiceError E F) S (OrderIdGetRes (ServiceError E F))
      → Type ℓ
  From out (ok (responded r) t) = (o : Order) × (out ≡ ok o t) × (r ≡ order_response o)
  From out (ok (not_found e) t) = Unit
  From out (ok (error_response e) t) = Unit
  From out (err e t) = Unit
  From out panic = Unit
