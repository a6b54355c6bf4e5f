-- ===== src/Service/Turns.antt =====
-- The service of order_service/internal/service/order_service.go at work: calls of it and of its
-- goroutines, in any order.
use l0_wb_tech_school.Base.{ℕ, ◌≡◌, List, [], ◌∷◌, ◌++◌, Outcome, ok, err, panic}
use l0_wb_tech_school.Base.Text.{Text, text_eq}
use l0_wb_tech_school.Models.{Order}
use l0_wb_tech_school.Service.{
  OrderCache, OrderStorage, ServiceError, Caching, Service, get_order, save_order, run_goroutine,
  cache_last_orders,
}

-- The same orders in another order: the first of them is taken from between the others.
pub data Arranged : List Order → List Order → Type 0 where
  none_left : Arranged [] []
  take_from :
      {orders arranged : List Order} (before : List Order) (o : Order) (after : List Order)
      → orders ≡ before ++ o ∷ after
      → Arranged (before ++ after) arranged
      → Arranged orders (o ∷ arranged)

module _ {ℓ} {E F : Type 0} {C D : Type ℓ} where
  -- The service that a call leaves.
  abbrev pub left :
      {A : Type 0}
      → Outcome (ServiceError E F) (Service E F C D) A
      → Service E F C D
      → Service E F C D
  left (ok a s) old = s
  left (err e s) old = s
  left panic old = old

module _ {ℓ} {E F : Type 0} {C D : Type ℓ} (cache : OrderCache E C)
    (storage : OrderStorage F D) where
  -- A request, a message, a goroutine that gets its turn, or a filling of the cache.
  pub data Turn : Service E F C D → Service E F C D → Type ℓ where
    request : {s : Service E F C D} (key : Text) → Turn s (left (get_order cache storage key s) s)
    message : {s : Service E F C D} (o : Order) → Turn s (left (save_order cache storage o s) s)
    goroutine :
        {s : Service E F C D} (before : List (Caching F)) (g : Caching F) (after : List (Caching F))
        → s.pending ≡ before ++ g ∷ after
        → Turn s (left (run_goroutine cache storage g (record s { pending = before ++ after })) s)
    filling :
        {s : Service E F C D} (arrange : List Order → List Order) (limit : ℕ)
        → ((orders : List Order) → Arranged orders (arrange orders))
        → Turn s (left (cache_last_orders cache storage arrange limit s) s)

  infixl 5 ◌then◌
  pub data Reaches (s : Service E F C D) : Service E F C D → Type ℓ where
    here : Reaches s s
    ◌then◌ : {t u : Service E F C D} → Reaches s t → Turn t u → Reaches s u

  -- A service that a run has passed through, its ends included.
  pub data Visits {start : Service E F C D}
      : (s : Service E F C D) → Reaches start s → Service E F C D → Type ℓ where
    at_end : {s : Service E F C D} {run : Reaches start s} → Visits s run s
    earlier :
        {s t u : Service E F C D} {run : Reaches start s} {turn : Turn s t}
        → Visits s run u
        → Visits t (run then turn) u

  -- What the storage in the state `d` has given or taken under an id: the answer of `GetOrderByID` to
  -- that id, or an order of that id that it answers to any id, saves, or has among the last orders.
  pub data Gave (d : D) : Text → Order → Type ℓ where
    read : {key : Text} {o : Order} {e : D} → storage.get_order_by_id key d ≡ ok o e → Gave d key o
    read_named :
        {key : Text} {o : Order} {e : D}
        → storage.get_order_by_id key d ≡ ok o e
        → Gave d o.order_uid o
    saved : {o : Order} {e : D} → storage.save_order o d ≡ ok tt e → Gave d o.order_uid o
    among_last :
        {limit : ℕ} {orders : List Order} {e : D} (before : List Order) (o : Order)
        (after : List Order)
        → storage.get_last_orders limit d ≡ ok orders e
        → orders ≡ before ++ o ∷ after
        → Gave d o.order_uid o

  -- What the storage has given or taken under an id in a run.
  abbrev pub Known : {start s : Service E F C D} → Reaches start s → Text → Order → Type ℓ
  Known {s} run key o = (u : Service E F C D) × Visits s run u × Gave u.storage key o

  pub Reaches-trans : {s t u : Service E F C D} → Reaches s t → Reaches t u → Reaches s u
  Reaches-trans first here = first
  Reaches-trans first (run then turn) = Reaches-trans first run then turn
