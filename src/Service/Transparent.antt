-- ===== src/Service/Transparent.antt =====
-- The cache before the storage, in order_service/internal/service/order_service.go.
use l0_wb_tech_school.Base.{ℕ, ◌≡◌, sym, subst, List, [], ◌∷◌, All, Outcome, ok, err, panic}
use l0_wb_tech_school.Base.Text.{Text}
use l0_wb_tech_school.Models.{Order}
use l0_wb_tech_school.Service.{OrderCache, OrderStorage, ServiceError, Service, get_order}
use l0_wb_tech_school.Service.Laws.{IsLru}
use l0_wb_tech_school.Service.Turns.{
  left, Turn, request, message, goroutine, filling, Reaches, here, ◌then◌, at_end, earlier, Known,
}
use l0_wb_tech_school.Service.Coherent.{
  Coherent, Right, Given, Stays, get_order-Right, save_order-Stays, run_goroutine-Stays,
  cache_last_orders-Stays,
}

All-mono {ℓ κ ι} :
    {A : Type ℓ} {P : A → Type κ} {Q : A → Type ι}
    → ((x : A) → P x → Q x)
    → (xs : List A) → All P xs
    → All Q xs
All-mono f [] h = tt
All-mono f (x ∷ xs) h = (f x h.0, All-mono f xs h.1)

module _ {ℓ} {E F : Type 0} {C D : Type ℓ} (cache : OrderCache E C) (storage : OrderStorage F D)
    {places : ℕ} {Entries : C → List (Text × Order) → Type ℓ}
    (lru : IsLru cache places Entries) where
  module _ (P : Text → Order → Type ℓ) where
    Right-left :
        (key : Text) (out : Outcome (ServiceError E F) (Service E F C D) Order)
        (s : Service E F C D)
        → Coherent cache storage lru P s
        → Right cache storage lru P key out
        → Coherent cache storage lru P (left out s)
    Right-left key (ok o t) s h r = r.1
    Right-left key (err e t) s h r = r
    Right-left key panic s h r = h

    Stays-left :
        {A : Type 0} (out : Outcome (ServiceError E F) (Service E F C D) A) (s : Service E F C D)
        → Coherent cache storage lru P s
        → Stays cache storage lru P out
        → Coherent cache storage lru P (left out s)
    Stays-left (ok a t) s h r = r
    Stays-left (err e t) s h r = r
    Stays-left panic s h r = h

    Turn-Coherent :
        {s t : Service E F C D}
        → Turn cache storage s t
        → Given cache storage lru P s.storage
        → Coherent cache storage lru P s
        → Coherent cache storage lru P t
    Turn-Coherent (request {s} key) given h =
        Right-left key _ s h (get_order-Right cache storage lru P key s given h)
    Turn-Coherent (message {s} o) given h =
        Stays-left _ s h (save_order-Stays cache storage lru P o s given h)
    Turn-Coherent (goroutine {s} before g after split) given h =
        Stays-left _ s h (run_goroutine-Stays cache storage lru P before g after s split h)
    Turn-Coherent (filling {s} arrange limit arranges) given h =
        Stays-left _ s h
          (cache_last_orders-Stays cache storage lru P arrange limit s arranges given h)

  -- What is known stays known.
  longer :
      {start s t : Service E F C D} (run : Reaches cache storage start s)
      (turn : Turn cache storage s t) (key : Text) (o : Order)
      → Known cache storage run key o
      → Known cache storage (run then turn) key o
  longer run turn key o (u, seen, gave) = (u, earlier seen, gave)

  Reaches-Coherent :
      {start s : Service E F C D} (run : Reaches cache storage start s)
      → Coherent cache storage lru (Known cache storage {start = start} {s = start} here) start
      → Coherent cache storage lru (Known cache storage run) s
  Reaches-Coherent here h = h
  Reaches-Coherent (run then turn) first =
      let h = Reaches-Coherent run first in
      Turn-Coherent (Known cache storage (run then turn)) turn
        (λ key o gave. (_, earlier at_end, gave))
        (record {
          items = h.items;
          cached = h.cached;
          entries = All-mono (λ e. longer run turn e.0 e.1) h.items h.entries;
          waiting = All-mono (λ g. longer run turn g.order.order_uid g.order) _ h.waiting;
        })

  -- From a service with an empty cache and no goroutines, after any requests, messages, turns of the
  -- caching goroutines and fillings of the cache with the last orders: an order that `GetOrder` returns
  -- for a key, from the cache or not, is one that the storage gave or took under that key in the run.
  -- It holds for a cache that is an LRU cache, and any storage.
  pub get_order-Known :
      (start s t : Service E F C D) (key : Text) (o : Order)
      → Entries start.cache []
      → start.pending ≡ []
      → (run : Reaches cache storage start s) → get_order cache storage key s ≡ ok o t
      → Known cache storage run key o
  get_order-Known start s t key o empty none_waiting run answered =
      let first : Coherent cache storage lru (Known cache storage {start = start} {s = start} here)
          start =
        record {
          items = [];
          cached = empty;
          entries = tt;
          waiting =
              subst
                (All (λ g.
                  Known cache storage {start = start} {s = start} here g.order.order_uid g.order))
                (sym none_waiting) tt;
        } in
      let right : Right cache storage lru (Known cache storage run) key (ok o t) =
        subst (Right cache storage lru (Known cache storage run) key) answered (
          get_order-Right cache storage lru (Known cache storage run) key s
            (λ j x gave. (s, at_end, gave)) (Reaches-Coherent run first)) in
      right.0
