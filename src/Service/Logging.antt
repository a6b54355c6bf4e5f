-- ===== src/Service/Logging.antt =====
-- The log of the caching goroutines in order_service/internal/service/order_service.go.
use l0_wb_tech_school.Base.{
  ℕ, ◌≡◌, refl, sym, subst, Option, none, some, List, [], ◌∷◌, ◌++◌, All, All-append, All-of_append,
  Outcome, ok, err, panic,
}
use l0_wb_tech_school.Base.Text.{Text}
use l0_wb_tech_school.Models.{Order}
use l0_wb_tech_school.Service.{
  OrderCache, OrderStorage, LogLine, error_retrieving, error_saving, error_caching,
  error_getting_last, error_getting_last_to_cache, error_caching_last, saved_order,
  cached_last_orders, ServiceError, Service, log_caching, after_caching, after_storage, after_cache,
  after_saving, get_order, save_order, run_goroutine, after_sets, after_last_to_cache,
  cache_last_orders,
}
use l0_wb_tech_school.Service.Turns.{
  left, Turn, request, message, goroutine, filling, Reaches, here, ◌then◌,
}

-- A line that no caching goroutine writes.
abbrev pub IsOther : {E F : Type 0} → LogLine E F → Type 0
IsOther (error_caching key e) = ⊥
IsOther (error_retrieving key e) = Unit
IsOther (error_saving key e) = Unit
IsOther (error_getting_last limit e) = Unit
IsOther (error_getting_last_to_cache limit e) = Unit
IsOther (error_caching_last limit e) = Unit
IsOther (saved_order key) = Unit
IsOther (cached_last_orders count total) = Unit

module _ {ℓ} {E F : Type 0} {C D : Type ℓ} where
  -- No line of a goroutine was written, and none will be: all goroutines captured a nil error.
  record Quiet (s : Service E F C D) : Type ℓ where
    lines : All IsOther s.log
    waiting : All (λ g. g.outer_err ≡ none) s.pending

  abbrev Stays {κ} : {A : Type κ} → Outcome (ServiceError E F) (Service E F C D) A → Type ℓ
  Stays (ok a t) = Quiet t
  Stays (err e t) = Quiet t
  Stays panic = Unit

  Stays-left :
      {A : Type 0} (out : Outcome (ServiceError E F) (Service E F C D) A) (s : Service E F C D)
      → Quiet s
      → Stays out
      → Quiet (left out s)
  Stays-left (ok a t) s h r = r
  Stays-left (err e t) s h r = r
  Stays-left panic s h r = h

  after_storage-Stays :
      (key : Text) (out : Outcome F D Order) (s : Service E F C D)
      → Quiet s
      → Stays (after_storage key out s)
  unfolding after_storage
  after_storage-Stays key (ok o d) s h = record { lines = h.lines; waiting = (refl, h.waiting) }
  after_storage-Stays key (err e d) s h = record { lines = (tt, h.lines); waiting = h.waiting }
  after_storage-Stays key panic s h = tt

  after_saving-Stays :
      (o : Order) (out : Outcome F D (Unit {0})) (s : Service E F C D)
      → Quiet s
      → Stays (after_saving o out s)
  unfolding after_saving
  after_saving-Stays o (ok u d) s h = record { lines = (tt, h.lines); waiting = (refl, h.waiting) }
  after_saving-Stays o (err e d) s h = record { lines = (tt, h.lines); waiting = h.waiting }
  after_saving-Stays o panic s h = tt

  after_caching-Stays :
      (key : Text) (out : Outcome E C (Unit {0})) (s : Service E F C D)
      → Quiet s
      → Stays (after_caching none key out s)
  unfolding after_caching log_caching
  after_caching-Stays key (ok u c) s h = record { lines = h.lines; waiting = h.waiting }
  after_caching-Stays key (err e c) s h = record { lines = h.lines; waiting = h.waiting }
  after_caching-Stays key panic s h = tt

  module _ (cache : OrderCache E C) (storage : OrderStorage F D) where
    after_cache-Stays :
        (key : Text) (out : Outcome E C (Option Order)) (s : Service E F C D)
        → Quiet s
        → Stays (after_cache cache storage key out s)
    unfolding after_cache
    after_cache-Stays key (ok (some o) c) s h = record { lines = h.lines; waiting = h.waiting }
    after_cache-Stays key (ok none c) s h =
        after_storage-Stays key _ (record s { cache = c })
          (record { lines = h.lines; waiting = h.waiting })
    after_cache-Stays key (err e c) s h = record { lines = h.lines; waiting = h.waiting }
    after_cache-Stays key panic s h = tt

    after_sets-Stays :
        (limit : ℕ) (orders : List Order) (out : Outcome E C (Option E)) (s : Service E F C D)
        → Quiet s
        → Stays (after_sets cache storage limit orders out s)
    unfolding after_sets
    after_sets-Stays limit orders (ok none c) s h = record {
      lines = (tt, h.lines);
      waiting = h.waiting;
    }
    after_sets-Stays limit orders (ok (some e) c) s h = record {
      lines = (tt, h.lines);
      waiting = h.waiting;
    }
    after_sets-Stays limit orders (err e c) s h = record { lines = h.lines; waiting = h.waiting }
    after_sets-Stays limit orders panic s h = tt

    after_last_to_cache-Stays :
        (arrange : List Order → List Order) (limit : ℕ) (out : Outcome F D (List Order))
        (s : Service E F C D)
        → Quiet s
        → Stays (after_last_to_cache cache storage arrange limit out s)
    unfolding after_last_to_cache
    after_last_to_cache-Stays arrange limit (ok orders d) s h =
        after_sets-Stays limit orders _ (record s { storage = d })
          (record { lines = h.lines; waiting = h.waiting })
    after_last_to_cache-Stays arrange limit (err e d) s h = record {
      lines = (tt, h.lines);
      waiting = h.waiting;
    }
    after_last_to_cache-Stays arrange limit panic s h = tt

    Turn-Quiet : {s t : Service E F C D} → Turn cache storage s t → Quiet s → Quiet t
    unfolding get_order save_order run_goroutine cache_last_orders
    Turn-Quiet (request {s} key) h =
        Stays-left (get_order cache storage key s) s h
          (after_cache-Stays key (cache.get key s.cache) s h)
    Turn-Quiet (message {s} o) h =
        Stays-left (save_order cache storage o s) s h
          (after_saving-Stays o (storage.save_order o s.storage) s h)
    Turn-Quiet (goroutine {s} before g after split) h =
        let parts =
          All-of_append _ before (g ∷ after)
            (subst (All (λ x. x.outer_err ≡ none)) split h.waiting) in
        let rest : Quiet (record s { pending = before ++ after }) = record {
          lines = h.lines;
          waiting = All-append _ before after parts.0 parts.1.1;
        } in
        Stays-left (run_goroutine cache storage g (record s { pending = before ++ after })) s h (
          subst
            (λ e. Stays (
              after_caching e g.key (cache.set g.order.order_uid g.order s.cache)
                (record s { pending = before ++ after })))
            (sym parts.1.0)
            (after_caching-Stays g.key (cache.set g.order.order_uid g.order s.cache)
              (record s { pending = before ++ after }) rest))
    Turn-Quiet (filling {s} arrange limit arranges) h =
        Stays-left (cache_last_orders cache storage arrange limit s) s h
          (after_last_to_cache-Stays arrange limit (storage.get_last_orders limit s.storage) s h)

    Reaches-Quiet : {s t : Service E F C D} → Reaches cache storage s t → Quiet s → Quiet t
    Reaches-Quiet here h = h
    Reaches-Quiet (run then turn) h = Turn-Quiet turn (Reaches-Quiet run h)

    -- From a service with an empty log and no goroutines, after any requests, messages, turns of the
    -- caching goroutines and fillings of the cache: the log has no line about an order that could not
    -- be cached, whatever errors the cache returned to the goroutines.
    pub reachable-log :
        (start s : Service E F C D)
        → start.log ≡ []
        → start.pending ≡ []
        → Reaches cache storage start s
        → All IsOther s.log
    reachable-log start s no_lines none_waiting run =
        let quiet : Quiet start = record {
          lines = subst (All IsOther) (sym no_lines) tt;
          waiting = subst (All (λ g. g.outer_err ≡ none)) (sym none_waiting) tt;
        } in
        let later = Reaches-Quiet run quiet in later.lines
