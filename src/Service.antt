-- ===== src/Service.antt =====
-- `OrderService` of order_service/internal/service/order_service.go over the ports of
-- order_service/internal/ports/ports.go. A goroutine that it starts stands in `pending`, and it runs as
-- a step of its own.
pub mod Laws
pub mod Filling
pub mod Warm
pub mod Coherent
pub mod Entries
pub mod Logging
pub mod Turns
pub mod Transparent
use l0_wb_tech_school.Base.{
  ℕ, Bool, false, true, Option, none, some, List, [], ◌∷◌, ◌++◌, length, Outcome, ok, err, panic,
  Cmd,
}
use l0_wb_tech_school.Base.Text.{Text}
use l0_wb_tech_school.Models.{Order}

-- `ports.OrderCache` and `ports.OrderStorage`
pub record OrderCache {ℓ} (E : Type 0) (C : Type ℓ) : Type ℓ where
  pub get : Text → Cmd E C (Option Order)
  pub set : Text → Order → Cmd E C (Unit {0})
  pub get_keys_amount : C → ℕ

pub record OrderStorage {ℓ} (F : Type 0) (D : Type ℓ) : Type ℓ where
  pub get_order_by_id : Text → Cmd F D Order
  pub get_last_orders : ℕ → Cmd F D (List Order)
  pub save_order : Order → Cmd F D (Unit {0})

-- What the service writes to its log.
pub data LogLine (E F : Type 0) : Type 0 where
  error_retrieving error_saving : Text → F → LogLine E F
  error_caching : Text → Option E → LogLine E F
  error_getting_last error_getting_last_to_cache : ℕ → F → LogLine E F
  error_caching_last : ℕ → E → LogLine E F
  saved_order : Text → LogLine E F
  cached_last_orders : ℕ → ℕ → LogLine E F

pub data ServiceError (E F : Type 0) : Type 0 where
  error_checking_cache error_caching_orders : E → ServiceError E F
  storage_error getting_last getting_last_to_cache : F → ServiceError E F

-- A goroutine that is to cache an order, with what it captures of the function around it: the key
-- that it logs, and `err`.
pub record Caching (F : Type 0) : Type 0 where
  pub order : Order
  pub key : Text
  pub outer_err : Option F

pub record Service {ℓ} (E F : Type 0) (C D : Type ℓ) : Type ℓ where
  pub cache : C
  pub storage : D
  pub pending : List (Caching F)
  pub log : List (LogLine E F)

module _ {ℓ} {E F : Type 0} {C D : Type ℓ} where
  abbrev pub logging : LogLine E F → Service E F C D → Service E F C D
  logging line s = record s { log = line ∷ s.log }

  -- `go func() { … }`
  abbrev pub starting : Order → Text → Option F → Service E F C D → Service E F C D
  starting order key e s = record s {
    pending = record { order = order; key = key; outer_err = e } ∷ s.pending;
  }

  -- A goroutine is started where `err` is nil. `GetOrder` once the storage has answered, and once the cache has.
  unfoldable pub after_storage :
      Text → Outcome F D Order → Cmd (ServiceError E F) (Service E F C D) Order
  after_storage key (ok order d) s = ok order (starting order key none (record s { storage = d }))
  after_storage key (err e d) s =
      err (storage_error e) (logging (error_retrieving key e) (record s { storage = d }))
  after_storage key panic s = panic

  -- The goroutines test the `err` that they captured.
  unfoldable pub log_caching : Option F → Text → Option E → Service E F C D → Service E F C D
  log_caching none key cache_err s = s
  log_caching (some e) key cache_err s = logging (error_caching key cache_err) s

  unfoldable pub after_caching :
      Option F → Text → Outcome E C (Unit {0}) → Cmd (ServiceError E F) (Service E F C D) (Unit {0})
  unfolding log_caching
  after_caching outer_err key (ok u c) s =
      ok tt (log_caching outer_err key none (record s { cache = c }))
  after_caching outer_err key (err e c) s =
      ok tt (log_caching outer_err key (some e) (record s { cache = c }))
  after_caching outer_err key panic s = panic

  unfoldable pub after_saving :
      Order → Outcome F D (Unit {0}) → Cmd (ServiceError E F) (Service E F C D) (Unit {0})
  after_saving order (ok u d) s = ok tt (
      logging (saved_order order.order_uid)
        (starting order order.order_uid none (record s { storage = d })))
  after_saving order (err e d) s =
      err (storage_error e) (logging (error_saving order.order_uid e) (record s { storage = d }))
  after_saving order panic s = panic

  unfoldable pub after_last :
      ℕ → Outcome F D (List Order) → Cmd (ServiceError E F) (Service E F C D) (List Order)
  after_last limit (ok orders d) s = ok orders (record s { storage = d })
  after_last limit (err e d) s =
      err (getting_last e) (logging (error_getting_last limit e) (record s { storage = d }))
  after_last limit panic s = panic

module _ {ℓ} {E F : Type 0} {C D : Type ℓ} (cache : OrderCache E C)
    (storage : OrderStorage F D) where
  unfoldable pub after_cache :
      Text → Outcome E C (Option Order) → Cmd (ServiceError E F) (Service E F C D) Order
  unfolding after_storage
  after_cache key (ok (some order) c) s = ok order (record s { cache = c })
  after_cache key (ok none c) s =
      after_storage key (storage.get_order_by_id key s.storage) (record s { cache = c })
  after_cache key (err e c) s = err (error_checking_cache e) (record s { cache = c })
  after_cache key panic s = panic

  unfoldable pub get_order : Text → Cmd (ServiceError E F) (Service E F C D) Order
  unfolding after_cache
  get_order order_uid s = after_cache order_uid (cache.get order_uid s.cache) s

  unfoldable pub get_last_orders : ℕ → Cmd (ServiceError E F) (Service E F C D) (List Order)
  unfolding after_last
  get_last_orders limit s = after_last limit (storage.get_last_orders limit s.storage) s

  unfoldable pub save_order : Order → Cmd (ServiceError E F) (Service E F C D) (Unit {0})
  unfolding after_saving
  save_order order s = after_saving order (storage.save_order order s.storage) s

  -- A goroutine of `GetOrder` or `SaveOrder`.
  unfoldable pub run_goroutine : Caching F → Cmd (ServiceError E F) (Service E F C D) (Unit {0})
  unfolding after_caching
  run_goroutine g s =
      after_caching g.outer_err g.key (cache.set g.order.order_uid g.order s.cache) s

  -- `eg.Go` for each order and `eg.Wait`, with the goroutines in the order in which they get the lock:
  -- all run, and the first error is the answer.
  abbrev pub with_error : E → Outcome E C (Option E) → Outcome E C (Option E)
  with_error e (ok later c) = ok (some e) c
  with_error e (err f c) = err f c
  with_error e panic = panic

  abbrev pub go_on : Outcome E C (Unit {0}) → (C → Outcome E C (Option E)) → Outcome E C (Option E)
  go_on (ok u c) rest = rest c
  go_on (err e c) rest = with_error e (rest c)
  go_on panic rest = panic

  unfoldable pub run_sets : List Order → C → Outcome E C (Option E)
  run_sets [] c = ok none c
  run_sets (order ∷ orders) c = go_on (cache.set order.order_uid order c) (run_sets orders)

  unfoldable pub after_sets :
      ℕ → List Order → Outcome E C (Option E) → Cmd (ServiceError E F) (Service E F C D) (Unit {0})
  after_sets limit orders (ok none c) s = ok tt (
      logging (cached_last_orders (length orders) (cache.get_keys_amount c))
        (record s { cache = c }))
  after_sets limit orders (ok (some e) c) s =
      err (error_caching_orders e) (logging (error_caching_last limit e) (record s { cache = c }))
  after_sets limit orders (err e c) s = err (error_caching_orders e) (record s { cache = c })
  after_sets limit orders panic s = panic

  unfoldable pub after_last_to_cache :
      (List Order → List Order)
      → ℕ
      → Outcome F D (List Order)
      → Cmd (ServiceError E F) (Service E F C D) (Unit {0})
  unfolding run_sets after_sets
  after_last_to_cache arrange limit (ok orders d) s =
      after_sets limit orders (run_sets (arrange orders) s.cache) (record s { storage = d })
  after_last_to_cache arrange limit (err e d) s =
      err (getting_last_to_cache e)
        (logging (error_getting_last_to_cache limit e) (record s { storage = d }))
  after_last_to_cache arrange limit panic s = panic

  -- `arrange` puts the orders in the order in which their goroutines run.
  unfoldable pub cache_last_orders :
      (List Order → List Order) → ℕ → Cmd (ServiceError E F) (Service E F C D) (Unit {0})
  unfolding after_last_to_cache
  cache_last_orders arrange limit s =
      after_last_to_cache arrange limit (storage.get_last_orders limit s.storage) s
