-- ===== src/Tests/Serving.antt =====
-- The service of order_service/internal/service/order_service.go and its handler over an LRU cache of two
-- orders and a storage that is a list.
use l0_wb_tech_school.Base.{
  All, arith, ◌≡◌, refl, Bool, true, false, Option, none, some, List, [], ◌∷◌, take, Outcome, ok,
  err, if◌then◌else◌, ◌==◌,
}
use l0_wb_tech_school.Base.Int.{pos}
use l0_wb_tech_school.Base.Text.{Text, lit, text_eq}
use l0_wb_tech_school.Models.{Order}
use l0_wb_tech_school.Lru
use l0_wb_tech_school.Lru.{CacheError, Cache, new_cache}
use l0_wb_tech_school.Lru.History.{new_cache-Holds}
use l0_wb_tech_school.Service.{
  OrderCache, OrderStorage, Caching, Service, get_order, save_order, run_goroutine,
  cache_last_orders,
}
use l0_wb_tech_school.Service.Laws.{lru_cache, lru_cache-IsLru}
use l0_wb_tech_school.Service.Turns.{left, Reaches, message, goroutine, here, ◌then◌}
use l0_wb_tech_school.Service.Warm.{get_order-cache_last_orders}
use l0_wb_tech_school.Service.Logging.{IsOther, reachable-log}
use l0_wb_tech_school.Tests.Validating.{an_order}

pub data TableError : Type 0 where
  missing taken : TableError

unfoldable pub find : List Order → Text → Option Order
find [] key = none
find (o ∷ os) key = if o.order_uid == key then some o else find os key

unfoldable pub read : Option Order → List Order → Outcome TableError (List Order) Order
read none d = err missing d
read (some o) d = ok o d

unfoldable pub save : Order → Option Order → List Order → Outcome TableError (List Order) (Unit {0})
save o none d = ok tt (o ∷ d)
save o (some old) d = err taken d

-- The orders that the table gives for the ids of `orders`.
abbrev add_found : Option Order → List Order → List Order
add_found none later = later
add_found (some o) later = o ∷ later

found : List Order → List Order → List Order
found [] d = []
found (o ∷ orders) d = add_found (find d o.order_uid) (found orders d)

unfoldable pub list_storage : OrderStorage TableError (List Order)
unfolding find read save found
list_storage = record {
  get_order_by_id = λ key d. read (find d key) d;
  get_last_orders = λ limit d. ok (found (take limit d) d) d;
  save_order = λ o d. save o (find d o.order_uid) d;
}

abbrev pub start : Service CacheError TableError (Cache Text Order) (List Order)
start = record { cache = new_cache (pos 2); storage = []; pending = []; log = [] }

abbrev pub saved : Service CacheError TableError (Cache Text Order) (List Order)
saved = left (save_order lru_cache list_storage an_order start) start

abbrev pub served : Service CacheError TableError (Cache Text Order) (List Order)
served = left (get_order lru_cache list_storage (lit "b563") saved) saved

abbrev pub is_missing : TableError → Bool
is_missing missing = true
is_missing taken = false

-- The order is stored and its goroutine has not run: the cache is empty.
get_order-cache_last_orders_example :
    (t : Service CacheError TableError (Cache Text Order) (List Order)) × (cache_last_orders
        lru_cache list_storage
        (λ orders. orders)
        5
        saved
      ≡ ok tt t)
    × (c : Cache Text Order) × (get_order lru_cache list_storage an_order.order_uid t
        ≡ ok an_order (record t { cache = c }))
unfolding save_order list_storage find found new_cache
get_order-cache_last_orders_example =
    get_order-cache_last_orders lru_cache list_storage (lru_cache-IsLru (pos 2)) (λ orders. orders)
      5 saved [] (new_cache-Holds (pos 2)) (an_order ∷ []) saved.storage refl [] [] an_order refl tt
      (omega arith)

-- A cache that refuses everything: its goroutine logs no line.
refusing : OrderCache TableError (Unit {0})
refusing = record {
  get = λ key c. err missing c;
  set = λ key o c. err taken c;
  get_keys_amount = λ c. 0;
}

abbrev refused : Service TableError TableError (Unit {0}) (List Order)
refused = record { cache = tt; storage = []; pending = []; log = [] }

abbrev waiting : Service TableError TableError (Unit {0}) (List Order)
waiting = left (save_order refusing list_storage an_order refused) refused

abbrev caching : Caching TableError
caching = record { order = an_order; key = an_order.order_uid; outer_err = none }

abbrev not_cached : Service TableError TableError (Unit {0}) (List Order)
not_cached =
    let s = record waiting { pending = [] } in
    left (run_goroutine refusing list_storage caching s) waiting

refuses : Reaches refusing list_storage refused not_cached
unfolding save_order list_storage find save
refuses = here then message an_order then goroutine [] caching [] refl

reachable-log_example : All IsOther not_cached.log
reachable-log_example = reachable-log refusing list_storage refused not_cached refl refl refuses
