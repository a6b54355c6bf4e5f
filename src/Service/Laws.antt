-- ===== src/Service/Laws.antt =====
-- What the service of order_service/internal/service/order_service.go relies on: the cache port kept
-- by an LRU cache.
use l0_wb_tech_school.Base.{ℕ, List, ok, Refines}
use l0_wb_tech_school.Base.Text.{Text, text_eq}
use l0_wb_tech_school.Models.{Order}
use l0_wb_tech_school.Service.{OrderCache}
use l0_wb_tech_school.Base.Int.{ℤ}
use l0_wb_tech_school.Lru
use l0_wb_tech_school.Lru.{CacheError, Cache, get_keys_amount}
use l0_wb_tech_school.Lru.Items.{room, lookup, after_get, after_set}
use l0_wb_tech_school.Lru.Calls.{Holds}
use l0_wb_tech_school.Lru.Refinement.{get-Holds, set-Holds}

pub record IsLru {ℓ} {E : Type 0} {C : Type ℓ} (cache : OrderCache E C) (places : ℕ)
    (Entries : C → List (Text × Order) → Type ℓ) : Type ℓ where
  pub get_entries :
      (key : Text) (c : C) (items : List (Text × Order))
      → Entries c items
      → Refines Entries (cache.get key c) (ok (lookup key items) (after_get key items))
  pub set_entries :
      (key : Text) (order : Order) (c : C) (items : List (Text × Order))
      → Entries c items
      → Refines Entries (cache.set key order c) (ok tt (after_set places key order items))

-- `NewOrderCacheAdapterInMemoryLRU` of order_service/internal/ports/adapters/cache/common_adapters.go.
abbrev pub lru_cache : OrderCache CacheError (Cache Text Order)
lru_cache = record { get = Lru.get; set = Lru.set; get_keys_amount = get_keys_amount }

pub lru_cache-IsLru : (capacity : ℤ) → IsLru lru_cache (room capacity) (Holds capacity)
lru_cache-IsLru capacity = record {
  get_entries = λ key c items h. get-Holds key c items h;
  set_entries = λ key order c items h. set-Holds key c order items h;
}
