-- ===== src/Service/Filling.antt =====
-- `CacheLastOrders` of order_service/internal/service/order_service.go over an LRU cache.
use l0_wb_tech_school.Base.{
  ℕ, subst, List, [], ◌∷◌, none, All, All-append, All-of_append, ok, Refines, both_ok, refines_ok,
}
use l0_wb_tech_school.Base.Text.{Text, text_eq}
use l0_wb_tech_school.Models.{Order}
use l0_wb_tech_school.Lru.Items.{after_set}
use l0_wb_tech_school.Service.{OrderCache, OrderStorage, run_sets}
use l0_wb_tech_school.Service.Laws.{IsLru}
use l0_wb_tech_school.Service.Entries.{All-after_set}
use l0_wb_tech_school.Service.Turns.{Arranged, none_left, take_from}

-- The entries after the orders were set in turn.
abbrev pub filled : ℕ → List Order → List (Text × Order) → List (Text × Order)
filled n [] items = items
filled n (o ∷ orders) items = filled n orders (after_set n o.order_uid o items)

module _ {κ} (P : Text × Order → Type κ) where
  pub All-filled :
      (n : ℕ) (orders : List Order) (items : List (Text × Order))
      → All (λ o. P (o.order_uid, o)) orders
      → All P items
      → All P (filled n orders items)
  All-filled n [] items h k = k
  All-filled n (o ∷ orders) items h k =
      All-filled n orders (after_set n o.order_uid o items) h.1
        (All-after_set P n o.order_uid o items h.0 k)

pub All-Arranged {κ} :
    (P : Order → Type κ) {orders arranged : List Order}
    → Arranged orders arranged
    → All P orders
    → All P arranged
All-Arranged P none_left h = tt
All-Arranged P (take_from before o after split rest) h =
    let parts = All-of_append P before (o ∷ after) (subst (All P) split h) in
    (parts.1.0, All-Arranged P rest (All-append P before after parts.0 parts.1.1))

module _ {ℓ} {E F : Type 0} {C D : Type ℓ} (cache : OrderCache E C) (storage : OrderStorage F D)
    {places : ℕ} {Entries : C → List (Text × Order) → Type ℓ}
    (lru : IsLru cache places Entries) where
  pub run_sets-filled :
      (orders : List Order) (c : C) (items : List (Text × Order))
      → Entries c items
      → Refines Entries (run_sets cache storage orders c) (ok none (filled places orders items))
  unfolding run_sets
  run_sets-filled [] c items h = both_ok h
  run_sets-filled (o ∷ orders) c items h =
      let (c', answered, kept) = refines_ok (lru.set_entries o.order_uid o c items h) in
      rw answered (run_sets-filled orders c' (after_set places o.order_uid o items) kept)
