-- ===== src/Service/Warm.antt =====
-- What `CacheLastOrders` of order_service/internal/service/order_service.go leaves in the cache.
use l0_wb_tech_school.Base.{
  ℕ, zero, suc, ◌+◌, ◌≤◌, ◌<◌, ◌≡◌, ◌≢◌, refl, sym, ap, subst, arith, false, some, List, [], ◌∷◌,
  ◌++◌, length, take, All, ok, refines_ok, Bool-cases, inl, inr, ◌==◌, eq_of_==, ==_refl,
}
use l0_wb_tech_school.Base.Text.{Text, text_eq}
use l0_wb_tech_school.Models.{Order}
use l0_wb_tech_school.Lru.Items.{lookup, remove, after_set}
use l0_wb_tech_school.Service.{
  OrderCache, OrderStorage, Service, logging, cached_last_orders, after_cache, get_order,
  after_sets, after_last_to_cache, cache_last_orders,
}
use l0_wb_tech_school.Service.Laws.{IsLru}
use l0_wb_tech_school.Service.Filling.{filled, run_sets-filled}

abbrev Entry : Type 0
Entry = Text × Order

-- The key is among the first `m` entries.
lookup-take :
    (m : ℕ) (k : Text) (v : Order) (items : List Entry)
    → lookup k (take m items) ≡ some v
    → lookup k items ≡ some v
unfolding lookup
lookup-take zero k v items h = absurd (cc h)
lookup-take (suc m) k v [] h = absurd (cc h)
lookup-take (suc m) k v ((j, w) ∷ items) h = elim (Bool-cases (j == k)) [
  | inl hit ↦ rw hit (rw hit at h)
  | inr miss ↦ rw miss (lookup-take m k v items (rw miss at h))
]

lookup-take_more :
    (m n : ℕ) (k : Text) (v : Order) (items : List Entry)
    → m ≤ n
    → lookup k (take m items) ≡ some v
    → lookup k (take n items) ≡ some v
unfolding lookup
lookup-take_more zero n k v items le h = absurd (cc h)
lookup-take_more (suc m) n k v [] le h = absurd (cc h)
lookup-take_more (suc m) zero k v ((j, w) ∷ items) le h = absurd (omega arith)
lookup-take_more (suc m) (suc n) k v ((j, w) ∷ items) le h = elim (Bool-cases (j == k)) [
  | inl hit ↦ rw hit (rw hit at h)
  | inr miss ↦ rw miss (lookup-take_more m n k v items (omega arith) (rw miss at h))
]

-- Dropping another key brings it no further back.
lookup-take-remove :
    (m : ℕ) (j k : Text) (v : Order) (items : List Entry)
    → (j == k) ≡ false
    → lookup k (take m items) ≡ some v
    → lookup k (take m (remove j items)) ≡ some v
unfolding lookup remove
lookup-take-remove zero j k v items other h = absurd (cc h)
lookup-take-remove (suc m) j k v [] other h = absurd (cc h)
lookup-take-remove (suc m) j k v ((i, w) ∷ items) other h = elim (Bool-cases (i == j)) [
  | inl same ↦
      let miss : (i == k) ≡ false = subst (λ x. (x == k) ≡ false) (sym (eq_of_== i j same)) other in
      rw same (lookup-take_more m (suc m) k v items (omega arith) (rw miss at h))
  | inr differs ↦ rw differs (elim (Bool-cases (i == k)) [
    | inl hit ↦ rw hit (rw hit at h)
    | inr miss ↦ rw miss (lookup-take-remove m j k v items other (rw miss at h))
  ])
]

take-take : (m n : ℕ) (items : List Entry) → m ≤ n → take m (take n items) ≡ take m items
take-take zero n items le = refl
take-take (suc m) zero items le = absurd (omega arith)
take-take (suc m) (suc n) [] le = refl
take-take (suc m) (suc n) (x ∷ items) le = ap (◌∷◌ x) (take-take m n items (omega arith))

eq_false : (j k : Text) → j ≢ k → (j == k) ≡ false
eq_false j k n = elim (Bool-cases (j == k)) [
  | inl same ↦ absurd (n (eq_of_== j k same))
  | inr differs ↦ differs
]

lookup-after_set :
    (m n : ℕ) (j k : Text) (w v : Order) (items : List Entry)
    → j ≢ k
    → suc m ≤ n
    → lookup k (take m items) ≡ some v
    → lookup k (take (suc m) (after_set n j w items)) ≡ some v
unfolding after_set lookup
lookup-after_set m n j k w v items other le h =
    rw (take-take (suc m) n ((j, w) ∷ remove j items) le)
      (rw (eq_false j k other) (lookup-take-remove m j k v items (eq_false j k other) h))

lookup-filled :
    (n m : ℕ) (orders : List Order) (o : Order) (items : List Entry)
    → All (λ x. x.order_uid ≢ o.order_uid) orders
    → m + length orders ≤ n
    → lookup o.order_uid (take m items) ≡ some o
    → lookup o.order_uid (filled n orders items) ≡ some o
lookup-filled n m [] o items others le h = lookup-take m o.order_uid o items h
lookup-filled n m (x ∷ orders) o items others le h =
    lookup-filled n (suc m) orders o (after_set n x.order_uid x items) others.1 (omega arith)
      (lookup-after_set m n x.order_uid o.order_uid x o items others.0 (omega arith) h)

filled-append :
    (n : ℕ) (before after : List Order) (items : List Entry)
    → filled n (before ++ after) items ≡ filled n after (filled n before items)
filled-append n [] after items = refl
filled-append n (x ∷ before) after items =
    filled-append n before after (after_set n x.order_uid x items)

lookup-filled_split :
    (n : ℕ) (before after : List Order) (o : Order) (items : List Entry)
    → All (λ x. x.order_uid ≢ o.order_uid) after
    → length after < n
    → lookup o.order_uid (filled n (before ++ o ∷ after) items) ≡ some o
unfolding after_set lookup
lookup-filled_split n before after o items others lt =
    let last = after_set n o.order_uid o (filled n before items) in
    let first : lookup o.order_uid (take 1 last) ≡ some o =
      rw
        (take-take 1 n ((o.order_uid, o) ∷ remove o.order_uid (filled n before items))
          (omega arith))
        (rw (==_refl o.order_uid)) in
    rw (filled-append n before (o ∷ after) items)
      (lookup-filled n 1 after o last others (omega arith) first)

module _ {ℓ} {E F : Type 0} {C D : Type ℓ} (cache : OrderCache E C) (storage : OrderStorage F D)
    {places : ℕ} {Entries : C → List (Text × Order) → Type ℓ} (lru : IsLru cache places Entries)
    (arrange : List Order → List Order) (limit : ℕ) (s : Service E F C D)
    (items : List (Text × Order)) (start : Entries s.cache items) (orders : List Order) (d : D)
    (read : storage.get_last_orders limit s.storage ≡ ok orders d) where
  cache_last_orders-filled :
      (c : C) × (cache_last_orders cache storage arrange limit s
        ≡ ok tt (
            logging
              (cached_last_orders (length orders) (cache.get_keys_amount c))
              (record s { storage = d; cache = c })))
      × Entries c (filled places (arrange orders) items)
  unfolding cache_last_orders after_last_to_cache after_sets
  cache_last_orders-filled =
      let (c, answered, kept) =
        refines_ok (run_sets-filled cache storage lru (arrange orders) s.cache items start) in
      (c, rw read (rw answered refl), kept)

  -- `CacheLastOrders` returns no error if the storage gives the last orders. Then `GetOrder` answers
  -- for an order from the cache, without asking the storage, if its goroutine was followed by fewer
  -- others than the cache has places, and by none for the same id, in whatever order the goroutines
  -- ran. It holds for a cache that is an LRU cache, with any entries before.
  pub get_order-cache_last_orders :
      (before after : List Order) (o : Order)
      → arrange orders ≡ before ++ o ∷ after
      → All (λ x. x.order_uid ≢ o.order_uid) after
      → length after < places
      → (t : Service E F C D) × (cache_last_orders cache storage arrange limit s ≡ ok tt t)
        × (c : C) × (get_order cache storage o.order_uid t ≡ ok o (record t { cache = c }))
  unfolding get_order after_cache
  get_order-cache_last_orders before after o split others lt =
      let (c, filled_ok, kept) = cache_last_orders-filled in
      let (c', answered, rest) =
        refines_ok (lru.get_entries o.order_uid c (filled places (arrange orders) items) kept) in
      let there : lookup o.order_uid (filled places (arrange orders) items) ≡ some o =
        rw split (lookup-filled_split places before after o items others lt) in
      (
        logging (cached_last_orders (length orders) (cache.get_keys_amount c))
            (record s { storage = d; cache = c }),
        filled_ok,
        c',
        rw answered (rw there refl),
      )
