-- ===== src/Service/Coherent.antt =====
-- A service whose cached orders all keep a predicate that holds of what the storage gives or takes, and
-- the operations that keep it so, in order_service/internal/service/order_service.go.
use l0_wb_tech_school.Base.{
  ℕ, ◌≡◌, refl, sym, ap, subst, Option, none, some, List, [], ◌∷◌, ◌++◌, All, All-append,
  All-of_append, Outcome, ok, err, panic, refines_ok,
}
use l0_wb_tech_school.Base.Text.{Text, text_eq}
use l0_wb_tech_school.Models.{Order}
use l0_wb_tech_school.Lru.Items.{lookup, after_get, after_set}
use l0_wb_tech_school.Service.{
  OrderCache, OrderStorage, ServiceError, Caching, Service, after_storage, after_caching,
  log_caching, after_saving, after_cache, get_order, save_order, run_goroutine, after_sets,
  after_last_to_cache, cache_last_orders,
}
use l0_wb_tech_school.Service.Laws.{IsLru}
use l0_wb_tech_school.Service.Filling.{filled, All-filled, All-Arranged, run_sets-filled}
use l0_wb_tech_school.Service.Entries.{All-lookup, All-after_get, All-after_set}
use l0_wb_tech_school.Service.Turns.{Arranged, Gave, read, read_named, saved, among_last}

-- What holds of each element by its place holds of all.
All_of_places {ℓ κ} :
    {A : Type ℓ} (P : A → Type κ) (xs : List A)
    → ((before : List A) (x : A) (after : List A) → xs ≡ before ++ x ∷ after → P x)
    → All P xs
All_of_places P [] h = tt
All_of_places P (x ∷ xs) h = (
  h [] x xs refl,
  All_of_places P xs (λ before y after e. h (x ∷ before) y after (ap (λ z. x ∷ z) e)),
)

module _ {ℓ} {E F : Type 0} {C D : Type ℓ} (cache : OrderCache E C) (storage : OrderStorage F D)
    {places : ℕ} {Entries : C → List (Text × Order) → Type ℓ} (lru : IsLru cache places Entries)
    (P : Text → Order → Type ℓ) where
  -- Every cached order keeps `P`, and so does every order that a goroutine is to cache.
  pub record Coherent (s : Service E F C D) : Type ℓ where
    pub items : List (Text × Order)
    pub cached : Entries s.cache items
    pub entries : All (λ e. P e.0 e.1) items
    pub waiting : All (λ g. P g.order.order_uid g.order) s.pending

  -- The order that a call returns for the key keeps `P`, and the service stays coherent.
  abbrev pub Right : Text → Outcome (ServiceError E F) (Service E F C D) Order → Type ℓ
  Right key (ok o s) = P key o × Coherent s
  Right key (err e s) = Coherent s
  Right key panic = Unit

  abbrev pub Given : D → Type ℓ
  Given d = (key : Text) (o : Order) → Gave cache storage d key o → P key o

  after_storage-Right :
      (key : Text) (s : Service E F C D) (out : Outcome F D Order)
      → storage.get_order_by_id key s.storage ≡ out
      → Given s.storage
      → Coherent s
      → Right key (after_storage key out s)
  unfolding after_storage
  after_storage-Right key s (ok o d) e given h = (
    given key o (read e),
    record {
      items = h.items;
      cached = h.cached;
      entries = h.entries;
      waiting = (given o.order_uid o (read_named e), h.waiting);
    },
  )
  after_storage-Right key s (err x d) e given h = record {
    items = h.items;
    cached = h.cached;
    entries = h.entries;
    waiting = h.waiting;
  }
  after_storage-Right key s panic e given h = tt

  after_cache-Right :
      (key : Text) (s : Service E F C D) (h : Coherent s) (c : C) (o : Option Order)
      → Given s.storage
      → lookup key h.items ≡ o
      → Entries c (after_get key h.items)
      → Right key (after_cache cache storage key (ok o c) s)
  unfolding after_cache
  after_cache-Right key s h c (some o) given e kept = (
    All-lookup (λ e. P e.0 e.1) key h.items e h.entries,
    record {
      items = after_get key h.items;
      cached = kept;
      entries = All-after_get _ key h.items h.entries;
      waiting = h.waiting;
    },
  )
  after_cache-Right key s h c none given e kept =
      after_storage-Right key (record s { cache = c }) _ refl given
        (record {
          items = after_get key h.items;
          cached = kept;
          entries = All-after_get _ key h.items h.entries;
          waiting = h.waiting;
        })

  pub get_order-Right :
      (key : Text) (s : Service E F C D)
      → Given s.storage
      → Coherent s
      → Right key (get_order cache storage key s)
  unfolding get_order
  get_order-Right key s given h =
      let (c, answered, kept) = refines_ok (lru.get_entries key s.cache h.items h.cached) in
      subst (λ out. Right key (after_cache cache storage key out s)) (sym answered)
        (after_cache-Right key s h c (lookup key h.items) given refl kept)

  -- A service stays coherent, whatever it answers.
  abbrev pub Stays {κ} : {A : Type κ} → Outcome (ServiceError E F) (Service E F C D) A → Type ℓ
  Stays (ok a s) = Coherent s
  Stays (err e s) = Coherent s
  Stays panic = Unit

  after_saving-Stays :
      (o : Order) (s : Service E F C D) (out : Outcome F D (Unit {0}))
      → storage.save_order o s.storage ≡ out
      → Given s.storage
      → Coherent s
      → Stays (after_saving o out s)
  unfolding after_saving
  after_saving-Stays o s (ok u d) e given h = record {
    items = h.items;
    cached = h.cached;
    entries = h.entries;
    waiting = (given o.order_uid o (saved e), h.waiting);
  }
  after_saving-Stays o s (err x d) e given h = record {
    items = h.items;
    cached = h.cached;
    entries = h.entries;
    waiting = h.waiting;
  }
  after_saving-Stays o s panic e given h = tt

  pub save_order-Stays :
      (o : Order) (s : Service E F C D)
      → Given s.storage
      → Coherent s
      → Stays (save_order cache storage o s)
  unfolding save_order
  save_order-Stays o s given h = after_saving-Stays o s _ refl given h

  set_down :
      (outer_err : Option F) (key : Text) (s : Service E F C D)
      → Coherent s
      → Coherent (log_caching outer_err key none s)
  unfolding log_caching
  set_down none key s h = h
  set_down (some e) key s h = record {
    items = h.items;
    cached = h.cached;
    entries = h.entries;
    waiting = h.waiting;
  }

  pub run_goroutine-Stays :
      (before : List (Caching F)) (g : Caching F) (after : List (Caching F)) (s : Service E F C D)
      → s.pending ≡ before ++ g ∷ after
      → Coherent s
      → Stays (run_goroutine cache storage g (record s { pending = before ++ after }))
  unfolding run_goroutine after_caching
  run_goroutine-Stays before g after s split h =
      let o = g.order in
      let parts =
        All-of_append _ before (g ∷ after)
          (subst (All (λ x. P x.order.order_uid x.order)) split h.waiting) in
      let (c, answered, kept) =
        refines_ok (lru.set_entries o.order_uid o s.cache h.items h.cached) in
      subst
        (λ out.
          Stays (after_caching g.outer_err g.key out (record s { pending = before ++ after })))
        (sym answered)
        (set_down g.outer_err g.key (record s { pending = before ++ after; cache = c })
          (record {
            items = after_set places o.order_uid o h.items;
            cached = kept;
            entries = All-after_set _ places o.order_uid o h.items parts.1.0 h.entries;
            waiting = All-append _ before after parts.0 parts.1.1;
          }))

  after_last_to_cache-Stays :
      (arrange : List Order → List Order) (limit : ℕ) (s : Service E F C D)
      (out : Outcome F D (List Order))
      → storage.get_last_orders limit s.storage ≡ out
      → ((orders : List Order) → Arranged orders (arrange orders))
      → Given s.storage
      → Coherent s
      → Stays (after_last_to_cache cache storage arrange limit out s)
  unfolding after_last_to_cache after_sets
  after_last_to_cache-Stays arrange limit s (ok orders d) e arranges given h =
      let all =
        All-Arranged (λ o. P o.order_uid o) (arranges orders)
          (All_of_places (λ o. P o.order_uid o) orders
            (λ before o after split. given o.order_uid o (among_last before o after e split))) in
      let (c, answered, kept) =
        refines_ok (run_sets-filled cache storage lru (arrange orders) s.cache h.items h.cached) in
      subst (λ sets. Stays (after_sets cache storage limit orders sets (record s { storage = d })))
        (sym answered)
        (record {
          items = filled places (arrange orders) h.items;
          cached = kept;
          entries = All-filled (λ e. P e.0 e.1) places (arrange orders) h.items all h.entries;
          waiting = h.waiting;
        })
  after_last_to_cache-Stays arrange limit s (err x d) e arranges given h = record {
    items = h.items;
    cached = h.cached;
    entries = h.entries;
    waiting = h.waiting;
  }
  after_last_to_cache-Stays arrange limit s panic e arranges given h = tt

  pub cache_last_orders-Stays :
      (arrange : List Order → List Order) (limit : ℕ) (s : Service E F C D)
      → ((orders : List Order) → Arranged orders (arrange orders))
      → Given s.storage
      → Coherent s
      → Stays (cache_last_orders cache storage arrange limit s)
  unfolding cache_last_orders
  cache_last_orders-Stays arrange limit s arranges given h =
      after_last_to_cache-Stays arrange limit s _ refl arranges given h
