-- ===== src/Lru/Items.antt =====
-- What an LRU cache stands for: its entries, the most recently used first, each key once.
use l0_wb_tech_school.Base.{
  ℕ, suc, ◌≤◌, ◌≡◌, refl, ap, ◌∙◌, Option, none, some, List, [], ◌∷◌, map, arith, Eq, ◌==◌, length,
  take, inl, inr, Bool-cases, ==_refl, if◌then◌else◌,
}
use l0_wb_tech_school.Base.Int.{ℤ, pos, negsuc}

-- How many entries a capacity allows: a negative one allows none.
abbrev pub room : ℤ → ℕ
room (pos n) = n
room (negsuc n) = 0

module _ {ℓ} {K V : Type ℓ} where
  abbrev pub keys : List (K × V) → List K
  keys = map λ entry. entry.0

module _ {ℓ} {K V : Type ℓ} ⦃eq : Eq K⦄ where
  unfoldable pub lookup : K → List (K × V) → Option V
  lookup k [] = none
  lookup k ((j, v) ∷ items) = if j == k then some v else lookup k items

  -- Drops the entry with the key.
  unfoldable pub remove : K → List (K × V) → List (K × V)
  remove k [] = []
  remove k ((j, v) ∷ items) = if j == k then items else (j, v) ∷ remove k items

  -- Stores the entry as the most recently used.
  abbrev pub touch : K → V → List (K × V) → List (K × V)
  touch k v items = (k, v) ∷ remove k items

  -- What `Get` leaves, and what `Set` leaves in a cache with `n` places.
  unfoldable pub after_get : K → List (K × V) → List (K × V)
  after_get k items = elim (lookup k items) [ none ↦ items | some v ↦ touch k v items ]

  unfoldable pub after_set : ℕ → K → V → List (K × V) → List (K × V)
  after_set n k v items = take n (touch k v items)

  -- No key stands twice.
  abbrev pub Distinct : List (K × V) → Type ℓ
  Distinct [] = Unit
  Distinct ((k, v) ∷ items) = (lookup k items ≡ none) × Distinct items

  pub lookup-remove :
      (j k : K) (items : List (K × V))
      → Distinct items
      → lookup j (remove k items) ≡ (if j == k then none else lookup j items)
  unfolding lookup remove
  lookup-remove j k [] d = ground arith
  lookup-remove j k ((i, v) ∷ items) d = ground (
    arith,
    eq.equal_iff i k,
    eq.equal_iff i j,
    eq.equal_iff j k,
    lookup-remove j k items d.1,
    d.0,
  )

  pub Distinct-remove : (k : K) (items : List (K × V)) → Distinct items → Distinct (remove k items)
  unfolding remove
  Distinct-remove k [] d = tt
  Distinct-remove k ((i, v) ∷ items) d = elim (Bool-cases (i == k)) [
    | inl h ↦ rw h d.1
    | inr h ↦ rw h (rw (lookup-remove i k items d.1, h) d.0, Distinct-remove k items d.1)
  ]

  pub length-remove-le : (k : K) (items : List (K × V)) → length (remove k items) ≤ length items
  unfolding remove
  length-remove-le k [] = omega arith
  length-remove-le k ((i, v) ∷ items) = ground (arith, length-remove-le k items)

  pub length-remove :
      (k : K) (items : List (K × V)) {v : V}
      → lookup k items ≡ some v
      → suc (length (remove k items)) ≡ length items
  unfolding remove lookup
  length-remove k [] h = cc
  length-remove k ((i, w) ∷ items) {v} h = elim (Bool-cases (i == k)) [
    | inl e ↦ rw e
    | inr e ↦ rw e (ap suc (length-remove k items {v = v} (rw e at h)))
  ]

  pub remove_absent :
      (k : K) (items : List (K × V)) → lookup k items ≡ none → remove k items ≡ items
  unfolding remove lookup
  remove_absent k [] h = refl
  remove_absent k ((i, v) ∷ items) h = elim (Bool-cases (i == k)) [
    | inl e ↦ absurd (cc (rw e at h))
    | inr e ↦ rw e (ap (◌∷◌ (i, v)) (remove_absent k items (rw e at h)))
  ]

  pub after_get_miss :
      (k : K) (items : List (K × V)) → lookup k items ≡ none → after_get k items ≡ items
  unfolding after_get
  after_get_miss k items h = rw (h, after_get)

  pub after_get_hit :
      (k : K) (items : List (K × V)) {v : V}
      → lookup k items ≡ some v
      → after_get k items ≡ touch k v items
  unfolding after_get
  after_get_hit k items h = rw (h, after_get)

  pub touch-Distinct :
      (k : K) (v : V) (items : List (K × V)) → Distinct items → Distinct (touch k v items)
  touch-Distinct k v items d =
      (lookup-remove k k items d ∙ rw (==_refl k), Distinct-remove k items d)

  pub lookup-touch :
      (k : K) (v : V) (items : List (K × V)) (j : K)
      → Distinct items
      → lookup j (touch k v items) ≡ (if k == j then some v else lookup j items)
  unfolding lookup
  lookup-touch k v items j d =
      ground (arith, eq.equal_iff k j, eq.equal_iff j k, lookup-remove j k items d)

  -- Using an entry changes no answer.
  pub lookup-touch_hit :
      (k : K) (items : List (K × V)) {v : V}
      → lookup k items ≡ some v
      → Distinct items
      → (j : K) → lookup j (touch k v items) ≡ lookup j items
  lookup-touch_hit k items {v} h d j = ground (arith, eq.equal_iff k j, lookup-touch k v items j d)
