-- ===== src/Lru/Places.antt =====
-- Where a key stands among the entries, and what an eviction takes away.
use l0_wb_tech_school.Base.{
  ℕ, zero, suc, ◌+◌, ◌<◌, ◌≡◌, refl, ap, ◌∙◌, none, some, List, [], ◌∷◌, arith, Eq, ◌==◌, ==_refl,
  eq_of_==, length, take, get_elem?, remove_at, inl, inr, Bool-cases, if◌then◌else◌, ok,
}
use l0_wb_tech_school.Base.Int.{pos, negsuc}
use l0_wb_tech_school.LinkedList.Spec.{index_from, get_index}
use l0_wb_tech_school.Lru.Items.{keys, lookup, remove, Distinct}

module _ {ℓ} {K V : Type ℓ} ⦃eq : Eq K⦄ (k : K) where
  pub index_miss :
      (i : ℕ) (items : List (K × V))
      → lookup k items ≡ none
      → index_from (λ w. w == k) i (keys items) ≡ negsuc 0
  unfolding lookup index_from
  index_miss i [] h = refl
  index_miss i ((j, v) ∷ items) h = elim (Bool-cases (j == k)) [
    | inl e ↦ absurd (cc (rw e at h))
    | inr e ↦ rw e (index_miss (suc i) items (rw e at h))
  ]

  pub index_hit :
      (i : ℕ) (items : List (K × V)) {v : V}
      → lookup k items ≡ some v
      → (j : ℕ) × (index_from (λ w. w == k) i (keys items) ≡ pos (i + j))
        × (j < length items)
        × (get_elem? (keys items) j ≡ some k)
        × (remove_at j (keys items) ≡ keys (remove k items))
  unfolding lookup remove index_from
  index_hit i [] h = cc
  index_hit i ((j, u) ∷ items) {v} h = elim (Bool-cases (j == k)) [
    | inl e ↦ (0, rw e (ap pos (omega arith)), omega arith, ap some (eq_of_== j k e), rw e)
    | inr e ↦
        let (m, found, below, here, rest) = index_hit (suc i) items {v = v} (rw e at h) in
        (suc m, rw e (found ∙ ap pos (omega arith)), omega arith, here, rw e (ap (◌∷◌ j) rest))
  ]

module _ {ℓ} {K V : Type ℓ} ⦃eq : Eq K⦄ where
  pub lookup-eq-none_of_take :
      (j : K) (n : ℕ) (items : List (K × V))
      → lookup j items ≡ none
      → lookup j (take n items) ≡ none
  unfolding lookup
  lookup-eq-none_of_take j zero items h = refl
  lookup-eq-none_of_take j (suc n) [] h = refl
  lookup-eq-none_of_take j (suc n) ((i, v) ∷ items) h = elim (Bool-cases (i == j)) [
    | inl e ↦ absurd (cc (rw e at h))
    | inr e ↦ rw e (lookup-eq-none_of_take j n items (rw e at h))
  ]

  pub Distinct-take : (n : ℕ) (items : List (K × V)) → Distinct items → Distinct (take n items)
  Distinct-take zero items d = tt
  Distinct-take (suc n) [] d = tt
  Distinct-take (suc n) ((i, v) ∷ items) d =
      (lookup-eq-none_of_take i n items d.0, Distinct-take n items d.1)

  pub lookup_of_get_elem? :
      (n : ℕ) (items : List (K × V)) {k : K}
      → get_elem? (keys items) n ≡ some k
      → (lookup k items ≡ none)
      → ⊥
  unfolding lookup
  lookup_of_get_elem? n [] e h = cc
  lookup_of_get_elem? zero ((i, v) ∷ items) {k} e h = ground (arith, ==_refl k)
  lookup_of_get_elem? (suc n) ((i, v) ∷ items) {k} e h = elim (Bool-cases (i == k)) [
    | inl same ↦ cc (rw same at h)
    | inr other ↦ lookup_of_get_elem? n items e (rw other at h)
  ]

  -- With one entry too many, the entries that stay are those of every key but the last.
  pub lookup-take :
      (j : K) (n : ℕ) (items : List (K × V)) {last : K}
      → length items ≡ suc n
      → Distinct items
      → get_elem? (keys items) n ≡ some last
      → lookup j (take n items) ≡ (if j == last then none else lookup j items)
  unfolding lookup
  lookup-take j n [] size d e = cc
  lookup-take j zero ((i, v) ∷ []) {last} size d e =
      ground (arith, eq.equal_iff i j, eq.equal_iff j last)
  lookup-take j zero (x ∷ y ∷ items) size d e = absurd (omega arith)
  lookup-take j (suc n) ((i, v) ∷ items) {last} size d e = ground (
    arith,
    eq.equal_iff i j,
    eq.equal_iff j last,
    lookup-take j n items {last = last} (omega arith) d.1 e,
    lookup_of_get_elem? n items {k = last} e,
    d.0,
  )

  pub keys-take :
      (n : ℕ) (items : List (K × V))
      → length items ≡ suc n
      → keys (take n items) ≡ remove_at n (keys items)
  keys-take n [] size = absurd (omega arith)
  keys-take zero (x ∷ []) size = refl
  keys-take zero (x ∷ y ∷ items) size = absurd (omega arith)
  keys-take (suc n) (x ∷ items) size = ap (◌∷◌ (x.0)) (keys-take n items (omega arith))

module _ {ℓ} {K V : Type ℓ} ⦃eq : Eq K⦄ (k : K) where
  get_index-index_from :
      (items : List (K × V))
      → 0 < length items
      → get_index ◌==◌ k (keys items) ≡ ok (index_from (λ w. w == k) 0 (keys items)) (keys items)
  unfolding get_index
  get_index-index_from [] lt = absurd (omega arith)
  get_index-index_from (x ∷ items) lt = refl

  -- What `GetIndex` says of a key that has an entry.
  pub get_index_hit :
      (items : List (K × V)) {v : V}
      → lookup k items ≡ some v
      → (j : ℕ) × (get_index ◌==◌ k (keys items) ≡ ok (pos j) (keys items))
        × (j < length items)
        × (get_elem? (keys items) j ≡ some k)
        × (remove_at j (keys items) ≡ keys (remove k items))
  get_index_hit items h =
      let (j, found, below, here, rest) = index_hit k 0 items h in
      (
        j,
        get_index-index_from items (omega arith)
            ∙ ap (λ i. ok i (keys items)) (found ∙ ap pos (omega arith)),
        below,
        here,
        rest,
      )

  pub get_index_miss :
      (items : List (K × V))
      → 0 < length items
      → lookup k items ≡ none
      → get_index ◌==◌ k (keys items) ≡ ok (negsuc 0) (keys items)
  get_index_miss items lt h =
      get_index-index_from items lt ∙ ap (λ i. ok i (keys items)) (index_miss k 0 items h)
