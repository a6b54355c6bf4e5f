-- ===== src/Service/Entries.antt =====
-- Predicates on every entry of the cache that order_service/internal/service/order_service.go uses.
use l0_wb_tech_school.Base.{
  ℕ, zero, suc, ◌≡◌, subst, some, List, [], ◌∷◌, take, All, Bool-cases, Option-cases, inl, inr,
  ◌==◌, eq_of_==,
}
use l0_wb_tech_school.Base.Text.{Text, text_eq}
use l0_wb_tech_school.Models.{Order}
use l0_wb_tech_school.Lru.Items.{
  lookup, remove, touch, after_get, after_get_hit, after_get_miss, after_set,
}

-- A predicate on every entry, through what the cache does to its entries.
module _ {ℓ κ} {A : Type ℓ} (P : A → Type κ) where
  pub All-take : (n : ℕ) (xs : List A) → All P xs → All P (take n xs)
  All-take zero xs h = tt
  All-take (suc n) [] h = tt
  All-take (suc n) (x ∷ xs) h = (h.0, All-take n xs h.1)

module _ {κ} (P : Text × Order → Type κ) where
  All-remove : (key : Text) (items : List (Text × Order)) → All P items → All P (remove key items)
  unfolding remove
  All-remove key [] h = tt
  All-remove key ((j, v) ∷ items) h = elim (Bool-cases (j == key)) [
    | inl e ↦ rw e h.1
    | inr e ↦ rw e (h.0, All-remove key items h.1)
  ]

  pub All-lookup :
      (key : Text) (items : List (Text × Order)) {v : Order}
      → lookup key items ≡ some v
      → All P items
      → P (key, v)
  unfolding lookup
  All-lookup key [] e h = cc e
  All-lookup key ((j, w) ∷ items) {v} e h = elim (Bool-cases (j == key)) [
    | inl hit ↦
        let found : some w ≡ some v = rw hit at e in
        let same : w ≡ v = cc found in
        subst (λ x. P (key, x)) same (subst (λ k. P (k, w)) (eq_of_== j key hit) h.0)
    | inr miss ↦ All-lookup key items (rw miss at e) h.1
  ]

  pub All-after_get :
      (key : Text) (items : List (Text × Order)) → All P items → All P (after_get key items)
  All-after_get key items h = elim (Option-cases (lookup key items)) [
    | inl miss ↦ rw (after_get_miss key items miss) h
    | inr (v, hit) ↦
        rw (after_get_hit key items hit) (All-lookup key items hit h, All-remove key items h)
  ]

  pub All-after_set :
      (n : ℕ) (key : Text) (v : Order) (items : List (Text × Order))
      → P (key, v)
      → All P items
      → All P (after_set n key v items)
  unfolding after_set
  All-after_set n key v items p h = All-take P n (touch key v items) (p, All-remove key items h)
