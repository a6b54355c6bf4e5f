-- ===== src/Lru/Calls.antt =====
-- The list calls that the methods of in_memory.go make, and what each leaves in the cache.
use l0_wb_tech_school.Base.{
  ℕ, ◌≤◌, ◌<◌, ◌≡◌, refl, ap, subst, true, none, some, List, [], ◌∷◌, arith, Eq, ◌==◌, length,
  get_elem?, remove_at, inl, inr, Option-cases, Refines, both_ok, both_err, and_then-refines,
  Outcome, ok, err, length-map, ltb, leb,
}
use l0_wb_tech_school.Base.Int.{ℤ, pos}
use l0_wb_tech_school.Heap.{ListError, Memory}
use l0_wb_tech_school.LinkedList
use l0_wb_tech_school.LinkedList.Spec
use l0_wb_tech_school.LinkedList.Chain.{Represents}
use l0_wb_tech_school.LinkedList.Refinement.{
  insert-Represents, remove_at-Represents, move_to_first-Represents, get_index-Represents,
}
use l0_wb_tech_school.Lru.{
  Cache, returned, failed, answer, call, put_first, touch_key, check, drop_key, insert_key,
  drop_existing,
}
use l0_wb_tech_school.Lru.Items.{room, keys, lookup, remove, touch, Distinct, remove_absent}
use l0_wb_tech_school.Lru.Places.{get_index_hit, get_index_miss}

module _ {ℓ} {K V : Type ℓ} ⦃eq : Eq K⦄ where
  -- The key list is the keys of `items` in order, the map holds exactly their values, and there is
  -- room for them under the capacity `cap`.
  pub record Holds (cap : ℤ) (c : Cache K V) (items : List (K × V)) : Type ℓ where
    pub listed : Represents c.keys_list (keys items)
    pub distinct : Distinct items
    pub stored : (k : K) → c.stored k ≡ lookup k items
    pub fits : length items ≤ room cap
    pub capacity : c.cap ≡ cap

-- The key list stands for `ks`, and the rest of the cache is that of `c₀`.
pub record Listed {ℓ} {K V : Type ℓ} (c₀ c : Cache K V) (ks : List K) : Type ℓ where
  pub listed : Represents c.keys_list ks
  pub stored : c.stored ≡ c₀.stored
  pub cap : c.cap ≡ c₀.cap

module _ {ℓ} {K V : Type ℓ} {c₀ c : Cache K V} where
  pub answer-ok {κ} :
      {A : Type κ} {o : Outcome ListError (Memory K) A} {a : A} {ks ks' : List K}
      → Listed c₀ c ks
      → Refines Represents o (ok a ks')
      → Refines (Listed c₀) (answer o c) (ok (returned a) ks')
  unfolding answer
  answer-ok h (both_ok r) = both_ok (record { listed = r; stored = h.stored; cap = h.cap })

  answer-err :
      {A : Type 0} {o : Outcome ListError (Memory K) A} {e : ListError} {ks ks' : List K}
      → Listed c₀ c ks
      → Refines Represents o (err e ks')
      → Refines (Listed c₀) (answer o c) (ok (failed e) ks')
  unfolding answer
  answer-err h (both_err r) = both_ok (record { listed = r; stored = h.stored; cap = h.cap })

module _ {ℓ} {K V : Type ℓ} ⦃eq : Eq K⦄ (key : K) (c : Cache K V) where
  -- The index of a key that has an entry, of one that has none, and of any key in an empty cache.
  pub found :
      (items : List (K × V)) {a : ℤ}
      → Represents c.keys_list (keys items)
      → Spec.get_index ◌==◌ key (keys items) ≡ ok a (keys items)
      → Refines (Listed c) (call (LinkedList.get_index ◌==◌ key) c) (ok (returned a) (keys items))
  unfolding call
  found items r e =
      answer-ok (record { listed = r; stored = refl; cap = refl })
        (subst (Refines Represents _) e (get_index-Represents c.keys_list _ r ◌==◌ key))

  pub move_to_first-keys :
      (items : List (K × V)) (j : ℕ)
      → j < length items
      → get_elem? (keys items) j ≡ some key
      → remove_at j (keys items) ≡ keys (remove key items)
      → Spec.move_to_first (pos j) (keys items) ≡ ok tt (key ∷ keys (remove key items))
  unfolding Spec.move_to_first
  move_to_first-keys items j below here rest =
      let inside : ltb j (length (keys items)) ≡ true =
        ground (arith, length-map (λ e. e.0) items) in
      rw inside (rw here (ap (λ ks. ok tt (key ∷ ks)) rest))

  pub touch_key-Listed :
      (items : List (K × V)) {v : V}
      → Represents c.keys_list (keys items)
      → lookup key items ≡ some v
      → Refines (Listed c) (touch_key key c) (ok tt (keys (touch key v items)))
  unfolding touch_key put_first call check
  touch_key-Listed items r hit =
      let (j, at, below, here, rest) = get_index_hit key items hit in
      and_then-refines _ (found items r at) λ s l.
        and_then-refines _
          (answer-ok l (
            subst (Refines Represents _) (move_to_first-keys items j below here rest)
              (move_to_first-Represents s.keys_list _ l.listed (pos j))))
          λ s' l'. both_ok l'

  remove_at-keys :
      (items : List (K × V)) (j : ℕ)
      → j < length items
      → remove_at j (keys items) ≡ keys (remove key items)
      → Spec.remove_at (pos j) (keys items) ≡ ok tt (keys (remove key items))
  unfolding Spec.remove_at
  remove_at-keys [] j below rest = absurd (omega arith)
  remove_at-keys (x ∷ items) j below rest =
      let inside : ltb j (length (keys (x ∷ items))) ≡ true =
        ground (arith, length-map (λ e. e.0) items) in
      rw inside (ap (ok tt) rest)

  nothing_to_drop :
      (items : List (K × V))
      → Represents c.keys_list (keys items)
      → lookup key items ≡ none
      → Refines (Listed c) (drop_key key c) (ok tt (keys items))
  unfolding drop_key drop_existing call Spec.get_index
  nothing_to_drop [] r miss =
      and_then-refines drop_existing
        (answer-err (record { listed = r; stored = refl; cap = refl })
          (get_index-Represents c.keys_list _ r ◌==◌ key))
        λ s l. both_ok l
  nothing_to_drop (x ∷ items) r miss =
      and_then-refines drop_existing
        (found (x ∷ items) r (get_index_miss key (x ∷ items) (omega arith) miss)) λ s l. both_ok l

  pub drop_key-Listed :
      (items : List (K × V))
      → Represents c.keys_list (keys items)
      → Refines (Listed c) (drop_key key c) (ok tt (keys (remove key items)))
  unfolding drop_key drop_existing call check
  drop_key-Listed items r = elim (Option-cases (lookup key items)) [
    | inl miss ↦ rw (remove_absent key items miss) (nothing_to_drop items r miss)
    | inr (v, hit) ↦
        let (j, at, below, here, rest) = get_index_hit key items hit in
        and_then-refines _ (found items r at) λ s l.
          and_then-refines _
            (answer-ok l (
              subst (Refines Represents _) (remove_at-keys items j below rest)
                (remove_at-Represents s.keys_list _ l.listed (pos j))))
            λ s' l'. both_ok l'
  ]

-- What the specification of the list does at the ends.
module _ {ℓ} {V : Type ℓ} where
  insert-front : (v : V) (vs : List V) → Spec.insert v (pos 0) vs ≡ ok tt (v ∷ vs)
  unfolding Spec.insert
  insert-front v vs = let fits : leb 0 (length vs) ≡ true = ground arith in rw fits

module _ {ℓ} {K V : Type ℓ} ⦃eq : Eq K⦄ {c₀ : Cache K V} (key : K) where
  pub insert_key-Listed :
      (c : Cache K V) (ks : List K)
      → Listed c₀ c ks
      → Refines (Listed c₀) (insert_key key c) (ok tt (key ∷ ks))
  unfolding insert_key call check
  insert_key-Listed c ks l =
      and_then-refines _
        (answer-ok l (
          subst (Refines Represents _) (insert-front key ks)
            (insert-Represents c.keys_list _ l.listed key (pos 0))))
        λ s' l'. both_ok l'
