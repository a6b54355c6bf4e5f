-- ===== src/Heap/Index.antt =====
-- Facts on the cells of a chain and their addresses, by index.
use l0_wb_tech_school.Base.{
  ℕ, zero, suc, ◌∙◌, ◌-◌, ◌-◌, ◌≤◌, ◌<◌, ◌≡◌, refl, ◌≢◌, ap, true, false, some, [], ◌∷◌, arith,
  ◌==◌, nat_eq, length, get_elem?, insert_at, remove_at,
}
use l0_wb_tech_school.Heap.{Ptr, null}
use l0_wb_tech_school.Heap.Seg.{Cells, has, addr_at}

module _ {ℓ} {V : Type ℓ} where
  pub get_elem?_of_lt :
      (i : ℕ) (xs : Cells V) → i < length xs → (q : Ptr) × (v : V) × (get_elem? xs i ≡ some (q, v))
  get_elem?_of_lt i [] lt = absurd (omega arith)
  get_elem?_of_lt zero ((q, v) ∷ xs) lt = (q, v, refl)
  get_elem?_of_lt (suc i) (x ∷ xs) lt = get_elem?_of_lt i xs (omega arith)

  pub addr_at_of_get_elem? :
      (i : ℕ) (xs : Cells V) {q : Ptr} {v : V} → get_elem? xs i ≡ some (q, v) → addr_at i xs ≡ q
  addr_at_of_get_elem? i [] e = cc
  addr_at_of_get_elem? zero ((p, w) ∷ xs) e = ground arith
  addr_at_of_get_elem? (suc i) (x ∷ xs) e = addr_at_of_get_elem? i xs e

  pub has_of_get_elem? :
      (i : ℕ) (xs : Cells V) {q : Ptr} {v : V} → get_elem? xs i ≡ some (q, v) → has q xs ≡ true
  has_of_get_elem? i [] e = cc
  has_of_get_elem? zero ((p, w) ∷ xs) e = ground arith
  has_of_get_elem? (suc i) (x ∷ xs) e = ground (arith, has_of_get_elem? i xs e)

  pub apart : (xs : Cells V) {a b : Ptr} → has a xs ≡ false → has b xs ≡ true → a ≢ b
  apart xs out into e = cc (ap (λ c. has c xs) e)

  pub has-remove_at :
      (i : ℕ) (xs : Cells V) (b : Ptr) → has b xs ≡ false → has b (remove_at i xs) ≡ false
  has-remove_at i [] b out = refl
  has-remove_at zero (x ∷ xs) b out = ground arith
  has-remove_at (suc i) (x ∷ xs) b out = ground (arith, has-remove_at i xs b)

  pub has-insert_at :
      (i : ℕ) (a : Ptr) (d : V) (xs : Cells V) (b : Ptr)
      → (b == a) ≡ false
      → has b xs ≡ false
      → has b (insert_at i (a, d) xs) ≡ false
  has-insert_at zero a d xs b ne out = ground arith
  has-insert_at (suc i) a d [] b ne out = ground arith
  has-insert_at (suc i) a d (x ∷ xs) b ne out = ground (arith, has-insert_at i a d xs b ne)

  pub addr_at_past : (i : ℕ) (xs : Cells V) → length xs ≤ i → addr_at i xs ≡ null
  addr_at_past i [] h = refl
  addr_at_past zero (x ∷ xs) h = absurd (omega arith)
  addr_at_past (suc i) (x ∷ xs) h = addr_at_past i xs (omega arith)

  pub addr_at-insert_at :
      (i : ℕ) (a : Ptr) (d : V) (xs : Cells V)
      → i ≤ length xs
      → addr_at i (insert_at i (a, d) xs) ≡ a
  addr_at-insert_at zero a d xs h = refl
  addr_at-insert_at (suc i) a d [] h = absurd (omega arith)
  addr_at-insert_at (suc i) a d (x ∷ xs) h = addr_at-insert_at i a d xs (omega arith)

  -- Behind an insertion the addresses move up by one.
  pub addr_at-insert_at_gt :
      (i j : ℕ) (a : Ptr) (d : V) (xs : Cells V)
      → i ≤ j
      → i ≤ length xs
      → addr_at (suc j) (insert_at i (a, d) xs) ≡ addr_at j xs
  addr_at-insert_at_gt zero j a d xs h k = refl
  addr_at-insert_at_gt (suc i) j a d [] h k = absurd (omega arith)
  addr_at-insert_at_gt (suc i) zero a d (x ∷ xs) h k = absurd (omega arith)
  addr_at-insert_at_gt (suc i) (suc j) a d (x ∷ xs) h k =
      addr_at-insert_at_gt i j a d xs (omega arith) (omega arith)

  pub addr_at-remove_at_lt :
      (i j : ℕ) (xs : Cells V) → j < i → addr_at j (remove_at i xs) ≡ addr_at j xs
  addr_at-remove_at_lt i j [] h = refl
  addr_at-remove_at_lt zero j (x ∷ xs) h = absurd (omega arith)
  addr_at-remove_at_lt (suc i) zero (x ∷ xs) h = refl
  addr_at-remove_at_lt (suc i) (suc j) (x ∷ xs) h = addr_at-remove_at_lt i j xs (omega arith)

  pub addr_at-remove_at_ge :
      (i j : ℕ) (xs : Cells V) → i ≤ j → addr_at j (remove_at i xs) ≡ addr_at (suc j) xs
  addr_at-remove_at_ge i j [] h = refl
  addr_at-remove_at_ge zero j (x ∷ xs) h = refl
  addr_at-remove_at_ge (suc i) zero (x ∷ xs) h = absurd (omega arith)
  addr_at-remove_at_ge (suc i) (suc j) (x ∷ xs) h = addr_at-remove_at_ge i j xs (omega arith)

  -- An insertion in front of the last node leaves the last node the last.
  pub addr_last-insert_at :
      (i : ℕ) (a : Ptr) (d : V) (xs : Cells V)
      → i < length xs
      → addr_at (length xs) (insert_at i (a, d) xs) ≡ addr_at (length xs - 1) xs
  addr_last-insert_at i a d xs h =
      let e : length xs ≡ suc (length xs - 1) = omega arith in
      ap (λ j. addr_at j (insert_at i (a, d) xs)) e
      ∙ addr_at-insert_at_gt i (length xs - 1) a d xs (omega arith) (omega arith)
