-- ===== src/LinkedList/Read.antt =====
-- `GetAt`, `GetFirst`, `GetLast`, `GetIndex` and `GetAll`.
use l0_wb_tech_school.Base.{
  ℕ, zero, suc, ◌-◌, ◌≤◌, ◌<◌, ◌≡◌, refl, sym, ap, subst, ◌∙◌, false, true, some, Bool, [], ◌∷◌,
  arith, nat_eq, nat_beq, length, ltb, leb, inl, inr, Bool-cases, ok, err, Refines, both_ok,
  both_err, get_elem?-map, get_elem?_past,
}
use native.Mathlib.Decide.{dec_lt}
use l0_wb_tech_school.Base.Int.{ℤ, pos, negsuc}
use l0_wb_tech_school.Heap.{Ptr, Memory, invalid_index, ListError}
use l0_wb_tech_school.Heap.Points.{Points, load-ok, not_null}
use l0_wb_tech_school.Heap.Seg.{Cells, addr_at, Seg, nil, cons, head-eq-addr_at}
use l0_wb_tech_school.LinkedList.{
  get_first_node, get_last_node, get_node_at, value_of, get_at, get_first, get_last, get_index,
  index_loop, get_all, all_loop,
}
use l0_wb_tech_school.LinkedList.Spec
use l0_wb_tech_school.LinkedList.Chain.{values, IsList, Represents, cell}
use l0_wb_tech_school.LinkedList.Move.{get_node_at-addr_at, some_left, size_of}

module _ {ℓ} {V : Type ℓ} where
  first_value : (x : Ptr × V) (v : V) (p : Ptr) → some x ≡ some (p, v) → v ≡ x.1
  first_value x v p e = cc

  index_loop-eq :
      (s : Memory V) (compare_func : V → V → Bool) (item : V) (k i : ℕ) {p : Ptr} {xs : Cells V}
      → Seg s.nodes p xs
      → k ≡ length xs
      → index_loop compare_func item k i p s
        ≡ ok (Spec.index_from (λ v. compare_func v item) i (values xs)) s
  unfolding index_loop Spec.index_from
  index_loop-eq s compare_func item zero i nil n = refl
  index_loop-eq s compare_func item zero i (cons e out c) n = absurd (omega arith)
  index_loop-eq s compare_func item (suc k) i nil n = absurd (omega arith)
  index_loop-eq s compare_func item (suc k) i (cons {v} e out c) n =
      rw (load-ok s e) (elim (Bool-cases (compare_func v item)) [
        | inl hit ↦ rw hit
        | inr miss ↦ rw miss (index_loop-eq s compare_func item k (suc i) c (omega arith))
      ])

  all_loop-eq :
      (s : Memory V) (k : ℕ) {p : Ptr} {xs : Cells V}
      → Seg s.nodes p xs
      → k ≡ length xs
      → all_loop k p s ≡ ok (values xs) s
  unfolding all_loop
  all_loop-eq s zero nil n = refl
  all_loop-eq s zero (cons e out c) n = absurd (omega arith)
  all_loop-eq s (suc k) nil n = absurd (omega arith)
  all_loop-eq s (suc k) (cons e out c) n = rw (load-ok s e) (rw (all_loop-eq s k c (omega arith)))

  value_of-ok : (s : Memory V) {p q : Ptr} {v : V} → Points s.nodes p v q → value_of p s ≡ ok v s
  unfolding value_of
  value_of-ok s e = rw (not_null e) (rw (load-ok s e))

module _ {ℓ} {V : Type ℓ} (s : Memory V) {xs : Cells V} (is : IsList s xs) where
  get_node_at_past :
      (i : ℕ) → 0 < length xs → length xs ≤ i → get_node_at (pos i) s ≡ err invalid_index s
  unfolding get_node_at
  get_node_at_past i nonempty le =
      let not_first : nat_beq i 0 ≡ false = ground arith in
      let not_negative : ltb i 0 ≡ false = ground arith in
      let outside : leb s.length i ≡ true = ground (arith, is.count) in
      rw (some_left s is nonempty) (rw not_first (rw not_negative (rw outside)))

module _ {ℓ} {V : Type ℓ} (s : Memory V) where
  pub get_index-refines :
      (compare_func : V → V → Bool) (item : V) {xs : Cells V}
      → IsList s xs
      → Refines Represents
          (get_index compare_func item s)
          (Spec.get_index compare_func item (values xs))
  unfolding get_index Spec.get_index
  get_index-refines compare_func item {xs = []} is =
      let none_left : nat_beq s.length 0 ≡ true = ground (arith, is.count) in
      rw none_left (both_err ([], is, refl))
  get_index-refines compare_func item {xs = x ∷ xs} is = rw (some_left s is (omega arith)) (
      rw (index_loop-eq s compare_func item s.length 0 is.chain is.count)
        (both_ok (x ∷ xs, is, refl)))

  pub get_all-refines :
      {xs : Cells V} → IsList s xs → Refines Represents (get_all s) (ok (values xs) (values xs))
  unfolding get_all
  get_all-refines {xs} is = rw (all_loop-eq s s.length is.chain is.count) (both_ok (xs, is, refl))

  pub get_at-refines :
      (index : ℤ) {xs : Cells V}
      → IsList s xs
      → Refines Represents (get_at index s) (Spec.get_at index (values xs))
  unfolding get_at get_node_at Spec.get_at
  get_at-refines index {xs = []} is =
      let none_left : nat_beq s.length 0 ≡ true = ground (arith, is.count) in
      rw none_left (both_err ([], is, refl))
  get_at-refines (negsuc i) {xs = x ∷ xs} is =
      rw (some_left s is (omega arith)) (both_err (x ∷ xs, is, refl))
  get_at-refines (pos i) {xs = x ∷ xs} is = elim (dec_lt i (length (x ∷ xs))) [
    | yes lt ↦
        let (v, e, pq) = cell i is.chain lt refl in
        rw (get_node_at-addr_at s is i lt) (
          rw (value_of-ok s pq)
            (rw (get_elem?-map (λ c. c.1) i (x ∷ xs) e) (both_ok (x ∷ xs, is, refl))))
    | no ge ↦ rw (get_node_at_past s is i (omega arith) (omega arith)) (
        rw (get_elem?_past i (values (x ∷ xs)) (omega (arith, size_of s is)))
          (both_err (x ∷ xs, is, refl)))
  ]

  pub get_last-refines :
      {xs : Cells V} → IsList s xs → Refines Represents (get_last s) (Spec.get_last (values xs))
  unfolding get_last get_last_node Spec.get_last
  get_last-refines {xs = []} is =
      let none_left : nat_beq s.length 0 ≡ true = ground (arith, is.count) in
      rw none_left (both_err ([], is, refl))
  get_last-refines {xs = x ∷ xs} is =
      let (v, e, pq) =
        cell (length xs - 0) is.chain (omega arith)
          (is.last ∙ ap (λ j. addr_at j (x ∷ xs)) (omega arith)) in
      let at : length (values (x ∷ xs)) - 1 ≡ length xs - 0 = omega (arith, size_of s is) in
      rw (some_left s is (omega arith)) (
        rw (load-ok s pq) (
          rw at (
            rw (get_elem?-map (λ c. c.1) (length xs - 0) (x ∷ xs) e) (both_ok (x ∷ xs, is, refl)))))

  pub get_first-refines :
      {xs : Cells V}
      → IsList s xs
      → Refines Represents (get_first s) (Spec.get_at (pos 0) (values xs))
  unfolding get_first get_first_node Spec.get_at
  get_first-refines {xs = []} is =
      let none_left : nat_beq s.length 0 ≡ true = ground (arith, is.count) in
      rw none_left (both_err ([], is, refl))
  get_first-refines {xs = x ∷ xs} is =
      let (v, e, pq) = cell 0 is.chain (omega arith) (head-eq-addr_at is.chain) in
      let same : v ≡ x.1 = first_value x v s.head e in
      rw (some_left s is (omega arith)) (
        rw (value_of-ok s pq) (
          subst
            (λ w. Refines {E = ListError} {A = V} Represents (ok w s) (ok x.1 (values (x ∷ xs))))
            (sym same) (both_ok (x ∷ xs, is, refl))))
