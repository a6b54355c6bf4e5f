-- ===== src/LinkedList/Remove.antt =====
-- `RemoveAt`, `RemoveFirst` and `RemoveLast`.
use l0_wb_tech_school.Base.{
  ℕ, zero, suc, ◌+◌, ◌-◌, ◌≤◌, ◌<◌, ◌≡◌, ◌≢◌, refl, sym, ap, subst, ◌∙◌, ◌>>◌, false, true, some,
  List, [], ◌∷◌, map, arith, ◌==◌, nat_eq, nat_beq, length, ltb, leb, inl, inr, Bool-cases,
  get_elem?, ok, err, Refines, both_ok, both_err, length-map, map-remove_at, length-remove_at, pure,
  if◌then◌else◌,
}
use l0_wb_tech_school.Base
use native.Mathlib.Decide.{dec_lt}
use l0_wb_tech_school.Base.Int.{ℤ, pos, negsuc, pred_ℤ, eq_ℤ}
use l0_wb_tech_school.Heap.{Ptr, Nodes, Memory, set_length, ListError}
use l0_wb_tech_school.Heap.Points.{
  Points, load-ok, set_next-ok, not_null, write-other, Points-write,
}
use l0_wb_tech_school.Heap.Seg.{Cells, has, addr_at, Seg, cons}
use l0_wb_tech_school.Heap.Splice.{splice_out-Seg}
use l0_wb_tech_school.Heap.Index.{has-remove_at, addr_at-remove_at_lt, addr_at-remove_at_ge}
use l0_wb_tech_school.LinkedList.{
  set_tail, remove_first_node, unlink_at, remove_node_at, remove_at, remove_first, remove_last,
}
use l0_wb_tech_school.LinkedList.Spec
use l0_wb_tech_school.LinkedList.Chain.{
  values, IsList, Represents, walk-addr_at, recalculate_tail-ok, cell, last_test,
}

module _ {ℓ} {V : Type ℓ} (s : Memory V) where
  -- A list whose head is a variable, so that its chain can be matched.
  first_unlinked :
      {p : Ptr} {xs : Cells V} {c : Ptr × V}
      → Seg s.nodes p (c ∷ xs)
      → p ≡ s.head
      → s.length ≡ suc (length xs)
      → ((a : Ptr) → s.used < a → has a (c ∷ xs) ≡ false)
      → Refines Represents (remove_first_node s) (ok tt (values xs))
  unfolding remove_first_node
  first_unlinked {xs} (cons {q} {v} e out c) at n bound =
      let some_left : nat_beq s.length 0 ≡ false = ground arith in
      let u : Memory V = record s {
        list = record { head = q; tail = s.tail; length = s.length - 1 };
      } in
      rw some_left (
        rw (load-ok s (subst (λ p. Points s.nodes p v q) at e)) (
          rw (recalculate_tail-ok {xs = xs} u c (omega arith)) (
            both_ok (
              xs,
              record {
                chain = c;
                last = refl;
                count = omega arith;
                bound = λ a lt. ground (arith, bound a);
              },
              refl,
            ))))

  module _ (k : ℕ) {xs : Cells V} (is : IsList s xs) (lt : suc k < length xs) where
    kept : Cells V
    kept = Base.remove_at (suc k) xs

    size : suc (length kept) ≡ length xs
    unfolding kept
    size = length-remove_at (suc k) xs lt

    shorter :
        (g : Nodes V) (t : Ptr)
        → Seg g s.head kept
        → t ≡ addr_at (length kept - 1) kept
        → Refines {E = ListError} {A = Unit {0}} Represents
            (ok tt
              (record s { nodes = g; list = record (s.list) { tail = t; length = s.length - 1 } }))
            (ok tt (Base.remove_at (suc k) (values xs)))
    unfolding kept
    shorter g t c last = both_ok (
      kept,
      record {
        chain = c;
        last = last;
        count = omega (arith, is.count, size);
        bound = λ a lt. has-remove_at (suc k) xs a (is.bound a lt);
      },
      map-remove_at (λ c. c.1) (suc k) xs,
    )

    -- The last test of `removeNodeAt`, and the new length.
    unlink_done :
        (g : Nodes V)
        → Seg g s.head kept
        → Refines Represents
            (((if eq_ℤ (pos (suc k)) (pred_ℤ (pos s.length))
                  then set_tail (addr_at k xs)
                  else pure tt)
                >> set_length (s.length - 1))
              (record s { nodes = g }))
            (ok tt (Base.remove_at (suc k) (values xs)))
    unfolding kept
    unlink_done g c =
        rw (last_test (suc k) s.length (omega (arith, is.count)))
          (elim (Bool-cases (nat_beq (suc (suc k)) s.length)) [
            | inl e ↦ rw e (
                shorter g _ c (
                  let here : length kept - 1 ≡ k = ground (arith, is.count, size) in
                  rw here (sym (addr_at-remove_at_lt (suc k) k xs (omega arith)))))
            | inr e ↦ rw e (
                shorter g _ c (
                  let there : suc (length kept - 1) ≡ length xs - 1 =
                    ground (arith, is.count, size) in
                  is.last
                  ∙ ap (λ j. addr_at j xs) (sym there)
                  ∙ sym (
                      addr_at-remove_at_ge (suc k) (length kept - 1) xs
                        (ground (arith, is.count, size)))))
          ])

    unlink_at-refines :
        Refines Represents
          (unlink_at (pos (suc k)) s s)
          (ok tt (Base.remove_at (suc k) (values xs)))
    unfolding unlink_at kept
    unlink_at-refines =
        let (v, e, pq) = cell k is.chain (omega arith) refl in
        let (w, e', pn) = cell (suc k) is.chain lt refl in
        rw (walk-addr_at s k is.chain (omega arith)) (
          rw (load-ok s pq) (
            rw (not_null pn) (
              rw (load-ok s pn) (
                rw (set_next-ok s pq _) (
                  unlink_done _ (
                    splice_out-Seg k is.chain e e' (Points-write pq _)
                      λ b ne i. write-other _ _ _ b ne))))))

module _ {ℓ} {V : Type ℓ} (s : Memory V) where
  remove_node_at-refines :
      (index : ℤ) {xs : Cells V}
      → IsList s xs
      → Refines Represents (remove_node_at index s) (Spec.remove_at index (values xs))
  unfolding remove_node_at Spec.remove_at
  remove_node_at-refines index {xs = []} is =
      let none_left : nat_beq s.length 0 ≡ true = ground (arith, is.count) in
      rw none_left (both_err ([], is, refl))
  remove_node_at-refines (pos zero) {xs = x ∷ xs} is =
      let some_left : nat_beq s.length 0 ≡ false = ground (arith, is.count) in
      let fits : ltb 0 (suc (length (values xs))) ≡ true = ground arith in
      rw some_left (rw fits (first_unlinked s is.chain refl is.count is.bound))
  remove_node_at-refines (pos (suc k)) {xs = x ∷ xs} is = elim (dec_lt (suc k) (suc (length xs))) [
    | yes lt ↦
        let fits : ltb (suc k) (suc (length (values xs))) ≡ true = ground (arith, size) in
        let inside : leb s.length (suc k) ≡ false = ground (arith, is.count) in
        rw (some_left, not_first, not_negative) (rw inside (rw fits (unlink_at-refines s k is lt)))
    | no ge ↦
        let beyond : ltb (suc k) (suc (length (values xs))) ≡ false = ground (arith, size) in
        let outside : leb s.length (suc k) ≡ true = ground (arith, is.count) in
        rw (some_left, not_first, not_negative)
          (rw outside (rw beyond (both_err (x ∷ xs, is, refl))))
  ]
    where
      size : length (values xs) ≡ length xs
      size = length-map (λ c. c.1) xs

      some_left : nat_beq s.length 0 ≡ false
      some_left = ground (arith, is.count)

      not_first : nat_beq (suc k) 0 ≡ false
      not_first = ground arith

      not_negative : ltb (suc k) 0 ≡ false
      not_negative = ground arith
  remove_node_at-refines (negsuc k) {xs = x ∷ xs} is =
      let some_left : nat_beq s.length 0 ≡ false = ground (arith, is.count) in
      rw some_left (both_err (x ∷ xs, is, refl))

  pub remove_at-refines :
      (index : ℤ) {xs : Cells V}
      → IsList s xs
      → Refines Represents (remove_at index s) (Spec.remove_at index (values xs))
  unfolding remove_at
  remove_at-refines index is = remove_node_at-refines index is

  pub remove_last-refines :
      {xs : Cells V}
      → IsList s xs
      → Refines Represents
          (remove_last s)
          (Spec.remove_at (pred_ℤ (pos (length (values xs)))) (values xs))
  unfolding remove_last
  remove_last-refines {xs} is =
      let size : length (values xs) ≡ s.length = length-map (λ c. c.1) xs ∙ sym is.count in
      rw size (remove_node_at-refines (pred_ℤ (pos s.length)) is)

  pub remove_first-refines :
      {xs : Cells V}
      → IsList s xs
      → Refines Represents (remove_first s) (Spec.remove_at (pos 0) (values xs))
  unfolding remove_first remove_first_node Spec.remove_at
  remove_first-refines {xs = []} is =
      let none_left : nat_beq s.length 0 ≡ true = ground (arith, is.count) in
      rw none_left (both_err ([], is, refl))
  remove_first-refines {xs = x ∷ xs} is =
      let fits : ltb 0 (suc (length (values xs))) ≡ true = ground arith in
      rw fits (first_unlinked s is.chain refl is.count is.bound)
