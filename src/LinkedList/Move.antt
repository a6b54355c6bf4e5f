-- ===== src/LinkedList/Move.antt =====
-- `MoveToFirst` and the accessors `GetAt`, `GetFirst`, `GetLast`, `GetIndex` and `GetAll`.
use l0_wb_tech_school.Base.{
  ℕ, zero, suc, ◌+◌, ◌-◌, ◌≤◌, ◌<◌, ◌≡◌, ◌≢◌, refl, sym, ap, subst, ◌∙◌, ◌>>◌, false, true, some,
  none, Bool, List, [], ◌∷◌, map, arith, ◌==◌, nat_eq, nat_beq, length, ltb, leb, inl, inr,
  Bool-cases, get_elem?, ok, err, Refines, both_ok, both_err, length-map, map-remove_at,
  length-remove_at, get_elem?-map, pure, if◌then◌else◌,
}
use l0_wb_tech_school.Base
use native.Mathlib.Decide.{dec_lt}
use l0_wb_tech_school.Base.Int.{ℤ, pos, negsuc}
use l0_wb_tech_school.Heap.{Ptr, node, Nodes, Memory, write}
use l0_wb_tech_school.Heap.Points.{
  Points, load-ok, set_next-ok, write-other, Points-write_other, Points-write,
}
use l0_wb_tech_school.Heap.Seg.{Cells, has, addr_at, Seg, cons, frame, has-addr_at, head-eq-addr_at}
use l0_wb_tech_school.Heap.Splice.{splice_out-Seg, removed-not-has}
use l0_wb_tech_school.Heap.Index.{apart, has_of_get_elem?, has-remove_at, addr_at-remove_at_lt}
use l0_wb_tech_school.LinkedList.{
  get_first_node, get_last_node, get_node_at, relink_first, move_to_first,
}
use l0_wb_tech_school.LinkedList.Spec
use l0_wb_tech_school.LinkedList.Chain.{
  values, IsList, Represents, walk-addr_at, recalculate_tail-ok, cell, last_test,
}

module _ {ℓ} {V : Type ℓ} (s : Memory V) {xs : Cells V} (is : IsList s xs) where
  pub some_left : 0 < length xs → nat_beq s.length 0 ≡ false
  some_left lt = ground (arith, is.count)

  -- Inside the list `getNodeAt` finds the node, by the head, the tail or a walk.
  pub get_node_at-addr_at : (i : ℕ) → i < length xs → get_node_at (pos i) s ≡ ok (addr_at i xs) s
  unfolding get_node_at get_first_node get_last_node
  get_node_at-addr_at zero lt =
      rw (some_left lt) (rw (some_left lt) (ap (λ p. ok p s) (head-eq-addr_at is.chain)))
  get_node_at-addr_at (suc k) lt =
      let not_first : nat_beq (suc k) 0 ≡ false = ground arith in
      let not_negative : ltb (suc k) 0 ≡ false = ground arith in
      let inside : leb s.length (suc k) ≡ false = ground (arith, is.count) in
      let tail_at : length xs - 1 ≡ suc k → s.tail ≡ addr_at (suc k) xs =
        λ e. is.last ∙ ap (λ j. addr_at j xs) e in
      rw (some_left (omega arith)) (
        rw not_first (
          rw not_negative (
            rw inside (
              rw (last_test (suc k) s.length (omega (arith, is.count)))
                (elim (Bool-cases (nat_beq (suc (suc k)) s.length)) [
                  | inl e ↦ rw e (
                      rw (some_left (omega arith))
                        (ap (λ p. ok p s) (tail_at (ground (arith, is.count)))))
                  | inr e ↦ rw e (walk-addr_at s (suc k) is.chain lt)
                ])))))

  module _ (k : ℕ) (lt : suc k < length xs) where
    abbrev rest : Cells V
    rest = Base.remove_at (suc k) xs

    size : suc (length rest) ≡ length xs
    size = length-remove_at (suc k) xs lt

    -- The nodes once `nodeToMove.next` and `prevNode.next` are written.
    abbrev relinked : V → V → Nodes V
    relinked v w =
        write (write s.nodes (addr_at (suc k) xs) (node w s.head)) (addr_at k xs)
          (node v (addr_at (suc (suc k)) xs))

    module _ {v w : V} (e : get_elem? xs k ≡ some (addr_at k xs, v))
        (e' : get_elem? xs (suc k) ≡ some (addr_at (suc k) xs, w))
        (pq : Points s.nodes (addr_at k xs) v (addr_at (suc k) xs))
        (pn : Points s.nodes (addr_at (suc k) xs) w (addr_at (suc (suc k)) xs)) where
      bypassed : Seg (write s.nodes (addr_at k xs) (node v (addr_at (suc (suc k)) xs))) s.head rest
      bypassed = splice_out-Seg k is.chain e e' (Points-write pq _) λ b ne i. write-other _ _ _ b ne

      moved_out : has (addr_at (suc k) xs) rest ≡ false
      moved_out = removed-not-has (suc k) is.chain e'

      prev_in : has (addr_at k xs) rest ≡ true
      prev_in =
          subst (λ a. has a rest ≡ true) (addr_at-remove_at_lt (suc k) k xs (omega arith))
            (has-addr_at k bypassed (omega (arith, size)))

      prev-ne : addr_at k xs ≢ addr_at (suc k) xs
      prev-ne eq = apart rest moved_out prev_in (sym eq)

      in_front : Seg (relinked v w) (addr_at (suc k) xs) ((addr_at (suc k) xs, w) ∷ rest)
      unfolding write
      in_front =
          cons (Points-write_other _ _ (λ eq. prev-ne (sym eq)) (Points-write pn s.head)) moved_out
            (frame bypassed λ a i.
              let other : (a == addr_at (suc k) xs) ≡ false = ground (arith, moved_out) in rw other)

    moved_bound :
        {w : V}
        → get_elem? xs (suc k) ≡ some (addr_at (suc k) xs, w)
        → (a : Ptr) → has a xs ≡ false
        → has a ((addr_at (suc k) xs, w) ∷ rest) ≡ false
    moved_bound e' a out =
        let ne : a ≢ addr_at (suc k) xs = apart xs out (has_of_get_elem? (suc k) xs e') in
        ground (arith, has-remove_at (suc k) xs a out)

    relink_first-refines :
        Refines Represents
          (relink_first (addr_at k xs) s)
          (ok tt (Spec.to_front (get_elem? (values xs) (suc k)) (suc k) (values xs)))
    unfolding relink_first
    relink_first-refines =
        let (v, e, pq) = cell k is.chain (omega arith) refl in
        let (w, e', pn) = cell (suc k) is.chain lt refl in
        let m : Memory V = record s { list = record (s.list) { head = addr_at (suc k) xs } } in
        rw (load-ok s pq) (
          rw (load-ok s pn) (
            rw (set_next-ok m pn s.head) (
              rw
                (set_next-ok
                  (record m { nodes = write s.nodes (addr_at (suc k) xs) (node w s.head) })
                  (Points-write_other _ _ (prev-ne e e' pq pn) pq) _)
                (rw
                  (recalculate_tail-ok {xs = (addr_at (suc k) xs, w) ∷ rest}
                    (record m { nodes = relinked v w }) (in_front e e' pq pn)
                    (omega (arith, is.count, size)))
                  (rw (get_elem?-map (λ c. c.1) (suc k) xs e') (
                    both_ok (
                      (addr_at (suc k) xs, w) ∷ rest,
                      record {
                        chain = in_front e e' pq pn;
                        last = refl;
                        count = omega (arith, is.count, size);
                        bound = λ a above. moved_bound e' a (is.bound a above);
                      },
                      ap (◌∷◌ w) (map-remove_at (λ c. c.1) (suc k) xs),
                    )))))))

module _ {ℓ} {V : Type ℓ} (s : Memory V) where
  pub size_of : {xs : Cells V} → IsList s xs → length (values xs) ≡ length xs
  size_of {xs} is = length-map (λ c. c.1) xs

  -- `MoveToFirst` brings the node at an index to the front and keeps the order of the rest; any
  -- other index is refused and nothing changes.
  pub move_to_first-refines :
      (index : ℤ) {xs : Cells V}
      → IsList s xs
      → Refines Represents (move_to_first index s) (Spec.move_to_first index (values xs))
  unfolding move_to_first Spec.move_to_first
  move_to_first-refines (negsuc i) {xs} is = both_err (xs, is, refl)
  move_to_first-refines (pos zero) {xs = []} is =
      let outside : leb s.length 0 ≡ true = ground (arith, is.count) in
      rw outside (both_err ([], is, refl))
  move_to_first-refines (pos zero) {xs = x ∷ xs} is =
      let inside : leb s.length 0 ≡ false = ground (arith, is.count) in
      let fits : ltb 0 (suc (length (values xs))) ≡ true = ground arith in
      rw inside (rw fits (both_ok (x ∷ xs, is, refl)))
  move_to_first-refines (pos (suc k)) {xs} is = elim (dec_lt (suc k) (length xs)) [
    | yes lt ↦
        let not_negative : ltb (suc k) 0 ≡ false = ground arith in
        let inside : leb s.length (suc k) ≡ false = ground (arith, is.count) in
        let positive : ltb 0 (suc k) ≡ true = ground arith in
        let several : ltb 1 s.length ≡ true = ground (arith, is.count) in
        let fits : ltb (suc k) (length (values xs)) ≡ true = ground (arith, size_of is) in
        rw not_negative (
          rw inside (
            rw positive (
              rw several (
                rw fits (
                  rw (get_node_at-addr_at s is k (omega arith))
                    (relink_first-refines s is k lt))))))
    | no ge ↦
        let not_negative : ltb (suc k) 0 ≡ false = ground arith in
        let outside : leb s.length (suc k) ≡ true = ground (arith, is.count) in
        let beyond : ltb (suc k) (length (values xs)) ≡ false = ground (arith, size_of is) in
        rw not_negative (rw outside (rw beyond (both_err (xs, is, refl))))
  ]
