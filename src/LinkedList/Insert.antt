-- ===== src/LinkedList/Insert.antt =====
-- `Insert` and `InsertLast` of order_service/pkg/linkedlist/list.go.
use l0_wb_tech_school.Base.{
  ℕ, zero, suc, ◌-◌, ◌≤◌, ◌<◌, ◌≡◌, ◌≢◌, refl, sym, ap, ◌∙◌, false, true, some, arith, nat_eq,
  nat_beq, length, ltb, leb, get_elem?, insert_at, ok, err, Refines, both_err, length-map,
}
use native.Mathlib.Decide.{dec_lt}
use l0_wb_tech_school.Base.Int.{ℤ, pos, negsuc}
use l0_wb_tech_school.Heap.{Ptr, node, Nodes, Memory, write, new_node, invalid_index}
use l0_wb_tech_school.Heap.Points.{
  Points, load-ok, set_next-ok, not_null, write-other, Points-write_other, Points-write,
}
use l0_wb_tech_school.Heap.Seg.{Cells, has, addr_at, Seg, cons, frame-write, has-addr_at}
use l0_wb_tech_school.Heap.Splice.{splice_in-Seg}
use l0_wb_tech_school.Heap.Index.{apart, has_of_get_elem?, addr_at_past}
use l0_wb_tech_school.LinkedList.{insert_middle, link_new, insert, insert_last}
use l0_wb_tech_school.LinkedList.Spec
use l0_wb_tech_school.LinkedList.Chain.{values, IsList, Represents, walk-addr_at, cell}
use l0_wb_tech_school.LinkedList.Grown.{grown, new-Points, grown-IsList, in_range, finish}

module _ {ℓ} {V : Type ℓ} (d : V) (s : Memory V) {xs : Cells V} (is : IsList s xs) where
  insert_front : Refines Represents (insert d (pos 0) s) (ok tt (insert_at 0 d (values xs)))
  unfolding insert new_node
  insert_front = rw (in_range d s is 0 (omega arith)) (
      rw (set_next-ok (grown d s) (new-Points d s is) s.head) (
        finish d s is 0 _ (omega arith)
          (cons (Points-write (new-Points d s is) s.head) (is.bound _ (omega arith))
            (frame-write (suc s.used) _ (grown-IsList d s is).chain (is.bound _ (omega arith))))
          (omega (arith, is.count)) refl refl))

  -- Behind the node at index `k`: its successor becomes the new node's.
  insert_behind :
      (k : ℕ) (g : Nodes V) {q : Ptr} {v : V}
      → get_elem? xs k ≡ some (q, v)
      → Points g q v (suc s.used)
      → Points g (suc s.used) d (addr_at (suc k) xs)
      → ((b : Ptr) → b ≢ q → has b xs ≡ true → g b ≡ (grown d s).nodes b)
      → Seg g s.head (insert_at (suc k) (suc s.used, d) xs)
  insert_behind k g e pq pa same =
      splice_in-Seg k (grown-IsList d s is).chain e pq pa (is.bound _ (omega arith)) same

  link_last :
      (k : ℕ)
      → suc k ≡ length xs
      → (v : V) → Points (grown d s).nodes s.tail v (addr_at (suc k) xs)
      → link_new (suc s.used) (pos (suc k)) (grown d s) (grown d s)
        ≡ ok tt
            (record (grown d s) { nodes = write (grown d s).nodes s.tail (node v (suc s.used)) })
  unfolding link_new
  link_last k at_end v pq =
      let not_zero : nat_beq (suc k) 0 ≡ false = ground arith in
      let positive : ltb 0 (suc k) ≡ true = ground arith in
      let not_inside : ltb (suc k) s.length ≡ false = ground (arith, is.count) in
      let last : nat_beq (suc k) s.length ≡ true = ground (arith, is.count) in
      rw not_zero (rw positive (rw not_inside (rw last (set_next-ok (grown d s) pq _))))

  -- The new node is none of the list's.
  new-ne : (q : Ptr) → has q xs ≡ true → suc s.used ≢ q
  new-ne q into = apart xs (is.bound _ (omega arith)) into

  old-ne : (k : ℕ) → k < length xs → addr_at k xs ≢ suc s.used
  old-ne k lt e = new-ne _ (has-addr_at k is.chain lt) (sym e)

  insert_end :
      (k : ℕ)
      → suc k ≡ length xs
      → Refines Represents (insert d (pos (suc k)) s) (ok tt (insert_at (suc k) d (values xs)))
  unfolding insert new_node
  insert_end k at_end =
      let j : length xs - 1 ≡ k = omega arith in
      let (v, e, pq) =
        cell k (grown-IsList d s is).chain (omega arith) (is.last ∙ ap (λ n. addr_at n xs) j) in
      rw (in_range d s is (suc k) (omega arith)) (
        rw (link_last k at_end v pq) (
          finish d s is (suc k) _ (omega arith)
            (insert_behind k _ e (Points-write pq _)
              (Points-write_other s.tail _ (new-ne s.tail (has_of_get_elem? k xs e))
                (rw (addr_at_past (suc k) xs (omega arith)) (new-Points d s is)))
              (λ b ne i. write-other _ s.tail _ b ne))
            (omega (arith, is.count)) refl refl))

  link_middle :
      (k : ℕ)
      → suc k < length xs
      → (v : V) → Points (grown d s).nodes (addr_at k xs) v (addr_at (suc k) xs)
      → link_new (suc s.used) (pos (suc k)) (grown d s) (grown d s)
        ≡ ok tt (record (grown d s) {
          nodes =
              write
                (write (grown d s).nodes (suc s.used) (node d (addr_at (suc k) xs)))
                (addr_at k xs)
                (node v (suc s.used));
        })
  unfolding link_new insert_middle
  link_middle k lt v pq =
      let not_zero : nat_beq (suc k) 0 ≡ false = ground arith in
      let positive : ltb 0 (suc k) ≡ true = ground arith in
      let inside : ltb (suc k) s.length ≡ true = ground (arith, is.count) in
      let (w, e, pn) = cell (suc k) (grown-IsList d s is).chain lt refl in
      rw not_zero (
        rw positive (
          rw inside (
            rw (walk-addr_at (grown d s) k (grown-IsList d s is).chain (omega arith)) (
              rw (load-ok (grown d s) pq) (
                rw (not_null pn) (
                  rw (set_next-ok (grown d s) (new-Points d s is) _) (
                    set_next-ok
                      (record (grown d s) {
                        nodes = write (grown d s).nodes (suc s.used) (node d (addr_at (suc k) xs));
                      })
                      (Points-write_other _ _ (old-ne k (omega arith)) pq) _)))))))

  insert_between :
      (k : ℕ)
      → suc k < length xs
      → Refines Represents (insert d (pos (suc k)) s) (ok tt (insert_at (suc k) d (values xs)))
  unfolding insert new_node
  insert_between k lt =
      let (v, e, pq) = cell k (grown-IsList d s is).chain (omega arith) refl in
      rw (in_range d s is (suc k) (omega arith)) (
        rw (link_middle k lt v pq) (
          finish d s is (suc k) _ (omega arith)
            (insert_behind k _ e
              (Points-write (Points-write_other _ _ (old-ne k (omega arith)) pq) _)
              (Points-write_other _ _ (new-ne _ (has_of_get_elem? k xs e))
                (Points-write (new-Points d s is) _))
              (λ b ne i. write-other _ _ _ b ne ∙ write-other _ _ _ b (λ e. new-ne b i (sym e))))
            (omega (arith, is.count)) refl refl))

  insert_beyond :
      (i : ℕ)
      → length xs < i
      → Refines {A = Unit {0}} Represents (insert d (pos i) s) (err invalid_index (values xs))
  unfolding insert new_node
  insert_beyond i gt =
      let big : ltb s.length i ≡ true = ground (arith, is.count) in
      rw big (both_err (xs, grown-IsList d s is, refl))

  insert_negative :
      (i : ℕ)
      → Refines {A = Unit {0}} Represents (insert d (negsuc i) s) (err invalid_index (values xs))
  unfolding insert new_node link_new
  insert_negative i = both_err (xs, grown-IsList d s is, refl)

  insert_in_range :
      (i : ℕ)
      → i ≤ length xs
      → Refines Represents (insert d (pos i) s) (ok tt (insert_at i d (values xs)))
  insert_in_range zero h = insert_front
  insert_in_range (suc k) h = elim (dec_lt (suc k) (length xs)) [
    | yes lt ↦ insert_between k lt
    | no ge ↦ insert_end k (omega arith)
  ]

  -- `Insert` does to the nodes what the specification does to the values, on every index.
  pub insert-refines :
      (index : ℤ) → Refines Represents (insert d index s) (Spec.insert d index (values xs))
  unfolding Spec.insert
  insert-refines (negsuc i) = insert_negative i
  insert-refines (pos i) = elim (dec_lt (length xs) i) [
    | yes gt ↦
        let big : leb i (length (values xs)) ≡ false = ground (arith, length-map (λ c. c.1) xs) in
        rw big (insert_beyond i gt)
    | no le ↦
        let fits : leb i (length (values xs)) ≡ true = ground (arith, length-map (λ c. c.1) xs) in
        rw fits (insert_in_range i (omega arith))
  ]

module _ {ℓ} {V : Type ℓ} (d : V) (s : Memory V) {xs : Cells V} (is : IsList s xs) where
  pub insert_last-refines :
      Refines Represents (insert_last d s) (Spec.insert d (pos (length (values xs))) (values xs))
  unfolding insert_last
  insert_last-refines =
      let size : length (values xs) ≡ s.length = length-map (λ c. c.1) xs ∙ sym is.count in
      rw size (insert-refines d s is (pos s.length))
