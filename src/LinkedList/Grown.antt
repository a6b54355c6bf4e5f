-- ===== src/LinkedList/Grown.antt =====
-- The memory that `Insert` begins with: the list and a new node, in order_service/pkg/linkedlist/list.go.
use l0_wb_tech_school.Base.{
  ℕ, suc, ◌-◌, ◌≤◌, ◌≡◌, sym, ◌∙◌, false, arith, nat_eq, nat_beq, length, ltb, inl, inr, Bool-cases,
  insert_at, ok, Refines, both_ok, map-insert_at, pure, if◌then◌else◌, length-insert_at,
}
use l0_wb_tech_school.Heap.{Ptr, null, node, Memory, write, ListError}
use l0_wb_tech_school.Heap.Points.{Points}
use l0_wb_tech_school.Heap.Seg.{Cells, addr_at, Seg, frame-write}
use l0_wb_tech_school.Heap.Index.{addr_at-insert_at, addr_last-insert_at, has-insert_at}
use l0_wb_tech_school.LinkedList.{set_tail}
use l0_wb_tech_school.LinkedList.Chain.{values, IsList, Represents}

-- The memory behind the allocation that `Insert` begins with.
abbrev pub grown {ℓ} : {V : Type ℓ} → V → Memory V → Memory V
grown d s = record s { nodes = write s.nodes (suc s.used) (node d null); used = suc s.used }

module _ {ℓ} {V : Type ℓ} (d : V) (s : Memory V) {xs : Cells V} (is : IsList s xs) where
  pub new-Points : Points (grown d s).nodes (suc s.used) d null
  unfolding write
  new-Points = record { ne_null = omega arith; holds = ground arith }

  pub grown-IsList : IsList (grown d s) xs
  grown-IsList = record {
    chain = frame-write (suc s.used) (node d null) is.chain (is.bound _ (omega arith));
    last = is.last;
    count = is.count;
    bound = λ a lt. is.bound a (omega arith);
  }

  pub in_range : (i : ℕ) → i ≤ length xs → ltb s.length i ≡ false
  in_range i h = ground (arith, is.count)

  -- The last test of `Insert`, once the node is linked in: `f` is right but for its tail.
  pub finish :
      (i : ℕ) (f : Memory V)
      → i ≤ length xs
      → Seg f.nodes f.head (insert_at i (suc s.used, d) xs)
      → f.length ≡ suc (length xs)
      → f.used ≡ suc s.used
      → f.tail ≡ s.tail
      → Refines Represents
          ((if nat_beq i s.length then set_tail (suc s.used) else pure tt) f)
          (ok tt (insert_at i d (values xs)))
  finish i f le c n u keep = elim (Bool-cases (nat_beq i s.length)) [
    | inl e ↦ rw e (
        done _ (
          let at_end : i ≡ length xs = ground (arith, is.count) in
          rw (← at_end) (sym (addr_at-insert_at i (suc s.used) d xs le))))
    | inr e ↦ rw e (
        done _ (
          keep
          ∙ is.last
          ∙ sym (addr_last-insert_at i (suc s.used) d xs (ground (arith, is.count)))))
  ]
    where
      size : length (insert_at i (suc s.used, d) xs) ≡ suc (length xs)
      size = length-insert_at i _ xs

      before : length (insert_at i (suc s.used, d) xs) - 1 ≡ length xs
      before = omega (arith, size)

      done :
          (t : Ptr)
          → t ≡ addr_at (length xs) (insert_at i (suc s.used, d) xs)
          → Refines {E = ListError} {A = Unit {0}} Represents
              (ok tt (record f { list = record (f.list) { tail = t } }))
              (ok tt (insert_at i d (values xs)))
      done t last = both_ok (
        insert_at i (suc s.used, d) xs,
        record {
          chain = c;
          last = rw before last;
          count = n ∙ sym size;
          bound = λ a lt. has-insert_at i _ d xs a (ground arith) (is.bound a (omega arith));
        },
        map-insert_at (λ c. c.1) i (suc s.used, d) xs,
      )
