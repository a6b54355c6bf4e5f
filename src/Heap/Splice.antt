-- ===== src/Heap/Splice.antt =====
-- What one or two writes do to a chain: a node linked in behind another, or bypassed.
use l0_wb_tech_school.Base.{
  ℕ, zero, suc, ◌≡◌, refl, ◌≢◌, ◌∙◌, true, false, some, arith, nat_eq, get_elem?, insert_at,
  remove_at,
}
use l0_wb_tech_school.Heap.{Ptr, Nodes}
use l0_wb_tech_school.Heap.Points.{Points}
use l0_wb_tech_school.Heap.Index.{apart, has_of_get_elem?, has-remove_at, has-insert_at}
use l0_wb_tech_school.Heap.Seg.{Cells, has, addr_at, Seg, nil, cons, frame, head-eq-addr_at}

module _ {ℓ} {V : Type ℓ} {h : Nodes V} where
  pub cell-Points :
      (i : ℕ) {p : Ptr} {xs : Cells V} {q : Ptr} {v : V}
      → Seg h p xs
      → get_elem? xs i ≡ some (q, v)
      → Points h q v (addr_at (suc i) xs)
  cell-Points i nil e = cc
  cell-Points zero (cons e out s) f = record {
    ne_null = ground (arith, e.ne_null);
    holds = ground (arith, e.holds, head-eq-addr_at s);
  }
  cell-Points (suc i) (cons e out s) f = cell-Points i s f

  -- The node that an index names is not among those that are left once it is bypassed.
  pub removed-not-has :
      (i : ℕ) {p : Ptr} {xs : Cells V} {q : Ptr} {v : V}
      → Seg h p xs
      → get_elem? xs i ≡ some (q, v)
      → has q (remove_at i xs) ≡ false
  removed-not-has i nil e = refl
  removed-not-has zero (cons e out s) f = ground arith
  removed-not-has (suc i) (cons {xs} e out s) f =
      ground (arith, removed-not-has i s f, has_of_get_elem? i xs f)

  module _ {g : Nodes V} where
    pub splice_in-Seg :
        (i : ℕ) {p : Ptr} {xs : Cells V} {q a : Ptr} {v d : V}
        → Seg h p xs
        → get_elem? xs i ≡ some (q, v)
        → Points g q v a
        → Points g a d (addr_at (suc i) xs)
        → has a xs ≡ false
        → ((b : Ptr) → b ≢ q → has b xs ≡ true → g b ≡ h b)
        → Seg g p (insert_at (suc i) (a, d) xs)
    splice_in-Seg i nil f pq pa new same = cc
    splice_in-Seg zero {a} {d} (cons {p} {q = r} {xs} e out s) f pq pa new same =
        cons (record { ne_null = e.ne_null; holds = ground (arith, pq.holds) }) (ground arith)
          (cons
            (record { ne_null = pa.ne_null; holds = ground (arith, pa.holds, head-eq-addr_at s) })
            (ground arith) (frame s λ b i. same b (ground arith) (ground arith)))
    splice_in-Seg (suc i) {a} {d} (cons {p} {xs} e out s) f pq pa new same =
        cons
          (record {
            ne_null = e.ne_null;
            holds = same p (apart xs out (has_of_get_elem? i xs f)) (ground arith) ∙ e.holds;
          })
          (has-insert_at (suc i) a d xs p (ground arith) out)
          (splice_in-Seg i s f pq pa (ground arith) λ b ne i. same b ne (ground arith))

    pub splice_out-Seg :
        (i : ℕ) {p : Ptr} {xs : Cells V} {q r : Ptr} {v w : V}
        → Seg h p xs
        → get_elem? xs i ≡ some (q, v)
        → get_elem? xs (suc i) ≡ some (r, w)
        → Points g q v (addr_at (suc (suc i)) xs)
        → ((b : Ptr) → b ≢ q → has b (remove_at (suc i) xs) ≡ true → g b ≡ h b)
        → Seg g p (remove_at (suc i) xs)
    splice_out-Seg i nil f f' pq same = cc
    splice_out-Seg zero (cons e out nil) f f' pq same = cc
    splice_out-Seg zero (cons {p} e out (cons e' out' s)) f f' pq same =
        cons (record { ne_null = e.ne_null; holds = ground (arith, pq.holds, head-eq-addr_at s) })
          (ground arith) (frame s λ b i. same b (ground arith) (ground arith))
    splice_out-Seg (suc i) (cons {p} {xs} e out s) f f' pq same =
        cons
          (record {
            ne_null = e.ne_null;
            holds = same p (apart xs out (has_of_get_elem? i xs f)) (ground arith) ∙ e.holds;
          })
          (has-remove_at (suc i) xs p out)
          (splice_out-Seg i s f f' pq λ b ne i. same b ne (ground arith))
