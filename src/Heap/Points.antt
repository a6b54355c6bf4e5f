-- ===== src/Heap/Points.antt =====
-- One node at one address.
use l0_wb_tech_school.Base.{◌≡◌, ◌∙◌, ◌≢◌, false, some, arith, ◌==◌, nat_eq, ok}
use l0_wb_tech_school.Heap.{Ptr, null, Node, node, Nodes, Memory, write, load, set_next}

-- `p` holds the value `v` and the successor `q`.
pub record Points {ℓ} {V : Type ℓ} (h : Nodes V) (p : Ptr) (v : V) (q : Ptr) : Type ℓ where
  pub ne_null : p ≢ null
  pub holds : h p ≡ some (node v q)

module _ {ℓ} {V : Type ℓ} {h : Nodes V} {p q : Ptr} {v : V} (e : Points h p v q) where
  pub not_null : (p == null) ≡ false
  not_null = ground (arith, e.ne_null)

  pub Points-write : (r : Ptr) → Points (write h p (node v r)) p v r
  unfolding write
  Points-write r = ground (arith, e.ne_null)

module _ {ℓ} {V : Type ℓ} (s : Memory V) {p q : Ptr} {v : V} (e : Points (s.nodes) p v q) where
  pub load-ok : load p s ≡ ok (node v q) s
  unfolding load
  load-ok = rw (not_null e, e.holds)

  pub set_next-ok :
      (r : Ptr) → set_next p r s ≡ ok tt (record s { nodes = write s.nodes p (node v r) })
  unfolding set_next
  set_next-ok r = rw (not_null e, e.holds)

module _ {ℓ} {V : Type ℓ} where
  pub write-other : (h : Nodes V) (p : Ptr) (n : Node V) (b : Ptr) → b ≢ p → write h p n b ≡ h b
  unfolding write
  write-other h p n b ne = let miss : (b == p) ≡ false = ground arith in rw miss

  pub Points-write_other :
      {h : Nodes V} (p : Ptr) (n : Node V) {a q : Ptr} {v : V}
      → a ≢ p
      → Points h a v q
      → Points (write h p n) a v q
  Points-write_other {h} p n {a} ne e = record {
    ne_null = e.ne_null;
    holds = write-other h p n a ne ∙ e.holds;
  }
