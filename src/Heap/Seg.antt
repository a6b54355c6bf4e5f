-- ===== src/Heap/Seg.antt =====
-- Chains of nodes and their footprints.
use l0_wb_tech_school.Base.{
  ℕ, zero, suc, ◌<◌, ◌≡◌, refl, Bool, true, false, ◌||◌, List, [], ◌∷◌, arith, ◌==◌, nat_eq, length,
}
use l0_wb_tech_school.Heap.{Ptr, null, Node, Nodes, write}
use l0_wb_tech_school.Heap.Points.{Points}

-- Address and value of each node, in order.
abbrev pub Cells {ℓ} : Type ℓ → Type ℓ
Cells V = List (Ptr × V)

module _ {ℓ} {V : Type ℓ} where
  abbrev pub has : Ptr → Cells V → Bool
  has a [] = false
  has a ((p, _) ∷ xs) = (a == p) || has a xs

  -- The address of the node at an index, `nil` past the end.
  abbrev pub addr_at : ℕ → Cells V → Ptr
  addr_at i [] = null
  addr_at zero ((p, _) ∷ xs) = p
  addr_at (suc i) (x ∷ xs) = addr_at i xs

  -- From `p` the `next` pointers lead through the distinct nodes `xs` to `nil`.
  pub data Seg (h : Nodes V) : Ptr → Cells V → Type ℓ where
    nil : Seg h null []
    cons :
        {p q : Ptr} {v : V} {xs : Cells V}
        → Points h p v q
        → has p xs ≡ false
        → Seg h q xs
        → Seg h p ((p, v) ∷ xs)

module _ {ℓ} {V : Type ℓ} {h : Nodes V} where
  -- A chain survives any change that spares its own addresses.
  pub frame :
      {g : Nodes V} {p : Ptr} {xs : Cells V}
      → Seg h p xs
      → ((a : Ptr) → has a xs ≡ true → g a ≡ h a)
      → Seg g p xs
  frame nil same = nil
  frame (cons {p} e out s) same =
      cons (record { ne_null = e.ne_null; holds = ground (arith, same p, e.holds) }) out
        (frame s λ a i. same a (ground arith))

  pub frame-write :
      {p : Ptr} {xs : Cells V} (a : Ptr) (n : Node V)
      → Seg h p xs
      → has a xs ≡ false
      → Seg (write h a n) p xs
  unfolding write
  frame-write a n s out = frame s (ground arith)

  pub head-eq-addr_at : {p : Ptr} {xs : Cells V} → Seg h p xs → p ≡ addr_at 0 xs
  head-eq-addr_at nil = refl
  head-eq-addr_at (cons e out s) = refl

  pub has-addr_at :
      {p : Ptr} {xs : Cells V} (i : ℕ) → Seg h p xs → i < length xs → has (addr_at i xs) xs ≡ true
  has-addr_at i nil lt = absurd (omega arith)
  has-addr_at zero (cons e out s) lt = ground arith
  has-addr_at (suc i) (cons e out s) lt = ground (arith, has-addr_at i s)
