-- ===== src/LinkedList/Chain.antt =====
-- What a header and its nodes stand for, and the loops that walk them.
use l0_wb_tech_school.Base.{
  ℕ, zero, suc, ◌-◌, ◌<◌, ◌≡◌, ◌∙◌, ap, sym, refl, ap, ◌∙◌, false, some, List, map, arith, nat_beq,
  nat_eq, length, get_elem?, ok,
}
use l0_wb_tech_school.Base.Int.{pos, pred_ℤ, eq_ℤ}
use l0_wb_tech_school.Heap.{Ptr, Nodes, Memory}
use l0_wb_tech_school.Heap.Points.{Points, load-ok}
use l0_wb_tech_school.Heap.Seg.{Cells, has, addr_at, Seg, nil, cons}
use l0_wb_tech_school.Heap.Index.{get_elem?_of_lt, addr_at_of_get_elem?}
use l0_wb_tech_school.Heap.Splice.{cell-Points}
use l0_wb_tech_school.LinkedList.{walk, recalculate_tail}

-- The code's test for the last index.
pub last_test : (i n : ℕ) → 0 < n → eq_ℤ (pos i) (pred_ℤ (pos n)) ≡ nat_beq (suc i) n
last_test i zero h = absurd (omega arith)
last_test i (suc n) h = ground arith

module _ {ℓ} {V : Type ℓ} where
  abbrev pub values : Cells V → List V
  values = map (λ c. c.1)

  -- The nodes lead through `xs`, `tail` is the last of them, and nothing above `used` is in use.
  pub record IsList (s : Memory V) (xs : Cells V) : Type ℓ where
    pub chain : Seg s.nodes s.head xs
    pub last : s.tail ≡ addr_at (length xs - 1) xs
    pub count : s.length ≡ length xs
    pub bound : (a : Ptr) → s.used < a → has a xs ≡ false

  abbrev pub Represents : Memory V → List V → Type ℓ
  Represents s vs = (xs : Cells V) × IsList s xs × (values xs ≡ vs)

  pub walk-addr_at :
      (s : Memory V) (i : ℕ) {p : Ptr} {xs : Cells V}
      → Seg s.nodes p xs
      → i < length xs
      → walk i p s ≡ ok (addr_at i xs) s
  unfolding walk
  walk-addr_at s i nil lt = absurd (omega arith)
  walk-addr_at s zero (cons e out c) lt = refl
  walk-addr_at s (suc i) (cons e out c) lt = rw (load-ok s e) (walk-addr_at s i c (omega arith))

  last_walk :
      (s : Memory V) (k : ℕ) {p : Ptr} {xs : Cells V}
      → Seg s.nodes p xs
      → k ≡ length xs
      → walk (k - 1) p s ≡ ok (addr_at (length xs - 1) xs) s
  unfolding walk
  last_walk s k nil n = rw n
  last_walk s k (cons e out c) n = rw n (walk-addr_at s _ (cons e out c) (omega arith))

  pub recalculate_tail-ok :
      {xs : Cells V} (s : Memory V)
      → Seg s.nodes s.head xs
      → s.length ≡ length xs
      → recalculate_tail s
        ≡ ok tt (record s { list = record (s.list) { tail = addr_at (length xs - 1) xs } })
  unfolding recalculate_tail
  recalculate_tail-ok {xs} s c n = rw (last_walk s s.length c n)

  -- The node at an index: what it holds, and its successor.
  pub cell :
      (i : ℕ) {p q : Ptr} {xs : Cells V} {h : Nodes V}
      → Seg h p xs
      → i < length xs
      → q ≡ addr_at i xs
      → (v : V) × (get_elem? xs i ≡ some (q, v)) × Points h q v (addr_at (suc i) xs)
  cell i {xs} c lt at =
      let (r, v, e) = get_elem?_of_lt i xs lt in
      let e' = e ∙ ap (λ a. some (a, v)) (sym (at ∙ addr_at_of_get_elem? i xs e)) in
      (v, e', cell-Points i c e')
