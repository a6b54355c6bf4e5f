-- ===== src/Heap.antt =====
-- The nodes of order_service/pkg/linkedlist/list.go at addresses, and the list header that points
-- into them. Nodes are shared by pointer, so every write goes through the heap. Go collects what is
-- no longer reachable, so nothing is freed.
pub mod Index
pub mod Points
pub mod Seg
pub mod Splice
use l0_wb_tech_school.Base.{ℕ, suc, Option, none, some, ◌==◌, nat_eq, if◌then◌else◌, ok, panic, Cmd}

-- A `*Node`; 0 is `nil`.
abbrev pub Ptr : Type 0
Ptr = ℕ

abbrev pub null : Ptr
null = 0

pub data ListError : Type 0 where
  invalid_index empty_list : ListError

pub record Node {ℓ} (V : Type ℓ) : Type ℓ where
  pub value : V
  pub next : Ptr

abbrev pub node {ℓ} : {V : Type ℓ} → V → Ptr → Node V
node v q = record { value = v; next = q }

pub record LinkedList : Type 0 where
  pub head : Ptr
  pub tail : Ptr
  pub length : ℕ

abbrev pub Nodes {ℓ} : Type ℓ → Type ℓ
Nodes V = Ptr → Option (Node V)

-- A list header with the memory that it points into; addresses above `used` are not allocated yet.
pub record Memory {ℓ} (V : Type ℓ) : Type ℓ where
  pub nodes : Nodes V
  pub used : ℕ
  pub list : LinkedList
  pub open list use *

abbrev pub ListCmd {ℓ κ} : Type ℓ → Type κ → Type (ℓ ⊔ κ)
ListCmd V A = Cmd ListError (Memory V) A

module _ {ℓ} {V : Type ℓ} where
  unfoldable pub write : Nodes V → Ptr → Node V → Nodes V
  write h p n a = if a == p then some n else h a

  -- `p.field`: a panic at `nil`.
  unfoldable pub load : Ptr → ListCmd V (Node V)
  load p s = if p == null then panic else elim (s.nodes p) [ none ↦ panic | some n ↦ ok n s ]

  -- `p.next = q`
  unfoldable pub set_next : Ptr → Ptr → ListCmd V (Unit {0})
  set_next p q s = if p == null then panic else elim (s.nodes p) [
    | none ↦ panic
    | some n ↦ ok tt (record s { nodes = write s.nodes p (node n.value q) })
  ]

  -- `&Node{v, q}`
  unfoldable pub new_node : V → Ptr → ListCmd V Ptr
  new_node v q s =
      ok (suc s.used)
        (record s { nodes = write s.nodes (suc s.used) (node v q); used = suc s.used })

  abbrev pub set_head : Ptr → ListCmd V (Unit {0})
  set_head p s = ok tt (record s { list = record (s.list) { head = p } })

  abbrev pub set_length : ℕ → ListCmd V (Unit {0})
  set_length n s = ok tt (record s { list = record (s.list) { length = n } })
