-- ===== src/LinkedList.antt =====
-- The methods of `LinkedList` in order_service/pkg/linkedlist/list.go, each as a command on the
-- header and the nodes that it points to. An `error` is raised, a `nil` dereference panics. An
-- index is an `int`; the length counts nodes and is a natural number. The mutex is held from the
-- first write to the return, so a command is one step.
pub mod Chain
pub mod Grown
pub mod Insert
pub mod Move
pub mod Read
pub mod Refinement
pub mod Remove
pub mod Spec
use l0_wb_tech_school.Base.{
  ℕ, zero, suc, ◌+◌, ◌-◌, Bool, not, ◌&&◌, ◌||◌, List, [], ◌∷◌, ◌==◌, nat_eq, if◌then◌else◌, ltb,
  ◌>>=◌, ◌>>◌, pure, raise, get_state, modify,
}
use l0_wb_tech_school.Base.Int.{ℤ, pos, negsuc, pos_part, ltb_ℤ, leb_ℤ, eq_ℤ, pred_ℤ}
use l0_wb_tech_school.Heap.{
  Ptr, null, ListError, invalid_index, empty_list, Node, LinkedList, Memory, ListCmd, load,
  set_next, new_node, set_head, set_length,
}

-- `NewLinkedList`, in a memory that holds nothing.
unfoldable pub new_linked_list : LinkedList
new_linked_list = record { head = null; tail = null; length = 0 }

module _ {ℓ} {V : Type ℓ} where
  abbrev pub set_tail : Ptr → ListCmd V (Unit {0})
  set_tail p = modify λ s. record s { list = record (s.list) { tail = p } }

  -- `for i := 0; i < n; i++ { p = p.next }`
  unfoldable pub walk : ℕ → Ptr → ListCmd V Ptr
  walk zero p = pure p
  walk (suc n) p = do e ← load p; walk n e.next

  unfoldable pub recalculate_tail : ListCmd V (Unit {0})
  unfolding walk
  recalculate_tail = do
    s ← get_state
    current_elem ← walk (s.length - 1) s.head
    set_tail current_elem

  -- The branch of `Insert` for 0 < index < length.
  insert_middle : Ptr → ℤ → Ptr → ListCmd V (Unit {0})
  unfolding walk
  insert_middle new index head = do
    prev ← walk (pos_part (pred_ℤ index)) head
    e ← load prev
    if e.next == null then pure tt else set_next new e.next
    set_next prev new

  -- The three branches that link the new node in.
  link_new : Ptr → ℤ → Memory V → ListCmd V (Unit {0})
  unfolding insert_middle
  link_new new index s =
      if eq_ℤ index (pos 0)
      then (do set_next new s.head; set_head new)
      else if ltb_ℤ (pos 0) index
      then if ltb_ℤ index (pos s.length)
        then insert_middle new index s.head
        else if eq_ℤ index (pos s.length)
        then set_next s.tail new
        else pure tt
      else raise invalid_index

  unfoldable pub insert : V → ℤ → ListCmd V (Unit {0})
  unfolding link_new
  insert data' index = do
    new ← new_node data' null
    s ← get_state
    if ltb_ℤ (pos s.length) index then raise invalid_index else (do
      link_new new index s
      set_length (s.length + 1)
      if eq_ℤ index (pos s.length) then set_tail new else pure tt)

  unfoldable pub insert_last : V → ListCmd V (Unit {0})
  unfolding insert
  insert_last data' = do s ← get_state; insert data' (pos s.length)

  remove_first_node : ListCmd V (Unit {0})
  unfolding recalculate_tail
  remove_first_node = do
    s ← get_state
    if s.length == 0
        then raise empty_list
        else (do e ← load s.head; set_head e.next; set_length (s.length - 1); recalculate_tail)

  -- The part of `removeNodeAt` for 0 < index < length.
  unlink_at : ℤ → Memory V → ListCmd V (Unit {0})
  unfolding walk
  unlink_at index s = do
    prev_elem ← walk (pos_part (pred_ℤ index)) s.head
    prev ← load prev_elem
    if prev.next == null
        then set_next prev_elem null
        else (do deleted ← load prev.next; set_next prev_elem deleted.next)
    if eq_ℤ index (pred_ℤ (pos s.length)) then set_tail prev_elem else pure tt
    set_length (s.length - 1)

  remove_node_at : ℤ → ListCmd V (Unit {0})
  unfolding remove_first_node unlink_at
  remove_node_at index = do
    s ← get_state
    if s.length == 0
        then raise empty_list
        else if eq_ℤ index (pos 0)
        then remove_first_node
        else if ltb_ℤ index (pos 0) || leb_ℤ (pos s.length) index
        then raise invalid_index
        else unlink_at index s

  unfoldable pub remove_at : ℤ → ListCmd V (Unit {0})
  unfolding remove_node_at
  remove_at index = remove_node_at index

  unfoldable pub remove_first : ListCmd V (Unit {0})
  unfolding remove_first_node
  remove_first = remove_first_node

  unfoldable pub remove_last : ListCmd V (Unit {0})
  unfolding remove_node_at
  remove_last = do s ← get_state; remove_node_at (pred_ℤ (pos s.length))

  get_first_node : ListCmd V Ptr
  get_first_node = do s ← get_state; if s.length == 0 then raise empty_list else pure s.head

  get_last_node : ListCmd V Ptr
  get_last_node = do s ← get_state; if s.length == 0 then raise empty_list else pure s.tail

  pub get_node_at : ℤ → ListCmd V Ptr
  unfolding get_first_node get_last_node walk
  get_node_at index = do
    s ← get_state
    if s.length == 0
        then raise empty_list
        else if eq_ℤ index (pos 0)
        then get_first_node
        else if ltb_ℤ index (pos 0) || leb_ℤ (pos s.length) index
        then raise invalid_index
        else if eq_ℤ index (pred_ℤ (pos s.length))
        then get_last_node
        else walk (pos_part index) s.head

  -- What `GetAt` and `GetFirst` do with the node that they found.
  value_of : Ptr → ListCmd V V
  value_of p = if p == null then raise empty_list else (do e ← load p; pure e.value)

  unfoldable pub get_at : ℤ → ListCmd V V
  unfolding get_node_at value_of
  get_at index = do p ← get_node_at index; value_of p

  unfoldable pub get_first : ListCmd V V
  unfolding get_first_node value_of
  get_first = do p ← get_first_node; value_of p

  unfoldable pub get_last : ListCmd V V
  unfolding get_last_node
  get_last = do p ← get_last_node; e ← load p; pure e.value

  -- The writes of `MoveToFirst`, once `prevNode` is known.
  relink_first : Ptr → ListCmd V (Unit {0})
  unfolding recalculate_tail
  relink_first prev_node = do
    prev ← load prev_node
    to_move ← load prev.next
    s ← get_state
    set_head prev.next
    set_next prev.next s.head
    set_next prev_node to_move.next
    recalculate_tail

  unfoldable pub move_to_first : ℤ → ListCmd V (Unit {0})
  unfolding get_node_at relink_first
  move_to_first from = do
    s ← get_state
    if ltb_ℤ from (pos 0) || leb_ℤ (pos s.length) from
        then raise invalid_index
        else if ltb_ℤ (pos 0) from && ltb 1 s.length
        then (do prev ← get_node_at (pred_ℤ from); relink_first prev)
        else pure tt

  module _ (compare_func : V → V → Bool) (item : V) where
    -- The loop of `GetIndex` from index `i` on, with `k` rounds left.
    index_loop : ℕ → ℕ → Ptr → ListCmd V ℤ
    index_loop zero i elem' = pure (negsuc 0)
    index_loop (suc k) i elem' = do
      e ← load elem'
      if compare_func e.value item then pure (pos i) else index_loop k (suc i) e.next

    unfoldable pub get_index : ListCmd V ℤ
    unfolding index_loop
    get_index = do
      s ← get_state
      if s.length == 0 then raise empty_list else index_loop s.length 0 s.head

  all_loop : ℕ → Ptr → ListCmd V (List V)
  all_loop zero p = pure []
  all_loop (suc k) p = do e ← load p; rest ← all_loop k e.next; pure (e.value ∷ rest)

  unfoldable pub get_all : ListCmd V (List V)
  unfolding all_loop
  get_all = do s ← get_state; all_loop s.length s.head
