-- ===== src/LinkedList/Refinement.antt =====
-- Each method of list.go against its specification, for whatever list the memory stands for.
use l0_wb_tech_school.Base.{Bool, List, length, Refines, ok}
use l0_wb_tech_school.Base.Int.{ℤ, pos, pred_ℤ}
use l0_wb_tech_school.Heap.{Memory}
use l0_wb_tech_school.LinkedList.{
  insert, insert_last, remove_at, remove_first, remove_last, get_at, get_first, get_last,
  move_to_first, get_index, get_all,
}
use l0_wb_tech_school.LinkedList.Spec
use l0_wb_tech_school.LinkedList.Chain.{Represents}
use l0_wb_tech_school.LinkedList.Insert
use l0_wb_tech_school.LinkedList.Remove
use l0_wb_tech_school.LinkedList.Move
use l0_wb_tech_school.LinkedList.Read

module _ {ℓ} {V : Type ℓ} (s : Memory V) (vs : List V) (r : Represents s vs) where
  -- On a memory that stands for a sequence, `Insert` puts the value at an index from 0 to the length and shifts the rest; any other index is
  -- refused with `ErrInvalidIndex` and the list stays as it was. It never panics.
  pub insert-Represents :
      (v : V) (index : ℤ) → Refines Represents (insert v index s) (Spec.insert v index vs)
  insert-Represents v index = rw (← r.2) (Insert.insert-refines v s r.1 index)

  pub insert_last-Represents :
      (v : V) → Refines Represents (insert_last v s) (Spec.insert v (pos (length vs)) vs)
  insert_last-Represents v = rw (← r.2) (Insert.insert_last-refines v s r.1)

  -- On a memory that stands for a sequence, `RemoveAt` takes out the value at an index of the list; it answers `ErrEmptyList` for every
  -- index of an empty list and `ErrInvalidIndex` for any other index, and then changes nothing.
  pub remove_at-Represents :
      (index : ℤ) → Refines Represents (remove_at index s) (Spec.remove_at index vs)
  remove_at-Represents index = rw (← r.2) (Remove.remove_at-refines s index r.1)

  pub remove_first-Represents : Refines Represents (remove_first s) (Spec.remove_at (pos 0) vs)
  remove_first-Represents = rw (← r.2) (Remove.remove_first-refines s r.1)

  -- On a memory that stands for a sequence, `RemoveLast` takes out the last value; it answers `ErrEmptyList` on an empty list.
  pub remove_last-Represents :
      Refines Represents (remove_last s) (Spec.remove_at (pred_ℤ (pos (length vs))) vs)
  remove_last-Represents = rw (← r.2) (Remove.remove_last-refines s r.1)

  -- On a memory that stands for a sequence, `MoveToFirst` brings the value at an index to the front and keeps the order of the others; an
  -- index outside the list is refused with `ErrInvalidIndex`, and the list stays as it was.
  pub move_to_first-Represents :
      (index : ℤ) → Refines Represents (move_to_first index s) (Spec.move_to_first index vs)
  move_to_first-Represents index = rw (← r.2) (Move.move_to_first-refines s index r.1)

  pub get_at-Represents : (index : ℤ) → Refines Represents (get_at index s) (Spec.get_at index vs)
  get_at-Represents index = rw (← r.2) (Read.get_at-refines s index r.1)

  pub get_first-Represents : Refines Represents (get_first s) (Spec.get_at (pos 0) vs)
  get_first-Represents = rw (← r.2) (Read.get_first-refines s r.1)

  pub get_last-Represents : Refines Represents (get_last s) (Spec.get_last vs)
  get_last-Represents = rw (← r.2) (Read.get_last-refines s r.1)

  -- On a memory that stands for a sequence, `GetIndex` answers with the index of the first value that compares equal, with -1 if there is none,
  -- and with `ErrEmptyList` on an empty list; it changes nothing.
  pub get_index-Represents :
      (compare_func : V → V → Bool) (item : V)
      → Refines Represents (get_index compare_func item s) (Spec.get_index compare_func item vs)
  get_index-Represents compare_func item =
      rw (← r.2) (Read.get_index-refines s compare_func item r.1)

  pub get_all-Represents : Refines Represents (get_all s) (ok vs vs)
  get_all-Represents = rw (← r.2) (Read.get_all-refines s r.1)
