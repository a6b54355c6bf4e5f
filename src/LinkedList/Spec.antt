-- ===== src/LinkedList/Spec.antt =====
-- What list.go promises, on a plain sequence: the same errors and results with no pointers.
use l0_wb_tech_school.Base.{
  ℕ, zero, suc, ◌-◌, Bool, Option, none, some, List, [], ◌∷◌, if◌then◌else◌, ltb, leb, length,
  get_elem?, Outcome, ok, err,
}
use l0_wb_tech_school.Base
use l0_wb_tech_school.Base.Int.{ℤ, pos, negsuc}
use l0_wb_tech_school.Heap.{ListError, invalid_index, empty_list}

module _ {ℓ} {V : Type ℓ} where
  unfoldable pub insert : V → ℤ → List V → Outcome ListError (List V) (Unit {0})
  insert v (pos i) vs =
      if leb i (length vs) then ok tt (Base.insert_at i v vs) else err invalid_index vs
  insert v (negsuc i) vs = err invalid_index vs

  unfoldable pub remove_at : ℤ → List V → Outcome ListError (List V) (Unit {0})
  remove_at index [] = err empty_list []
  remove_at (pos i) (v ∷ vs) =
      if ltb i (length (v ∷ vs))
      then ok tt (Base.remove_at i (v ∷ vs))
      else err invalid_index (v ∷ vs)
  remove_at (negsuc i) (v ∷ vs) = err invalid_index (v ∷ vs)

  -- The element at an index that the list has.
  found : ListError → Option V → List V → Outcome ListError (List V) V
  found e none vs = err e vs
  found e (some v) vs = ok v vs

  unfoldable pub get_at : ℤ → List V → Outcome ListError (List V) V
  unfolding found
  get_at index [] = err empty_list []
  get_at (pos i) (v ∷ vs) = found invalid_index (get_elem? (v ∷ vs) i) (v ∷ vs)
  get_at (negsuc i) (v ∷ vs) = err invalid_index (v ∷ vs)

  unfoldable pub get_last : List V → Outcome ListError (List V) V
  unfolding found
  get_last vs = found empty_list (get_elem? vs (length vs - 1)) vs

  abbrev pub to_front : Option V → ℕ → List V → List V
  to_front none i vs = vs
  to_front (some v) i vs = v ∷ Base.remove_at i vs

  unfoldable pub move_to_first : ℤ → List V → Outcome ListError (List V) (Unit {0})
  move_to_first (pos i) vs =
      if ltb i (length vs) then ok tt (to_front (get_elem? vs i) i vs) else err invalid_index vs
  move_to_first (negsuc i) vs = err invalid_index vs

  -- The first index from `i` on whose element compares equal, -1 if there is none.
  unfoldable pub index_from : (V → Bool) → ℕ → List V → ℤ
  index_from same i [] = negsuc 0
  index_from same i (v ∷ vs) = if same v then pos i else index_from same (suc i) vs

  unfoldable pub get_index : (V → V → Bool) → V → List V → Outcome ListError (List V) ℤ
  unfolding index_from
  get_index compare_func item [] = err empty_list []
  get_index compare_func item (v ∷ vs) =
      ok (index_from (λ w. compare_func w item) 0 (v ∷ vs)) (v ∷ vs)
