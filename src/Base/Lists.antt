-- ===== src/Base/Lists.antt =====
-- Lists measured and indexed by native numbers, and the operations that the list model states.
use Prim.Native.Nat.{ℕ, zero, suc, ◌+◌, ◌≤◌, ◌<◌}
use mathlib.Core.Path.{◌≡◌, refl, ap}
use mathlib.Core.List.{List, [], ◌∷◌, ◌++◌, map}
use mathlib.Core.Option.{Option, none, some}
use mathlib.Core.Bool.{Bool}
use mathlib.Core.Logic.{inl, inr}
use l0_wb_tech_school.Base.Tests.{if◌then◌else◌, Bool-cases}
use native.Mathlib.Omega.{arith}

module _ {ℓ} {A : Type ℓ} where
  abbrev pub get_elem? : List A → ℕ → Option A
  get_elem? [] i = none
  get_elem? (x ∷ xs) zero = some x
  get_elem? (x ∷ xs) (suc i) = get_elem? xs i

  abbrev pub length : List A → ℕ
  length [] = 0
  length (_ ∷ rest) = suc (length rest)

  abbrev pub take : ℕ → List A → List A
  take zero _ = []
  take (suc k) [] = []
  take (suc k) (first ∷ rest) = first ∷ take k rest

  -- `x` at index `i`, with what stood there and behind it shifted right.
  abbrev pub insert_at : ℕ → A → List A → List A
  insert_at zero x xs = x ∷ xs
  insert_at (suc i) x [] = x ∷ []
  insert_at (suc i) x (y ∷ ys) = y ∷ insert_at i x ys

  -- The list without the element at index `i`.
  abbrev pub remove_at : ℕ → List A → List A
  remove_at i [] = []
  remove_at zero (x ∷ xs) = xs
  remove_at (suc i) (x ∷ xs) = x ∷ remove_at i xs

  pub get_elem?_of_lt : (i : ℕ) (xs : List A) → i < length xs → (x : A) × (get_elem? xs i ≡ some x)
  get_elem?_of_lt i [] h = absurd (omega arith)
  get_elem?_of_lt zero (x ∷ xs) h = (x, refl)
  get_elem?_of_lt (suc i) (x ∷ xs) h = get_elem?_of_lt i xs (omega arith)

  pub get_elem?_past : (i : ℕ) (xs : List A) → length xs ≤ i → get_elem? xs i ≡ none
  get_elem?_past i [] h = refl
  get_elem?_past zero (x ∷ xs) h = absurd (omega arith)
  get_elem?_past (suc i) (x ∷ xs) h = get_elem?_past i xs (omega arith)

  pub length-append : (xs ys : List A) → length (xs ++ ys) ≡ length xs + length ys
  length-append [] ys = omega arith
  length-append (x ∷ xs) ys = omega (arith, length-append xs ys)

  pub length-insert_at : (i : ℕ) (x : A) (xs : List A) → length (insert_at i x xs) ≡ suc (length xs)
  length-insert_at zero x xs = refl
  length-insert_at (suc i) x [] = refl
  length-insert_at (suc i) x (y ∷ ys) = ap suc (length-insert_at i x ys)

  pub length-remove_at :
      (i : ℕ) (xs : List A) → i < length xs → suc (length (remove_at i xs)) ≡ length xs
  length-remove_at i [] h = absurd (omega arith)
  length-remove_at zero (x ∷ xs) h = refl
  length-remove_at (suc i) (x ∷ xs) h = ap suc (length-remove_at i xs (omega arith))

  pub length-take-le : (n : ℕ) (xs : List A) → length (take n xs) ≤ n
  length-take-le zero xs = omega arith
  length-take-le (suc n) [] = omega arith
  length-take-le (suc n) (x ∷ xs) = omega (arith, length-take-le n xs)

  pub take_of_length-le : (k : ℕ) (ys : List A) → length ys ≤ k → take k ys ≡ ys
  take_of_length-le zero [] short = refl
  take_of_length-le zero (y ∷ ys) short = absurd (omega arith)
  take_of_length-le (suc k) [] short = refl
  take_of_length-le (suc k) (y ∷ ys) short =
      let rest : take k ys ≡ ys = take_of_length-le k ys (omega arith) in ap (λ zs. y ∷ zs) rest

module _ {ℓ κ} {A : Type ℓ} {B : Type κ} (f : A → B) where
  pub length-map : (xs : List A) → length (map f xs) ≡ length xs
  length-map [] = refl
  length-map (x ∷ xs) = ap suc (length-map xs)

  pub map-insert_at :
      (i : ℕ) (x : A) (xs : List A) → map f (insert_at i x xs) ≡ insert_at i (f x) (map f xs)
  map-insert_at zero x xs = refl
  map-insert_at (suc i) x [] = refl
  map-insert_at (suc i) x (y ∷ ys) = ap (◌∷◌ (f y)) (map-insert_at i x ys)

  pub map-remove_at : (i : ℕ) (xs : List A) → map f (remove_at i xs) ≡ remove_at i (map f xs)
  map-remove_at i [] = refl
  map-remove_at zero (x ∷ xs) = refl
  map-remove_at (suc i) (x ∷ xs) = ap (◌∷◌ (f x)) (map-remove_at i xs)

  pub get_elem?-map :
      (i : ℕ) (xs : List A) {x : A} → get_elem? xs i ≡ some x → get_elem? (map f xs) i ≡ some (f x)
  get_elem?-map i [] e = cc
  get_elem?-map zero (x ∷ xs) e = cc
  get_elem?-map (suc i) (x ∷ xs) e = get_elem?-map i xs e

-- A predicate on every element.
module _ {ℓ κ} {A : Type ℓ} (Q : A → Type κ) where
  abbrev pub All : List A → Type κ
  All [] = Unit
  All (first ∷ rest) = Q first × All rest

  pub All-append : (front back : List A) → All front → All back → All (front ++ back)
  All-append [] back here later = later
  All-append (x ∷ front) back here later = (here.0, All-append front back here.1 later)

pub All-of_append {ℓ κ} :
    {A : Type ℓ} (Q : A → Type κ) (front back : List A)
    → All Q (front ++ back)
    → All Q front × All Q back
All-of_append Q [] back h = (tt, h)
All-of_append Q (x ∷ front) back h =
    let (here, later) = All-of_append Q front back h.1 in ((h.0, here), later)

-- How many elements pass a test.
abbrev pub tally {ℓ} : {A : Type ℓ} → (A → Bool) → List A → ℕ
tally p [] = 0
tally p (x ∷ xs) = if p x then suc (tally p xs) else tally p xs

pub tally-cons {ℓ} :
    {A : Type ℓ} (p : A → Bool) (x : A) (xs : List A)
    → tally p (x ∷ xs) ≡ tally p (x ∷ []) + tally p xs
tally-cons p x xs = elim (Bool-cases (p x)) [
  | inl h ↦ rw h (omega arith)
  | inr h ↦ rw h (omega arith)
]

pub tally-append {ℓ} :
    {A : Type ℓ} (p : A → Bool) (xs ys : List A) → tally p (xs ++ ys) ≡ tally p xs + tally p ys
tally-append p [] ys = omega arith
tally-append p (x ∷ xs) ys = elim (Bool-cases (p x)) [
  | inl h ↦ rw h (omega (arith, tally-append p xs ys))
  | inr h ↦ rw h (tally-append p xs ys)
]
