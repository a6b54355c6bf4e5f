-- ===== src/Base/Tests.antt =====
-- Boolean tests, the conditional, and decidable equality of keys as an interface.
use Prim.Native.Nat.{ℕ, compare, Ordering}
use Prim.Native.String.{String}
use mathlib.Core.Path.{◌≡◌, refl, sym, ◌∙◌}
use mathlib.Core.Logic.{◌↔◌, ◌⊎◌, inl, inr}
use mathlib.Core.Bool.{Bool, true, false}
use mathlib.Core.Option.{Option, none, some}
use native.Mathlib.Omega.{arith}
use text.Mathlib.Text.{◌==◌ as str_eq}
use text.Mathlib.TextEquality.{eq_iff}

abbrev pub ltb : ℕ → ℕ → Bool
ltb a b = elim (compare a b) [ Ordering.lt ↦ true | _ ↦ false ]

abbrev pub leb : ℕ → ℕ → Bool
leb a b = elim (compare a b) [ Ordering.gt ↦ false | _ ↦ true ]

abbrev pub nat_beq : ℕ → ℕ → Bool
nat_beq a b = elim (compare a b) [ Ordering.eq ↦ true | _ ↦ false ]

pub nat_beq_iff : (a b : ℕ) → (nat_beq a b ≡ true) ↔ (a ≡ b)
nat_beq_iff a b = ground arith

infix 1 if◌then◌else◌
abbrev pub if◌then◌else◌ {ℓ} : {A : Type ℓ} → Bool → A → A → A
if true then x else y = x
if false then x else y = y

-- `comparable`: a type whose values `==` tells apart.
pub record Eq {ℓ} (K : Type ℓ) : Type ℓ where
  pub equal : K → K → Bool
  pub equal_iff : (x y : K) → (equal x y ≡ true) ↔ (x ≡ y)

module _ {ℓ} {K : Type ℓ} where
  infix 50 ◌==◌
  abbrev pub ◌==◌ : ⦃eq : Eq K⦄ → K → K → Bool
  ◌==◌ ⦃eq⦄ = eq.equal

instance abbrev pub nat_eq : Eq ℕ
nat_eq = record { equal = nat_beq; equal_iff = nat_beq_iff }

instance abbrev pub string_eq : Eq String
string_eq = record { equal = str_eq; equal_iff = eq_iff }

-- To split on a computed value and keep the equation.
pub Bool-cases : (b : Bool) → (b ≡ true) ⊎ (b ≡ false)
Bool-cases true = inl refl
Bool-cases false = inr refl

pub Option-cases {ℓ} : {A : Type ℓ} (o : Option A) → (o ≡ none) ⊎ ((a : A) × (o ≡ some a))
Option-cases none = inl refl
Option-cases (some a) = inr (a, refl)

module _ {ℓ} {A : Type ℓ} ⦃eq : Eq A⦄ where
  pub ==_refl : (k : A) → (k == k) ≡ true
  ==_refl k = (eq.equal_iff k k).1 refl

  pub eq_of_== : (j k : A) → (j == k) ≡ true → j ≡ k
  eq_of_== j k h = (eq.equal_iff j k).0 h

  pub ==_sym : (j k : A) → (j == k) ≡ (k == j)
  ==_sym j k = elim (Bool-cases (j == k)) [
    | inl h ↦ h ∙ sym ((eq.equal_iff k j).1 (sym (eq_of_== j k h)))
    | inr h ↦ elim (Bool-cases (k == j)) [
      | inl g ↦ absurd (cc (sym h ∙ (eq.equal_iff j k).1 (sym (eq_of_== k j g))))
      | inr g ↦ h ∙ sym g
    ]
  ]
