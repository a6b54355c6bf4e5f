-- ===== src/Validators/Single.antt =====
-- The single tests of the checks of order_service/internal/validators/validate_order.go, and a list of
-- them.
use l0_wb_tech_school.Base.{
  zero, suc, ◌≡◌, ◌≢◌, refl, ◌↔◌, Bool, false, true, not, ◌||◌, none, List, [], ◌∷◌, arith, All,
  inl, inr, Bool-cases,
}
use l0_wb_tech_school.Base.Int.{ℤ, pos, negsuc, ltb_ℤ, leb_ℤ, eq_ℤ, ◌≤ℤ◌}
use l0_wb_tech_school.Base.Text.{Text, is_blank, text_beq, text_beq_iff, is_blank_iff}
use l0_wb_tech_school.Validators.{FieldError, first_error}
use l0_wb_tech_school.Validators.Rules.{NotBlank}

-- Every test of a list of checks passes.
abbrev pub Passes : List (Bool × FieldError) → Type 0
Passes = All (λ c. c.0 ≡ false)

pub first_error-eq-none :
    (checks : List (Bool × FieldError)) → (first_error checks ≡ none) ↔ Passes checks
unfolding first_error
first_error-eq-none [] = (λ h. tt, λ h. refl)
first_error-eq-none ((failed, e) ∷ checks) = elim (Bool-cases failed) [
  | inl t ↦ (λ h. cc (rw t at h), λ h. ground arith)
  | inr f ↦ (
    λ h. (f, (first_error-eq-none checks).0 (rw f at h)),
    λ h. rw f ((first_error-eq-none checks).1 h.1),
  )
]

pub not_blank : (s : Text) → (is_blank s ≡ false) ↔ NotBlank s
not_blank s = (
  λ h all. let t : is_blank s ≡ true = (is_blank_iff s).1 all in cc,
  λ n. elim (Bool-cases (is_blank s)) [ inl t ↦ absurd (n ((is_blank_iff s).0 t)) | inr f ↦ f ],
)

pub not_nil : (s : Text) → (text_beq s [] ≡ false) ↔ (s ≢ [])
not_nil s = (
  λ h e. let t : text_beq s [] ≡ true = (text_beq_iff s []).1 e in cc,
  λ n. elim (Bool-cases (text_beq s [])) [
    | inl t ↦ absurd (n ((text_beq_iff s []).0 t))
    | inr f ↦ f
  ],
)

pub not_below : (a b : ℤ) → (ltb_ℤ a b ≡ false) ↔ (b ≤ℤ a)
not_below (pos a) (pos b) = (λ h. ground arith, λ h. ground arith)
not_below (pos a) (negsuc b) = (λ h. ground arith, λ h. ground arith)
not_below (negsuc a) (pos b) = (λ h. ground arith, λ h. ground arith)
not_below (negsuc a) (negsuc b) = (λ h. ground arith, λ h. ground arith)

pub positive : (a : ℤ) → (leb_ℤ a (pos 0) ≡ false) ↔ (pos 1 ≤ℤ a)
positive (pos a) = (λ h. ground arith, λ h. ground arith)
positive (negsuc a) = (λ h. ground arith, λ h. ground arith)

pub not_zero : (a : ℤ) → (eq_ℤ a (pos 0) ≡ false) ↔ (a ≢ pos 0)
not_zero (pos zero) = (λ h. cc, λ h. absurd (h refl))
not_zero (pos (suc a)) = (λ h e. cc, λ h. ground arith)
not_zero (negsuc a) = (λ h e. cc, λ h. refl)

-- One test's result before those that follow.
infixr 30 ◌&◌
pub ◌&◌ {ℓ κ} : {A : Type ℓ} {B : Type κ} → A → B → A × B
p & q = (p, q)

pub accepted : (b : Bool) → (not b ≡ false) ↔ (b ≡ true)
accepted true = (λ h. refl, λ h. refl)
accepted false = (λ h. cc, λ h. cc)

neither : (a b : Bool) → ((a || b) ≡ false) ↔ ((a ≡ false) × (b ≡ false))
neither true b = (λ h. cc, λ h. h.0)
neither false b = (λ h. (refl, h), λ h. h.1)

pub in_range :
    (x : ℤ) → ((ltb_ℤ x (pos 0) || ltb_ℤ (pos 100) x) ≡ false) ↔ ((pos 0 ≤ℤ x) × (x ≤ℤ pos 100))
in_range x = (
  λ h.
      let both = (neither _ _).0 h in
      ((not_below x (pos 0)).0 both.0, (not_below (pos 100) x).0 both.1),
  λ h. (neither _ _).1 ((not_below x (pos 0)).1 h.0, (not_below (pos 100) x).1 h.1),
)
