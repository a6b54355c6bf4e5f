-- ===== src/Storage/Digits.antt =====
-- The texts of numbers and of values between quotes, as the statement of `saveItems` of
-- order_service/internal/ports/adapters/storage/postgres.go has them, can be told from what follows.
use mathlib.Core.List.{append_assoc}
use l0_wb_tech_school.Base.{
  ℕ, zero, suc, ◌+◌, ◌-◌, ◌*◌, ◌/◌, ◌%◌, ◌^◌, ◌≤◌, ◌<◌, ◌≡◌, ◌≢◌, refl, sym, ap, subst, ◌∙◌, arith,
  Bool-cases, inl, inr, [], ◌∷◌, ◌++◌, All, ltb,
}
use l0_wb_tech_school.Base.Int.{ℤ, pos, negsuc}
use l0_wb_tech_school.Base.Text.{Text}
use l0_wb_tech_school.Storage.Items.{digits, decimal, quoted}

-- A text of some characters ends at the first other one.
pub cut :
    (P : ℕ → Type 0) (s s' t t' : Text) (c c' : ℕ)
    → All P s
    → All P s'
    → (P c → ⊥)
    → (P c' → ⊥)
    → s ++ c ∷ t ≡ s' ++ c' ∷ t'
    → (s ≡ s') × (t ≡ t')
cut P [] [] t t' c c' h h' n n' e = let same : t ≡ t' = cc e in (refl, same)
cut P [] (x ∷ s') t t' c c' h h' n n' e =
    let first : x ≡ c = cc e in absurd (n (subst P first h'.0))
cut P (x ∷ s) [] t t' c c' h h' n n' e =
    let first : x ≡ c' = cc e in absurd (n' (subst P first h.0))
cut P (x ∷ s) (y ∷ s') t t' c c' h h' n n' e =
    let first : x ≡ y = cc e in
    let rest : s ++ c ∷ t ≡ s' ++ c' ∷ t' = cc e in
    let (same, later) = cut P s s' t t' c c' h.1 h'.1 n n' rest in
    (subst (λ z. x ∷ s ≡ z ∷ s') first (ap (λ r. x ∷ r) same), later)

-- No character is a quote.
abbrev pub IsUnquoted : Text → Type 0
IsUnquoted = All (λ c. c ≢ 0x27)

pub quoted-cut :
    (s s' t t' : Text)
    → IsUnquoted s
    → IsUnquoted s'
    → quoted s ++ t ≡ quoted s' ++ t'
    → (s ≡ s') × (t ≡ t')
unfolding quoted
quoted-cut s s' t t' h h' e =
    let inside : (s ++ 0x27 ∷ []) ++ t ≡ (s' ++ 0x27 ∷ []) ++ t' = cc e in
    cut (λ c. c ≢ 0x27) s s' t t' 0x27 0x27 h h' (λ n. n refl) (λ n. n refl)
      (sym (append_assoc s (0x27 ∷ []) t) ∙ inside ∙ append_assoc s' (0x27 ∷ []) t')

abbrev IsDigit : ℕ → Type 0
IsDigit c = (0x30 ≤ c) × (c ≤ 0x39)

digits-IsDigit : (fuel n : ℕ) (s : Text) → All IsDigit s → All IsDigit (digits fuel n s)
unfolding digits
digits-IsDigit zero n s h = h
digits-IsDigit (suc fuel) n s h = elim (Bool-cases (ltb n 10)) [
  | inl small ↦ rw small ((omega arith, ground arith), h)
  | inr big ↦
      rw big (digits-IsDigit fuel (n / 10) ((0x30 + n % 10) ∷ s) ((omega arith, omega arith), h))
]

-- The number that decimal digits stand for, behind the number read so far.
abbrev number : ℕ → Text → ℕ
number acc [] = acc
number acc (c ∷ s) = number (acc * 10 + (c - 0x30)) s

number-digits : (fuel n : ℕ) (s : Text) → n < 10 ^ fuel → number 0 (digits fuel n s) ≡ number n s
unfolding digits
number-digits zero n s h = ap (λ k. number k s) (omega arith)
number-digits (suc fuel) n s h = elim (Bool-cases (ltb n 10)) [
  | inl small ↦ rw small (ap (λ k. number k s) (omega arith))
  | inr big ↦
      let shorter : n / 10 < 10 ^ fuel = omega arith in
      rw big (
        number-digits fuel (n / 10) ((0x30 + n % 10) ∷ s) shorter
        ∙ ap (λ k. number k s) (omega arith))
]

-- No more than 20 digits, as every `int` of 64 bits.
abbrev pub IsShort : ℤ → Type 0
IsShort (pos n) = n < 10 ^ 20
IsShort (negsuc n) = suc n < 10 ^ 20

digits-inj : (m n : ℕ) → m < 10 ^ 20 → n < 10 ^ 20 → digits 20 m [] ≡ digits 20 n [] → m ≡ n
digits-inj m n h h' e = sym (number-digits 20 m [] h) ∙ ap (number 0) e ∙ number-digits 20 n [] h'

minus-ne : (n : ℕ) (s : Text) → digits 20 n [] ≢ 0x2d ∷ s
minus-ne n s e =
    let all : All IsDigit (0x2d ∷ s) = subst (All IsDigit) e (digits-IsDigit 20 n [] tt) in
    absurd (omega (arith, all.0.0))

decimal-inj : (x y : ℤ) → IsShort x → IsShort y → decimal x ≡ decimal y → x ≡ y
unfolding decimal
decimal-inj (pos m) (pos n) h h' e = ap pos (digits-inj m n h h' e)
decimal-inj (pos m) (negsuc n) h h' e = absurd (minus-ne m _ e)
decimal-inj (negsuc m) (pos n) h h' e = absurd (minus-ne n _ (sym e))
decimal-inj (negsuc m) (negsuc n) h h' e =
    let inside : digits 20 (suc m) [] ≡ digits 20 (suc n) [] = cc e in
    let same = digits-inj (suc m) (suc n) h h' inside in ap negsuc (omega (arith, same))

-- A character of a number: no comma and no parenthesis.
abbrev pub IsInside : ℕ → Type 0
IsInside c = (c ≢ 0x2c) × (c ≢ 0x29)

digit-IsInside : (s : Text) → All IsDigit s → All IsInside s
digit-IsInside [] h = tt
digit-IsInside (c ∷ s) h = (
  (λ e. absurd (omega (arith, h.0.0, e)), λ e. absurd (omega (arith, h.0.0, e))),
  digit-IsInside s h.1,
)

decimal-IsInside : (x : ℤ) → All IsInside (decimal x)
unfolding decimal
decimal-IsInside (pos n) = digit-IsInside _ (digits-IsDigit 20 n [] tt)
decimal-IsInside (negsuc n) = (
  (λ e. absurd (omega (arith, e)), λ e. absurd (omega (arith, e))),
  digit-IsInside _ (digits-IsDigit 20 (suc n) [] tt),
)

-- What ends a value of a row: a comma, or the parenthesis.
pub decimal-cut :
    (x y : ℤ) (c c' : ℕ) (t t' : Text)
    → IsShort x
    → IsShort y
    → (IsInside c → ⊥)
    → (IsInside c' → ⊥)
    → decimal x ++ c ∷ t ≡ decimal y ++ c' ∷ t'
    → (x ≡ y) × (t ≡ t')
decimal-cut x y c c' t t' h h' n n' e =
    let (same, later) =
      cut IsInside (decimal x) (decimal y) t t' c c' (decimal-IsInside x) (decimal-IsInside y) n n'
        e in
    (decimal-inj x y h h' same, later)
