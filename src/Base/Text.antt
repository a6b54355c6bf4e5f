-- ===== src/Base/Text.antt =====
-- Go strings as lists of code points, and what the source uses of package strings.
use l0_wb_tech_school.Base.{
  ℕ, ◌≡◌, refl, ap, subst, ◌↔◌, ◌∙◌, sym, Bool, false, true, ◌&&◌, ◌||◌, List, [], ◌∷◌, arith, Eq,
  ◌==◌, nat_eq, nat_beq, leb, if◌then◌else◌, inl, inr, Bool-cases, All, All-append,
}
use Prim.Native.Char.{code}
use Prim.Native.String.{String}
use mathlib.Core.List.{reverse, reverse-append, reverse-reverse}

abbrev pub Text : Type 0
Text = List ℕ

-- A literal of the source.
abbrev pub lit : String → Text
lit String.[] = []
lit (String.◌∷◌ c s) = code c ∷ lit s

abbrev pub text_beq : Text → Text → Bool
text_beq [] [] = true
text_beq [] (d ∷ t) = false
text_beq (c ∷ s) [] = false
text_beq (c ∷ s) (d ∷ t) = nat_beq c d && text_beq s t

text_beq_refl : (s : Text) → text_beq s s ≡ true
text_beq_refl [] = refl
text_beq_refl (c ∷ s) = ground (arith, text_beq_refl s)

eq_of_text_beq : (s t : Text) → text_beq s t ≡ true → s ≡ t
eq_of_text_beq [] [] h = refl
eq_of_text_beq [] (d ∷ t) h = cc
eq_of_text_beq (c ∷ s) [] h = cc
eq_of_text_beq (c ∷ s) (d ∷ t) h = ground (arith, eq_of_text_beq s t)

pub text_beq_iff : (s t : Text) → (text_beq s t ≡ true) ↔ (s ≡ t)
text_beq_iff s t = (eq_of_text_beq s t, λ e. subst (λ u. text_beq s u ≡ true) e (text_beq_refl s))

instance abbrev pub text_eq : Eq Text
text_eq = record { equal = text_beq; equal_iff = text_beq_iff }

-- `unicode.IsSpace`
unfoldable pub is_space : ℕ → Bool
is_space c =
    (leb 0x09 c && leb c 0x0d)
    || c == 0x20
    || c == 0x85
    || c == 0xa0
    || c == 0x1680
    || (leb 0x2000 c && leb c 0x200a)
    || c == 0x2028
    || c == 0x2029
    || c == 0x202f
    || c == 0x205f
    || c == 0x3000

drop_spaces : Text → Text
drop_spaces [] = []
drop_spaces (c ∷ s) = if is_space c then drop_spaces s else c ∷ s

-- `strings.TrimSpace`
unfoldable pub trim_space : Text → Text
unfolding drop_spaces is_space
trim_space s = reverse (drop_spaces (reverse (drop_spaces s)))

-- `strings.TrimSpace(s) == ""`
unfoldable pub is_blank : Text → Bool
unfolding trim_space
is_blank s = text_beq (trim_space s) []

abbrev pub AllSpace : Text → Type 0
AllSpace = All (λ c. is_space c ≡ true)

drop_spaces-eq-nil : (s : Text) → AllSpace s → drop_spaces s ≡ []
unfolding drop_spaces
drop_spaces-eq-nil [] h = refl
drop_spaces-eq-nil (c ∷ s) h = rw (h.0) (drop_spaces-eq-nil s h.1)

AllSpace-of_drop_spaces : (s : Text) → AllSpace (drop_spaces s) → AllSpace s
unfolding drop_spaces
AllSpace-of_drop_spaces [] h = tt
AllSpace-of_drop_spaces (c ∷ s) h = elim (Bool-cases (is_space c)) [
  | inl e ↦ (e, AllSpace-of_drop_spaces s (rw e at h))
  | inr e ↦ rw e at h
]

AllSpace-reverse : (s : Text) → AllSpace s → AllSpace (reverse s)
AllSpace-reverse [] h = tt
AllSpace-reverse (c ∷ s) h =
    rw (reverse-append (c ∷ []) s)
      (All-append _ (reverse s) (c ∷ []) (AllSpace-reverse s h.1) (h.0, tt))

eq_nil_of_reverse : (s : Text) → reverse s ≡ [] → s ≡ []
eq_nil_of_reverse s e = sym (reverse-reverse s) ∙ ap reverse e

AllSpace-of_trim_space : (s : Text) → trim_space s ≡ [] → AllSpace s
unfolding trim_space
AllSpace-of_trim_space s e =
    let inner : AllSpace (drop_spaces (reverse (drop_spaces s))) =
      subst AllSpace (sym (eq_nil_of_reverse _ e)) tt in
    let turned = AllSpace-reverse _ (AllSpace-of_drop_spaces (reverse (drop_spaces s)) inner) in
    AllSpace-of_drop_spaces s (subst AllSpace (reverse-reverse (drop_spaces s)) turned)

trim_space_of_AllSpace : (s : Text) → AllSpace s → trim_space s ≡ []
unfolding trim_space
trim_space_of_AllSpace s h = rw (drop_spaces-eq-nil s h)

-- `strings.TrimSpace(s) == ""` holds exactly if the text has nothing but white space.
pub is_blank_iff : (s : Text) → (is_blank s ≡ true) ↔ AllSpace s
unfolding is_blank
is_blank_iff s = (
  λ h. AllSpace-of_trim_space s (eq_of_text_beq (trim_space s) [] h),
  λ h. (text_beq_iff (trim_space s) []).1 (trim_space_of_AllSpace s h),
)
