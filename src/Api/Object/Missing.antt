-- ===== src/Api/Object/Missing.antt =====
-- What a decoded object must have: the fields that are required.
use mathlib.Core.List.{append_assoc}
use l0_wb_tech_school.Base.{
  ℕ, suc, ◌≡◌, refl, ap, sym, subst, ◌∙◌, arith, Bool, true, false, not, ◌&&◌, ◌||◌, List, [], ◌∷◌,
  ◌++◌, length, length-append, if◌then◌else◌, ◌==◌, eq_of_==, ==_refl, Bool-cases, inl, inr,
}
use l0_wb_tech_school.Base.Text.{Text, text_eq}
use l0_wb_tech_school.Api.Required.{Byte, set_bit, mark}
use l0_wb_tech_school.Api.Required.Marks.{
  flat, zeros, SameShape, SameShape-mark, flat-mark, set_bit_past,
}
use l0_wb_tech_school.Api.Object.{Slot, Table}

abbrev pub has_key : {V : Type 0} → Text → List (Text × V) → Bool
has_key name [] = false
has_key name ((k, v) ∷ fs) = name == k || has_key name fs

-- The keys that were met, with `k`.
abbrev pub meet : Text → (Text → Bool) → Text → Bool
meet k met name = name == k || met name

and_parts : (a b : Bool) → (a && b) ≡ true → (a ≡ true) × (b ≡ true)
and_parts true b h = (refl, h)
and_parts false b h = absurd (cc h)

module _ {V E S : Type 0} where
  -- The names of the required fields that no key of the object is.
  abbrev pub missing : List (Slot V E S) → List (Text × V) → List Text
  missing [] fs = []
  missing (slot ∷ slots) fs =
      if slot.required && not (has_key slot.name fs)
      then slot.name ∷ missing slots fs
      else missing slots fs

  abbrev pub names_of : List (Slot V E S) → List Text
  names_of [] = []
  names_of (slot ∷ slots) = slot.name ∷ names_of slots

  abbrev pub required_of : List (Slot V E S) → List Bool
  required_of [] = []
  required_of (slot ∷ slots) = slot.required ∷ required_of slots

  abbrev absent : Text → List (Slot V E S) → Bool
  absent name [] = true
  absent name (slot ∷ slots) = not (slot.name == name) && absent name slots

  abbrev pub distinct : List (Slot V E S) → Bool
  distinct [] = true
  distinct (slot ∷ slots) = absent slot.name slots && distinct slots

  -- The table of names is that of the cases, the masks have the bits of the required fields, and no
  -- two cases are for one key.
  pub record IsTable (table : Table V E S) : Type 0 where
    pub pad : ℕ
    pub named : table.names ≡ names_of table.slots
    pub masked : flat table.masks ≡ required_of table.slots ++ zeros pad
    pub shaped : SameShape table.masks table.masks
    pub told_apart : distinct table.slots ≡ true

  -- The bits that are set where the keys that were met pass `met`.
  abbrev pub hits : (Text → Bool) → List (Slot V E S) → List Bool
  hits met [] = []
  hits met (slot ∷ slots) = (slot.required && met slot.name) ∷ hits met slots

  abbrev pub after : List (Slot V E S) → ℕ → Text → List Byte → List Byte
  after [] n k seen = seen
  after (slot ∷ slots) n k seen =
      if slot.name == k
      then if slot.required then mark n seen else seen
      else after slots (suc n) k seen

  hits-meet-absent :
      (slots : List (Slot V E S)) (k : Text) (met : Text → Bool)
      → absent k slots ≡ true
      → hits (meet k met) slots ≡ hits met slots
  hits-meet-absent [] k met h = refl
  hits-meet-absent (slot ∷ slots) k met h = elim (Bool-cases (slot.name == k)) [
    | inl same ↦ absurd (cc (rw same at h))
    | inr other ↦
        rw other
          (ap (◌∷◌ (slot.required && met slot.name)) (hits-meet-absent slots k met (rw other at h)))
  ]

  pub SameShape-after :
      (slots : List (Slot V E S)) (n : ℕ) (k : Text) (masks seen : List Byte)
      → SameShape masks seen
      → SameShape masks (after slots n k seen)
  SameShape-after [] n k masks seen h = h
  SameShape-after (slot ∷ slots) n k masks seen h = elim (Bool-cases (slot.name == k)) [
    | inl same ↦ rw same (elim (Bool-cases slot.required) [
      | inl e ↦ rw e (SameShape-mark n masks seen h)
      | inr e ↦ rw e h
    ])
    | inr other ↦ rw other (SameShape-after slots (suc n) k masks seen h)
  ]

  -- A case for the key `k` that is the first of the slots left.
  flat-mark_here :
      (slot : Slot V E S) (slots : List (Slot V E S)) (n : ℕ) (met : Text → Bool)
      (front pad : List Bool) (masks seen : List Byte)
      → length front ≡ n
      → SameShape masks seen
      → absent slot.name slots ≡ true
      → flat seen ≡ front ++ (hits met (slot ∷ slots) ++ pad)
      → flat (if slot.required then mark n seen else seen)
        ≡ front ++ (hits (meet slot.name met) (slot ∷ slots) ++ pad)
  flat-mark_here slot slots n met front pad masks seen len shape alone e =
      rw (hits-meet-absent slots slot.name met alone) (
        rw (==_refl slot.name) (elim (Bool-cases slot.required) [
          | inl needed ↦ rw needed (
              flat-mark n masks seen shape
              ∙ ap (set_bit n) e
              ∙ ap (λ (m : ℕ). set_bit m (front ++ (hits met (slot ∷ slots) ++ pad)))
                  (omega (arith, len))
              ∙ set_bit_past 0 front (hits met (slot ∷ slots) ++ pad))
          | inr free ↦ rw free (rw free at e)
        ]))

  pub flat-after :
      (slots : List (Slot V E S)) (n : ℕ) (k : Text) (met : Text → Bool) (front pad : List Bool)
      (masks seen : List Byte)
      → length front ≡ n
      → SameShape masks seen
      → distinct slots ≡ true
      → flat seen ≡ front ++ (hits met slots ++ pad)
      → flat (after slots n k seen) ≡ front ++ (hits (meet k met) slots ++ pad)
  flat-after [] n k met front pad masks seen len shape apart e = e
  flat-after (slot ∷ slots) n k met front pad masks seen len shape apart e =
      let (alone, rest_apart) = and_parts (absent slot.name slots) (distinct slots) apart in
      elim (Bool-cases (slot.name == k)) [
        | inl same ↦
            ap flat (stops same)
            ∙ subst
                (λ (name : Text).
                  flat (if slot.required then mark n seen else seen)
                  ≡ front ++ (hits (meet name met) (slot ∷ slots) ++ pad))
                (eq_of_== slot.name k same)
                (flat-mark_here slot slots n met front pad masks seen len shape alone e)
        | inr other ↦ rw other (
            flat-after slots (suc n) k met (front ++ (slot.required && met slot.name) ∷ []) pad
              masks seen
              (omega (arith, len, length-append front ((slot.required && met slot.name) ∷ [])))
              shape rest_apart
              (e
                ∙ sym (
                    append_assoc front ((slot.required && met slot.name) ∷ [])
                      (hits met slots ++ pad)))
            ∙ append_assoc front ((slot.required && met slot.name) ∷ [])
                (hits (meet k met) slots ++ pad))
      ]
    where
      stops :
          (slot.name == k) ≡ true
          → after (slot ∷ slots) n k seen ≡ (if slot.required then mark n seen else seen)
      stops same = rw same
