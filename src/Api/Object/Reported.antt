-- ===== src/Api/Object/Reported.antt =====
-- What the check for required fields reports after the fields of an object.
use mathlib.Core.List.{append_assoc}
use mathlib.Core.Path.{fun_ext}
use l0_wb_tech_school.Base.{
  ℕ, suc, ◌≡◌, refl, ap, subst, ◌∙◌, arith, Bool, true, false, ◌||◌, List, [], ◌∷◌, ◌++◌, some,
  get_elem?, length, length-append, ◌==◌, Bool-cases, inl, inr,
}
use l0_wb_tech_school.Base.Text.{Text, text_eq}
use l0_wb_tech_school.Api.Required.{Byte, no_bits, unseen, field_name, missed_fields}
use l0_wb_tech_school.Api.Required.Marks.{
  flat, zeros, SameShape, missed_fields-eq-set_names, SameShape-no_bits, flat-no_bits,
}
use l0_wb_tech_school.Api.Required.Missed.{set_names}
use l0_wb_tech_school.Api.Object.{Slot, Table}
use l0_wb_tech_school.Api.Object.Leaves.{after_all}
use l0_wb_tech_school.Api.Object.Missing.{
  has_key, missing, names_of, required_of, distinct, IsTable, hits, meet, after, SameShape-after,
  flat-after,
}

abbrev met_by : {V : Type 0} → List (Text × V) → (Text → Bool) → Text → Bool
met_by [] met = met
met_by ((k, v) ∷ fs) met = met_by fs (meet k met)

met_by-has_key :
    {V : Type 0} (fs : List (Text × V)) (met : Text → Bool) (name : Text)
    → met_by fs met name ≡ (has_key name fs || met name)
met_by-has_key [] met name = refl
met_by-has_key ((k, v) ∷ fs) met name =
    met_by-has_key fs (meet k met) name ∙ swap_or (has_key name fs) (name == k) (met name)
  where
    swap_or : (a b c : Bool) → (a || (b || c)) ≡ ((b || a) || c)
    swap_or true true c = refl
    swap_or true false c = refl
    swap_or false true c = refl
    swap_or false false c = refl

get_elem?-past :
    (front : List Text) (x : Text) (r : List Text)
    → get_elem? (front ++ x ∷ r) (length front) ≡ some x
get_elem?-past [] x r = refl
get_elem?-past (y ∷ front) x r = get_elem?-past front x r

field_name-past :
    (front : List Text) (x : Text) (r : List Text) → field_name (front ++ x ∷ r) (length front) ≡ x
unfolding field_name
field_name-past front x r = rw (field_name, get_elem?-past front x r)

set_names-zeros :
    (names : List Text) (n k : ℕ) (rest : Byte) → set_names names n (unseen (zeros k) rest) ≡ []
unfolding unseen
set_names-zeros names n ℕ.zero rest = refl
set_names-zeros names n (suc k) [] = set_names-zeros names (suc n) k []
set_names-zeros names n (suc k) (b ∷ rest) = set_names-zeros names (suc n) k rest

module _ {V E S : Type 0} where
  -- What the check reports for the slots behind `front`.
  set_names-missing :
      (slots : List (Slot V E S)) (front : List Text) (fs : List (Text × V)) (pad : ℕ)
      (rest : List Bool)
      → set_names (front ++ names_of slots) (length front) (
          unseen
            (required_of slots ++ zeros pad)
            (hits (λ name. has_key name fs || false) slots ++ rest))
        ≡ missing slots fs
  unfolding unseen
  set_names-missing [] front fs pad rest = set_names-zeros (front ++ []) (length front) pad rest
  set_names-missing (slot ∷ slots) front fs pad rest =
      let further =
        subst
          (λ (names : List Text).
            set_names names (suc (length front)) (
              unseen (required_of slots ++ zeros pad)
                (hits (λ name. has_key name fs || false) slots ++ rest))
            ≡ missing slots fs)
          (append_assoc front (slot.name ∷ []) (names_of slots))
          (subst
            (λ (n : ℕ).
              set_names ((front ++ slot.name ∷ []) ++ names_of slots) n (
                unseen (required_of slots ++ zeros pad)
                  (hits (λ name. has_key name fs || false) slots ++ rest))
              ≡ missing slots fs)
            (length-append front (slot.name ∷ []) ∙ omega arith)
            (set_names-missing slots (front ++ slot.name ∷ []) fs pad rest)) in
      elim (Bool-cases slot.required) [
        | inl needed ↦ elim (Bool-cases (has_key slot.name fs)) [
          | inl there ↦ rw needed (rw there further)
          | inr gone ↦ rw needed (
              rw gone (
                rw (field_name-past front slot.name (names_of slots)) (ap (◌∷◌ slot.name) further)))
        ]
        | inr free ↦ rw free further
      ]

  SameShape-after_all :
      (slots : List (Slot V E S)) (fs : List (Text × V)) (masks seen : List Byte)
      → SameShape masks seen
      → SameShape masks (after_all slots fs seen)
  SameShape-after_all slots [] masks seen h = h
  SameShape-after_all slots ((k, v) ∷ fs) masks seen h =
      SameShape-after_all slots fs masks (after slots 0 k seen)
        (SameShape-after slots 0 k masks seen h)

  flat-after_all :
      (slots : List (Slot V E S)) (fs : List (Text × V)) (met : Text → Bool) (pad : List Bool)
      (masks seen : List Byte)
      → SameShape masks seen
      → distinct slots ≡ true
      → flat seen ≡ hits met slots ++ pad
      → flat (after_all slots fs seen) ≡ hits (met_by fs met) slots ++ pad
  flat-after_all slots [] met pad masks seen shape apart e = e
  flat-after_all slots ((k, v) ∷ fs) met pad masks seen shape apart e =
      flat-after_all slots fs (meet k met) pad masks (after slots 0 k seen)
        (SameShape-after slots 0 k masks seen shape) apart
        (flat-after slots 0 k met [] pad masks seen refl shape apart e)

  met_by-hits :
      (slots : List (Slot V E S)) (fs : List (Text × V))
      → hits (met_by fs (λ name. false)) slots ≡ hits (λ name. has_key name fs || false) slots
  met_by-hits slots fs =
      ap (λ (met : Text → Bool). hits met slots) (fun_ext (met_by-has_key fs (λ name. false)))

  no_hits :
      (slots : List (Slot V E S)) (pad : ℕ)
      → zeros (length (required_of slots ++ zeros pad)) ≡ hits (λ name. false) slots ++ zeros pad
  no_hits [] pad = ap zeros (length-zeros pad)
    where
      length-zeros : (n : ℕ) → length (zeros n) ≡ n
      length-zeros ℕ.zero = refl
      length-zeros (suc n) = ap suc (length-zeros n)
  no_hits (slot ∷ slots) pad = elim (Bool-cases slot.required) [
    | inl e ↦ rw e (ap (◌∷◌ false) (no_hits slots pad))
    | inr e ↦ rw e (ap (◌∷◌ false) (no_hits slots pad))
  ]

  module _ (table : Table V E S) (lawful : IsTable table) (fs : List (Text × V)) where
    -- The bits after all fields.
    all_bits :
        flat (after_all table.slots fs (no_bits table.masks))
        ≡ hits (λ name. has_key name fs || false) table.slots ++ zeros lawful.pad
    all_bits =
        flat-after_all table.slots fs (λ name. false) (zeros lawful.pad) table.masks
          (no_bits table.masks) (SameShape-no_bits table.masks table.masks lawful.shaped)
          lawful.told_apart
          (flat-no_bits table.masks table.masks lawful.shaped
            ∙ ap (λ (bits : List Bool). zeros (length bits)) lawful.masked
            ∙ no_hits table.slots lawful.pad)
        ∙ ap (λ (bits : List Bool). bits ++ zeros lawful.pad) (met_by-hits table.slots fs)

    pub missed_fields-missing :
        missed_fields table.names 0 table.masks (after_all table.slots fs (no_bits table.masks))
        ≡ missing table.slots fs
    missed_fields-missing =
        missed_fields-eq-set_names table.names 0 table.masks
          (after_all table.slots fs (no_bits table.masks))
          (SameShape-after_all table.slots fs table.masks (no_bits table.masks)
            (SameShape-no_bits table.masks table.masks lawful.shaped))
        ∙ rw (lawful.masked) (
            rw all_bits (
              rw (lawful.named)
                (set_names-missing table.slots [] fs lawful.pad (zeros lawful.pad))))
