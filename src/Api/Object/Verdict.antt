-- ===== src/Api/Object/Verdict.antt =====
-- The verdict of `Decode` on the fields that an object has.

use l0_wb_tech_school.Base.{
  ◌≡◌, refl, ap, sym, subst, ◌∙◌, List, [], ◌∷◌, Option, none, some, Outcome, ok, err, panic,
  and_then,
}
use l0_wb_tech_school.Base.Text.{Text, text_eq}
use l0_wb_tech_school.Api.Jx.{Jx}
use l0_wb_tech_school.Api.Required.{Byte, no_bits, missed_fields}
use l0_wb_tech_school.Api.Object.{
  DecodeError, Table, wrap, stop_at, in_type, verdict, check_required, each_field, obj_bytes,
  decode_object,
}
use l0_wb_tech_school.Api.Object.Reported.{missed_fields-missing}
use l0_wb_tech_school.Api.Object.Leaves.{Leaves, after_all, each_field-Leaves}
use l0_wb_tech_school.Api.Object.Missing.{missing, IsTable}

module _ {V E S : Type 0} where
  module _ (table : Table V E S) (lawful : IsTable table) (fs : List (Text × V)) where
    -- Where it returns without error, no required field is missing.
    HasAll : Outcome (DecodeError E) S (Unit {0}) → Type 0
    HasAll (ok a t) = missing table.slots fs ≡ []
    HasAll (err e t) = Unit
    HasAll panic = Unit

    verdict-HasAll :
        (names : List Text) (s : S) → names ≡ missing table.slots fs → HasAll (verdict names s)
    unfolding HasAll
    verdict-HasAll [] s e = sym e
    verdict-HasAll (name ∷ names) s e = tt

    check_required-HasAll :
        (out : Outcome (DecodeError E) (S × List Byte) (Unit {0})) (fault : Option E)
        → Leaves (after_all table.slots fs (no_bits table.masks)) out
        → HasAll (
            check_required table (wrap (in_type table.of_type) (and_then out (λ _. stop_at fault))))
    unfolding HasAll Leaves
    check_required-HasAll (ok a (s, seen)) none h =
        verdict-HasAll _ s
          (ap (missed_fields table.names 0 table.masks) h ∙ missed_fields-missing table lawful fs)
    check_required-HasAll (ok a (s, seen)) (some e) h = tt
    check_required-HasAll (err e t) fault h = tt
    check_required-HasAll panic fault h = tt

  module _ {Body : Type 0} (jx : Jx V E Body) (table : Table V E S) (lawful : IsTable table) where
    -- An object of which every field is read without error and that is not broken off decodes, by a
    -- lawful table, without error if it has every required field, and else with the names of exactly
    -- the required fields that it lacks, in the order of the table; either way the receiver is what
    -- the fields made of it.
    pub decode_object-missing :
        (v : V) (fs : List (Text × V)) (s t : S) (seen : List Byte)
        → jx.fields v ≡ (fs, none)
        → each_field jx table.slots fs (s, no_bits table.masks) ≡ ok tt (t, seen)
        → decode_object jx table v s ≡ verdict (missing table.slots fs) t
    unfolding decode_object obj_bytes Leaves
    decode_object-missing v fs s t seen whole read =
        let bits : seen ≡ after_all table.slots fs (no_bits table.masks) =
          subst (Leaves (after_all table.slots fs (no_bits table.masks))) read
            (each_field-Leaves jx table.slots fs s (no_bits table.masks)) in
        rw whole (rw read (rw bits (rw (missed_fields-missing table lawful fs) refl)))

    -- What decodes without error, by a lawful table, has every required field among its keys.
    pub missing_of_decode_object :
        (v : V) (s t : S)
        → decode_object jx table v s ≡ ok tt t
        → missing table.slots (jx.fields v).0 ≡ []
    unfolding decode_object obj_bytes HasAll
    missing_of_decode_object v s t decoded = subst (HasAll table lawful (jx.fields v).0) decoded (
        check_required-HasAll table lawful (jx.fields v).0
          (each_field jx table.slots (jx.fields v).0 (s, no_bits table.masks)) (jx.fields v).1
          (each_field-Leaves jx table.slots (jx.fields v).0 s (no_bits table.masks)))

    -- The way in which an encoder's object is read back.
    pub decode_object-object :
        (fs : List (Text × V)) (s t : S)
        → jx.fields (jx.object fs) ≡ (fs, none)
        → missing table.slots fs ≡ []
        → each_field jx table.slots fs (s, no_bits table.masks)
          ≡ ok tt (t, after_all table.slots fs (no_bits table.masks))
        → decode_object jx table (jx.object fs) s ≡ ok tt t
    decode_object-object fs s t whole full read =
        decode_object-missing (jx.object fs) fs s t (after_all table.slots fs (no_bits table.masks))
          whole read
        ∙ ap (λ (names : List Text). verdict names t) full
