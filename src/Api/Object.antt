-- ===== src/Api/Object.antt =====
-- How the `Decode` functions of order_service/internal/api/oas_json_gen.go read an object: the call
-- back of `ObjBytes` with its switch over the key, and the check for required fields. A receiver is
-- a pointer that is not nil. The parts that differ by type are a table, of which there is one for
-- each type in Codec.
pub mod Leaves
pub mod Missing
pub mod Reported
pub mod Verdict
use l0_wb_tech_school.Base.{
  ℕ, suc, Bool, List, [], ◌∷◌, Option, none, some, Outcome, ok, err, panic, Cmd, and_then,
  if◌then◌else◌, ◌==◌,
}
use l0_wb_tech_school.Base.Text.{Text, text_eq}
use l0_wb_tech_school.Api.Jx.{Jx}
use l0_wb_tech_school.Api.Required.{Byte, no_bits, mark, missed_fields}

-- `errors.Wrap` with the field's or the type's name, and `validate.Error` with `ErrFieldRequired`.
pub data DecodeError (E : Type 0) : Type 0 where
  read_error : E → DecodeError E
  in_field in_type : Text → DecodeError E → DecodeError E
  missing_fields : List Text → DecodeError E

-- A case of the switch: `required` says that it sets a bit of `requiredBitSet`.
pub record Slot (V E S : Type 0) : Type 0 where
  pub name : Text
  pub required : Bool
  pub read : V → Cmd (DecodeError E) S (Unit {0})

pub record Table (V E S : Type 0) : Type 0 where
  pub of_type : Text
  -- `jsonFieldsNameOf…`
  pub names : List Text
  pub masks : List Byte
  pub slots : List (Slot V E S)

abbrev pub wrap :
    {E S A : Type 0}
    → (DecodeError E → DecodeError E)
    → Outcome (DecodeError E) S A
    → Outcome (DecodeError E) S A
wrap f (ok a s) = ok a s
wrap f (err e s) = err (f e) s
wrap f panic = panic

module _ {E S : Type 0} where
  -- The return of the error of a read, if there is one.
  abbrev pub stop_at : Option E → Cmd (DecodeError E) S (Unit {0})
  stop_at none s = ok tt s
  stop_at (some e) s = err (read_error e) s

  -- `v, err := d.Str()` and the like, the assignment to a field, and the return of the error.
  abbrev pub assign :
      {V A : Type 0} → (V → A × Option E) → (A → S → S) → V → Cmd (DecodeError E) S (Unit {0})
  assign read store v s = stop_at (read v).1 (store (read v).0 s)

  abbrev pub beside :
      List Byte
      → Outcome (DecodeError E) S (Unit {0})
      → Outcome (DecodeError E) (S × List Byte) (Unit {0})
  beside seen (ok a s) = ok a (s, seen)
  beside seen (err e s) = err e (s, seen)
  beside seen panic = panic

  abbrev pub verdict : List Text → Cmd (DecodeError E) S (Unit {0})
  verdict [] s = ok tt s
  verdict (name ∷ names) s = err (missing_fields (name ∷ names)) s

module _ {V E S : Type 0} where
  -- The case of the `n`-th field.
  unfoldable pub run_slot : Slot V E S → ℕ → V → Cmd (DecodeError E) (S × List Byte) (Unit {0})
  run_slot slot n v (s, seen) =
      beside (if slot.required then mark n seen else seen)
        (wrap (in_field slot.name) (slot.read v s))

  -- "Validate required fields."
  abbrev pub check_required :
      Table V E S
      → Outcome (DecodeError E) (S × List Byte) (Unit {0})
      → Outcome (DecodeError E) S (Unit {0})
  check_required table (ok a (s, seen)) = verdict (missed_fields table.names 0 table.masks seen) s
  check_required table (err e (s, seen)) = err e s
  check_required table panic = panic

module _ {V E Body S : Type 0} (jx : Jx V E Body) where
  -- `switch string(k)`, of which the slots from the `n`-th on are left; the default skips the value.
  unfoldable pub switch :
      List (Slot V E S) → ℕ → Text → V → Cmd (DecodeError E) (S × List Byte) (Unit {0})
  switch [] n k v t = stop_at (jx.skip v) t
  switch (slot ∷ slots) n k v t =
      if slot.name == k then run_slot slot n v t else switch slots (suc n) k v t

  unfoldable pub each_field :
      List (Slot V E S) → List (Text × V) → Cmd (DecodeError E) (S × List Byte) (Unit {0})
  each_field slots [] t = ok tt t
  each_field slots ((k, v) ∷ fs) t = and_then (switch slots 0 k v t) (λ _. each_field slots fs)

  -- `d.ObjBytes(func …)`
  unfoldable pub obj_bytes : List (Slot V E S) → V → Cmd (DecodeError E) (S × List Byte) (Unit {0})
  unfolding each_field
  obj_bytes slots v t = and_then (each_field slots (jx.fields v).0 t) (λ _. stop_at (jx.fields v).1)

  unfoldable pub decode_object : Table V E S → V → Cmd (DecodeError E) S (Unit {0})
  unfolding obj_bytes
  decode_object table v s =
      check_required table
        (wrap (in_type table.of_type) (obj_bytes table.slots v (s, no_bits table.masks)))
