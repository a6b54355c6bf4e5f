-- ===== src/Api/Object/Leaves.antt =====
-- Which bits `Decode` has set where it returns without error.

use l0_wb_tech_school.Base.{
  ℕ, suc, ◌≡◌, refl, sym, subst, List, [], ◌∷◌, Option, none, some, Outcome, ok, err, panic, Cmd,
  and_then, if◌then◌else◌, ◌==◌, Bool-cases, inl, inr,
}
use l0_wb_tech_school.Base.Text.{Text, text_eq}
use l0_wb_tech_school.Api.Jx.{Jx}
use l0_wb_tech_school.Api.Required.{Byte, mark}
use l0_wb_tech_school.Api.Object.{
  DecodeError, Slot, wrap, stop_at, beside, in_field, run_slot, switch, each_field,
}
use l0_wb_tech_school.Api.Object.Missing.{after}

module _ {E S : Type 0} where
  -- Where a call returns without error, it leaves these bits.
  unfoldable pub Leaves : List Byte → Outcome (DecodeError E) (S × List Byte) (Unit {0}) → Type 0
  Leaves seen (ok a t) = t.1 ≡ seen
  Leaves seen (err e t) = Unit
  Leaves seen panic = Unit

  beside-Leaves :
      (f : DecodeError E → DecodeError E) (seen : List Byte)
      (out : Outcome (DecodeError E) S (Unit {0}))
      → Leaves seen (beside seen (wrap f out))
  unfolding Leaves
  beside-Leaves f seen (ok a s) = refl
  beside-Leaves f seen (err e s) = tt
  beside-Leaves f seen panic = tt

  stop_at-Leaves : (e : Option E) (t : S × List Byte) → Leaves t.1 (stop_at e t)
  unfolding Leaves
  stop_at-Leaves none t = refl
  stop_at-Leaves (some e) t = tt

  and_then-Leaves :
      (seen seen' : List Byte) (out : Outcome (DecodeError E) (S × List Byte) (Unit {0}))
      (k : Unit {0} → Cmd (DecodeError E) (S × List Byte) (Unit {0}))
      → Leaves seen out
      → ((s : S) → Leaves seen' (k tt (s, seen)))
      → Leaves seen' (and_then out k)
  unfolding Leaves
  and_then-Leaves seen seen' (ok a (s, bits)) k h next =
      subst (λ (b : List Byte). Leaves seen' (k tt (s, b))) (sym h) (next s)
  and_then-Leaves seen seen' (err e t) k h next = tt
  and_then-Leaves seen seen' panic k h next = tt

module _ {V E S : Type 0} where
  abbrev pub after_all : List (Slot V E S) → List (Text × V) → List Byte → List Byte
  after_all slots [] seen = seen
  after_all slots ((k, v) ∷ fs) seen = after_all slots fs (after slots 0 k seen)

  module _ {Body : Type 0} (jx : Jx V E Body) where
    switch-Leaves :
        (slots : List (Slot V E S)) (n : ℕ) (k : Text) (v : V) (s : S) (seen : List Byte)
        → Leaves (after slots n k seen) (switch jx slots n k v (s, seen))
    unfolding switch run_slot
    switch-Leaves [] n k v s seen = stop_at-Leaves (jx.skip v) (s, seen)
    switch-Leaves (slot ∷ slots) n k v s seen = elim (Bool-cases (slot.name == k)) [
      | inl same ↦ rw same (
          beside-Leaves (in_field slot.name) (if slot.required then mark n seen else seen)
            (slot.read v s))
      | inr other ↦ rw other (switch-Leaves slots (suc n) k v s seen)
    ]

    pub each_field-Leaves :
        (slots : List (Slot V E S)) (fs : List (Text × V)) (s : S) (seen : List Byte)
        → Leaves (after_all slots fs seen) (each_field jx slots fs (s, seen))
    unfolding each_field
    each_field-Leaves slots [] s seen = unfold Leaves in refl
    each_field-Leaves slots ((k, v) ∷ fs) s seen =
        and_then-Leaves (after slots 0 k seen) (after_all slots fs (after slots 0 k seen))
          (switch jx slots 0 k v (s, seen)) (λ _. each_field jx slots fs)
          (switch-Leaves slots 0 k v s seen)
          (λ t. each_field-Leaves slots fs t (after slots 0 k seen))
