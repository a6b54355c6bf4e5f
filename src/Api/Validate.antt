-- ===== src/Api/Validate.antt =====
-- order_service/internal/api/oas_validators_gen.go. A receiver is a pointer that is not nil.
-- The errors are `validate.Error` with its
-- fields, and the error of a rule.
pub mod Rules
use l0_wb_tech_school.Base.{ℕ, suc, Bool, true, false, List, [], ◌∷◌, ◌++◌, Option, none, some}
use l0_wb_tech_school.Base.Int.{pos}
use l0_wb_tech_school.Base.Text.{Text, lit}
use l0_wb_tech_school.Storage.Items.{decimal}
use l0_wb_tech_school.Handler.{ApiDelivery, ApiOrderItem, OrderResponse}
use l0_wb_tech_school.Api.Ogen.{StringRule, IntRule, Ogen}

mutual
  pub data Failure (E : Type 0) : Type 0 where
    rule_error : E → Failure E
    nil_value : Failure E
    field_errors : Failures E → Failure E

  pub data Failures (E : Type 0) : Type 0 where
    nil : Failures E
    cons : Text → Failure E → Failures E → Failures E

abbrev pub email_rule : StringRule
email_rule = record {
  min_length = 0;
  min_length_set = false;
  max_length = 0;
  max_length_set = false;
  email = true;
}

abbrev pub sale_rule : IntRule
sale_rule = record { min_set = true; min = pos 0; max_set = true; max = pos 100 }

-- `fmt.Sprintf("[%d]", i)`
abbrev pub index_name : ℕ → Text
index_name i = lit "[" ++ (decimal (pos i) ++ lit "]")

module _ {E : Type 0} where
  abbrev pub of_rule : Option E → Option (Failure E)
  of_rule none = none
  of_rule (some e) = some (rule_error e)

  -- `if err := …; err != nil { failures = append(failures, …) }`, with the failures appended after it.
  abbrev pub note : Text → Option (Failure E) → Failures E → Failures E
  note name none later = later
  note name (some e) later = cons name e later

  -- `if len(failures) > 0`
  abbrev pub report : Failures E → Option (Failure E)
  report nil = none
  report (cons name e rest) = some (field_errors (cons name e rest))

  module _ (ogen : Ogen E) where
    unfoldable pub validate_delivery : ApiDelivery → Option (Failure E)
    validate_delivery s =
        report (note (lit "email") (of_rule (ogen.check_string email_rule s.email)) nil)

    unfoldable pub validate_item : ApiOrderItem → Option (Failure E)
    validate_item s = report (note (lit "sale") (of_rule (ogen.check_int sale_rule s.sale)) nil)

    -- The loop over the items from the `i`-th on.
    unfoldable pub validate_items : ℕ → List ApiOrderItem → Failures E
    validate_items i [] = nil
    validate_items i (elem ∷ items) =
        note (index_name i) (validate_item elem) (validate_items (suc i) items)

    -- `errors.New("nil is invalid value")` where the slice is nil.
    abbrev pub validate_slice : Option (List ApiOrderItem) → Option (Failure E)
    validate_slice none = some nil_value
    validate_slice (some items) = report (validate_items 0 items)

    unfoldable pub validate_order : OrderResponse → Option (Failure E)
    validate_order s = report (
        note (lit "delivery") (validate_delivery s.delivery)
          (note (lit "items") (validate_slice s.items) nil))
