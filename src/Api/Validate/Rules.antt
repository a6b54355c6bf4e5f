-- ===== src/Api/Validate/Rules.antt =====
-- What the validators of order_service/internal/api accept, and which items they name.
use l0_wb_tech_school.Base.{ℕ, suc, ◌≡◌, refl, ◌↔◌, List, [], ◌∷◌, Option, none, some, All}
use l0_wb_tech_school.Base.Int.{pos, ◌≤ℤ◌}
use l0_wb_tech_school.Base.Text.{Text, lit}
use l0_wb_tech_school.Handler.{ApiOrderItem, OrderResponse}
use l0_wb_tech_school.Api.Ogen.{Ogen, IsOgen}
use l0_wb_tech_school.Api.Validate.{
  Failure, Failures, nil, cons, email_rule, sale_rule, of_rule, note, report, index_name,
  validate_delivery, validate_item, validate_items, validate_slice, validate_order,
}

-- The discount of the item is a percentage.
abbrev pub IsSale : ApiOrderItem → Type 0
IsSale item = (pos 0 ≤ℤ item.sale) × (item.sale ≤ℤ pos 100)

-- The slice is not nil, and every discount in it is a percentage.
abbrev pub AreSales : Option (List ApiOrderItem) → Type 0
AreSales none = ⊥
AreSales (some items) = All IsSale items

module _ {E : Type 0} where
  note_last :
      (name : Text) (r : Option E) → (report (note name (of_rule r) nil) ≡ none) ↔ (r ≡ none)
  note_last name none = (λ _. refl, λ _. refl)
  note_last name (some e) = (λ h. cc, λ h. cc)

  note_nil :
      (name : Text) (r : Option (Failure E)) (later : Failures E)
      → (note name r later ≡ nil) ↔ ((r ≡ none) × (later ≡ nil))
  note_nil name none later = (λ h. (refl, h), λ h. h.1)
  note_nil name (some e) later = (λ h. cc, λ h. cc)

  report_nil : (fs : Failures E) → (report fs ≡ none) ↔ (fs ≡ nil)
  report_nil nil = (λ _. refl, λ _. refl)
  report_nil (cons name e rest) = (λ h. cc, λ h. cc)

  module _ (ogen : Ogen E) (lawful : IsOgen ogen) where
    validate_item_iff : (item : ApiOrderItem) → (validate_item ogen item ≡ none) ↔ IsSale item
    unfolding validate_item
    validate_item_iff item =
        let last = note_last (lit "sale") (ogen.check_int sale_rule item.sale) in
        let range = lawful.range_checked (pos 0) (pos 100) item.sale in
        (λ h. range.0 (last.0 h), λ h. last.1 (range.1 h))

    validate_items_iff :
        (i : ℕ) (items : List ApiOrderItem) → (validate_items ogen i items ≡ nil) ↔ All IsSale items
    unfolding validate_items
    validate_items_iff i [] = (λ _. tt, λ _. refl)
    validate_items_iff i (item ∷ items) =
        let both =
          note_nil (index_name i) (validate_item ogen item) (validate_items ogen (suc i) items) in
        let here = validate_item_iff item in
        let later = validate_items_iff (suc i) items in
        (λ h. (here.0 (both.0 h).0, later.0 (both.0 h).1), λ h. both.1 (here.1 h.0, later.1 h.1))

    validate_slice_iff :
        (slice : Option (List ApiOrderItem)) → (validate_slice ogen slice ≡ none) ↔ AreSales slice
    validate_slice_iff none = (λ h. cc h, λ h. absurd h)
    validate_slice_iff (some items) =
        let fields = report_nil (validate_items ogen 0 items) in
        let every = validate_items_iff 0 items in
        (λ h. every.0 (fields.0 h), λ h. fields.1 (every.1 h))

    -- `Validate` of a response returns no error exactly if the rule for emails accepts that of the
    -- delivery, the slice of items is not nil, and the discount of every item lies between 0 and 100. It holds for the integer rule
    -- of ogen that accepts the numbers between its bounds.
    pub validate_order_iff :
        (r : OrderResponse)
        → (validate_order ogen r ≡ none)
          ↔ ((ogen.check_string email_rule r.delivery.email ≡ none) × AreSales r.items)
    unfolding validate_order validate_delivery
    validate_order_iff r =
        let email = note_last (lit "email") (ogen.check_string email_rule r.delivery.email) in
        let fields = report_nil (
          note (lit "delivery") (validate_delivery ogen r.delivery)
            (note (lit "items") (validate_slice ogen r.items) nil)) in
        let both =
          note_nil (lit "delivery") (validate_delivery ogen r.delivery)
            (note (lit "items") (validate_slice ogen r.items) nil) in
        let last = note_nil (lit "items") (validate_slice ogen r.items) nil in
        let items = validate_slice_iff r.items in
        (
          λ h. let parts = both.0 (fields.0 h) in (email.0 parts.0, items.0 (last.0 parts.1).0),
          λ h. fields.1 (both.1 (email.1 h.0, last.1 (items.1 h.1, refl))),
        )
