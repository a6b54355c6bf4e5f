-- ===== src/Validators/Whole.antt =====
-- ValidateOrder and validateItems as a whole.
use l0_wb_tech_school.Base.{
  ℕ, suc, ◌+◌, ◌≡◌, ◌≢◌, refl, ◌↔◌, ap, Bool, Option, none, some, List, [], ◌∷◌, arith, All, take,
  ◌∙◌, get_elem?, inl, inr, Option-cases,
}
use l0_wb_tech_school.Base.Text.{Text, lit, is_blank}
use l0_wb_tech_school.Models.{Time, OrderItem, Order}
use l0_wb_tech_school.Validators.{
  order_error, delivery_error, payment_error, FieldError, ValidationError, validate_order_main,
  validate_delivery, validate_payment, validate_item, items_loop, validate_items, validate_order,
  wrapped, item_error,
}
use l0_wb_tech_school.Validators.Rules.{NotBlank, IsValidItem, IsValidOrder}
use l0_wb_tech_school.Validators.Single.{not_blank, ◌&◌}
use l0_wb_tech_school.Validators.Checks.{
  main_of_Passes, main_of_IsValid, delivery_of_Passes, delivery_of_IsValid, payment_of_Passes,
  payment_of_IsValid, item_of_Passes, item_of_IsValid,
}

wrapped-eq-none :
    (wrap : FieldError → ValidationError) (part : Option FieldError) (rest : Option ValidationError)
    → (wrapped wrap part rest ≡ none) ↔ ((part ≡ none) × (rest ≡ none))
wrapped-eq-none wrap none rest = (λ h. (refl, h), λ h. h.1)
wrapped-eq-none wrap (some e) rest = (λ h. cc, λ h. cc h.0)

part-items : (i : ℕ) (items : List OrderItem) → (items_loop i items ≡ none) ↔ All IsValidItem items
unfolding items_loop
part-items i [] = (λ h. tt, λ h. refl)
part-items i (item ∷ items) = (
  λ h.
      let (here, later) = (wrapped-eq-none (item_error i) (validate_item item) _).0 h in
      item_of_Passes item here & (part-items (suc i) items).0 later,
  λ v.
      (wrapped-eq-none (item_error i) (validate_item item) _).1
        (item_of_IsValid item v.0 & (part-items (suc i) items).1 v.1),
)

IsValidItems_of_none :
    (items : List OrderItem) → validate_items items ≡ none → (items ≢ []) × All IsValidItem items
unfolding validate_items
IsValidItems_of_none [] h = cc
IsValidItems_of_none (item ∷ items) h = (λ e. cc, (part-items 0 (item ∷ items)).0 h)

none_of_IsValidItems :
    (items : List OrderItem) → items ≢ [] → All IsValidItem items → validate_items items ≡ none
unfolding validate_items
none_of_IsValidItems [] n v = absurd (n refl)
none_of_IsValidItems (item ∷ items) n v = (part-items 0 (item ∷ items)).1 v

a_name : NotBlank (lit "b")
unfolding is_blank
a_name = (not_blank (lit "b")).0 refl

-- `ValidateOrder` accepts an order exactly when its id is not empty and, with some id in the place of
-- its own, it keeps the rules of docs/validation.md, by which each required text must have more than
-- white space: of the id itself that is not asked. It holds whatever `mail.ParseAddress` accepts and
-- whatever time it is.
pub validate_order-eq-none :
    (parse_address : Text → Bool) (now : Time) (o : Order)
    → (validate_order parse_address now o ≡ none) ↔ (
        (o.order_uid ≢ [])
        × (id : Text) × IsValidOrder parse_address now (record o { order_uid = id }))
unfolding validate_order
validate_order-eq-none parse_address now o = (
  λ h.
      let (m, after_main) = (wrapped-eq-none order_error (validate_order_main now o) _).0 h in
      let (d, after_delivery) =
        (wrapped-eq-none delivery_error (validate_delivery parse_address o.delivery) _).0
          after_main in
      let (p, i) =
        (wrapped-eq-none payment_error (validate_payment o.payment) _).0 after_delivery in
      let (some_item, items) = IsValidItems_of_none o.items i in
      let (some_uid, main) = main_of_Passes now o (lit "b") a_name m in
      (
        some_uid,
        lit "b",
        record {
          main = main;
          delivery = delivery_of_Passes parse_address o.delivery d;
          payment = payment_of_Passes o.payment p;
          some_item = some_item;
          items = items;
        },
      ),
  λ (some_uid, id, v). (wrapped-eq-none order_error (validate_order_main now o) _).1 (
    main_of_IsValid now o id some_uid v.main,
    (wrapped-eq-none delivery_error (validate_delivery parse_address o.delivery) _).1 (
      delivery_of_IsValid parse_address o.delivery v.delivery,
      (wrapped-eq-none payment_error (validate_payment o.payment) _).1 (
        payment_of_IsValid o.payment v.payment,
        none_of_IsValidItems o.items v.some_item v.items,
      ),
    ),
  ),
)

-- Where `validateItems` fails in the loop from index `i` on, it reports the first item that breaks a
-- rule: the error carries that item's index, and all items before it are valid.
pub items_loop-eq-some :
    (i : ℕ) (items : List OrderItem) {e : ValidationError}
    → items_loop i items ≡ some e
    → (j : ℕ) × (item : OrderItem) × (f : FieldError) × (e ≡ item_error (i + j) f)
      × (get_elem? items j ≡ some item)
      × (validate_item item ≡ some f)
      × All IsValidItem (take j items)
unfolding items_loop
items_loop-eq-some i [] h = cc
items_loop-eq-some i (item ∷ items) {e} h = elim (Option-cases (validate_item item)) [
  | inl valid ↦
      let later : items_loop (suc i) items ≡ some e = rw valid at h in
      let (j, found, f, here, at, failed, before) = items_loop-eq-some (suc i) items later in
      (
        suc j,
        found,
        f,
        here ∙ ap (λ n. item_error n f) (omega arith),
        at,
        failed,
        (item_of_Passes item valid, before),
      )
  | inr (f, failed) ↦
      let found : some (item_error i f) ≡ some e = rw failed at h in
      let same : e ≡ item_error i f = cc found in
      (0, item, f, same ∙ ap (λ n. item_error n f) (omega arith), refl, failed, tt)
]
