-- ===== src/Api/Responses/Valid.antt =====
-- What a client of the API reads for an order that the validator of the receiving loop accepted.
use l0_wb_tech_school.Base.{◌≡◌, ◌∙◌, Bool, List, [], ◌∷◌, map, Option, none, ok, All}
use l0_wb_tech_school.Base.Text.{Text}
use l0_wb_tech_school.Models.{Time, OrderItem, Order}
use l0_wb_tech_school.Validators
use l0_wb_tech_school.Validators.Rules.{IsValidItem}
use l0_wb_tech_school.Validators.Whole.{validate_order-eq-none}
use l0_wb_tech_school.Handler.{item_response, order_response}
use l0_wb_tech_school.Api.Jx.{Jx, IsJx}
use l0_wb_tech_school.Api.Ogen.{Ogen, IsOgen}
use l0_wb_tech_school.Api.Schemas.{order}
use l0_wb_tech_school.Api.Validate.{email_rule, validate_order}
use l0_wb_tech_school.Api.Validate.Rules.{IsSale, validate_order_iff}
use l0_wb_tech_school.Api.Codec.RoundTrip.{plain_order}
use l0_wb_tech_school.Api.Responses.{encode_order_id_get_response, decode_order_id_get_response}
use l0_wb_tech_school.Api.Responses.RoundTrip.{arrived, decode_response-encode_response}

All-IsSale : (items : List OrderItem) → All IsValidItem items → All IsSale (map item_response items)
All-IsSale [] valid = tt
All-IsSale (item ∷ items) (here, later) = ((here.sale_from, here.sale_to), All-IsSale items later)

module _ {V E Body : Type 0} (jx : Jx V E Body) (write : Body → Option E) (ogen : Ogen E)
    (to_second : Time → Time) (jx_lawful : IsJx jx to_second) (ogen_lawful : IsOgen ogen) where
  -- For an order that `ValidateOrder` accepts and whose email ogen's rule accepts too, the client
  -- reads from the server's response with that order the view of the order, field by field of the
  -- response, with its date to the second. It holds for a response that arrives whole, a jx whose
  -- decoder reads what its encoder wrote, and ogen's rules and the media type as documented.
  pub decode_response_of_valid :
      (parse_address : Text → Bool) (now : Time) (o : Order)
      → Validators.validate_order parse_address now o ≡ none
      → ogen.check_string email_rule o.delivery.email ≡ none
      → decode_order_id_get_response jx ogen
          (arrived (encode_order_id_get_response jx write (order (order_response o))).0)
        ≡ ok (order (record (order_response o) { date_created = to_second o.date_created })) tt
  unfolding order_response
  decode_response_of_valid parse_address now o accepted email =
      let (some_uid, id, rules) = (validate_order-eq-none parse_address now o).0 accepted in
      let seen = plain_order to_second (order_response o) in
      let passes : validate_order ogen seen ≡ none =
        (validate_order_iff ogen ogen_lawful seen).1 (email, All-IsSale o.items rules.items) in
      decode_response-encode_response jx write ogen to_second jx_lawful ogen_lawful
        (order (order_response o))
      ∙ rw passes
