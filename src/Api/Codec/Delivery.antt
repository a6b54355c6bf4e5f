-- ===== src/Api/Codec/Delivery.antt =====
-- `Delivery.Encode` and `Delivery.Decode` of order_service/internal/api/oas_json_gen.go.
use l0_wb_tech_school.Base.{true, List, [], ◌∷◌, Cmd}
use l0_wb_tech_school.Base.Text.{Text, lit}
use l0_wb_tech_school.Handler.{ApiDelivery}
use l0_wb_tech_school.Api.Jx.{Jx}
use l0_wb_tech_school.Api.Required.{byte}
use l0_wb_tech_school.Api.Object.{DecodeError, Slot, Table, assign, decode_object}

abbrev pub delivery_names : List Text
delivery_names =
    lit "name"
    ∷ lit "phone"
    ∷ lit "zip"
    ∷ lit "city"
    ∷ lit "address"
    ∷ lit "region"
    ∷ lit "email"
    ∷ []

module _ {V E Body : Type 0} (jx : Jx V E Body) where
  abbrev pub delivery_fields : ApiDelivery → List (Text × V)
  delivery_fields s =
      (lit "name", jx.str s.name)
      ∷ (lit "phone", jx.str s.phone)
      ∷ (lit "zip", jx.str s.zip)
      ∷ (lit "city", jx.str s.city)
      ∷ (lit "address", jx.str s.address)
      ∷ (lit "region", jx.str s.region)
      ∷ (lit "email", jx.str s.email)
      ∷ []

  abbrev pub encode_delivery : ApiDelivery → V
  encode_delivery s = jx.object (delivery_fields s)

  abbrev pub delivery_slots : List (Slot V E ApiDelivery)
  delivery_slots =
      record {
        name = lit "name";
        required = true;
        read = assign jx.read_str (λ x s. record s { name = x });
      }
      ∷ record {
        name = lit "phone";
        required = true;
        read = assign jx.read_str (λ x s. record s { phone = x });
      }
      ∷ record {
        name = lit "zip";
        required = true;
        read = assign jx.read_str (λ x s. record s { zip = x });
      }
      ∷ record {
        name = lit "city";
        required = true;
        read = assign jx.read_str (λ x s. record s { city = x });
      }
      ∷ record {
        name = lit "address";
        required = true;
        read = assign jx.read_str (λ x s. record s { address = x });
      }
      ∷ record {
        name = lit "region";
        required = true;
        read = assign jx.read_str (λ x s. record s { region = x });
      }
      ∷ record {
        name = lit "email";
        required = true;
        read = assign jx.read_str (λ x s. record s { email = x });
      }
      ∷ []

  abbrev pub delivery_table : Table V E ApiDelivery
  delivery_table = record {
    of_type = lit "Delivery";
    names = delivery_names;
    masks = byte 0x7f ∷ [];
    slots = delivery_slots;
  }

  unfoldable pub decode_delivery : V → Cmd (DecodeError E) ApiDelivery (Unit {0})
  decode_delivery v s = decode_object jx delivery_table v s
