-- ===== src/Api/Codec/Item.antt =====
-- `OrderItem.Encode` and `OrderItem.Decode` of order_service/internal/api/oas_json_gen.go.
use l0_wb_tech_school.Base.{true, List, [], ◌∷◌, ◌++◌, Option, Outcome, ok, err, panic, Cmd}
use l0_wb_tech_school.Base.Int.{pos}
use l0_wb_tech_school.Base.Text.{Text, lit}
use l0_wb_tech_school.Handler.{ApiOrderItem}
use l0_wb_tech_school.Api.Jx.{Jx}
use l0_wb_tech_school.Api.Required.{byte}
use l0_wb_tech_school.Api.Object.{DecodeError, Slot, Table, assign, stop_at, decode_object}

abbrev pub item_names : List Text
item_names =
    lit "chrt_id"
    ∷ lit "track_number"
    ∷ lit "price"
    ∷ lit "rid"
    ∷ lit "name"
    ∷ lit "sale"
    ∷ lit "size"
    ∷ lit "total_price"
    ∷ lit "nm_id"
    ∷ lit "brand"
    ∷ lit "status"
    ∷ []

-- `var elem OrderItem`
abbrev pub zero_item : ApiOrderItem
zero_item = record {
  chrt_id = pos 0;
  track_number = [];
  price = pos 0;
  rid = [];
  name = [];
  sale = pos 0;
  size = [];
  total_price = pos 0;
  nm_id = pos 0;
  brand = [];
  status = pos 0;
}

module _ {V E Body : Type 0} (jx : Jx V E Body) where
  abbrev pub item_fields : ApiOrderItem → List (Text × V)
  item_fields s =
      (lit "chrt_id", jx.int64 s.chrt_id)
      ∷ (lit "track_number", jx.str s.track_number)
      ∷ (lit "price", jx.int s.price)
      ∷ (lit "rid", jx.str s.rid)
      ∷ (lit "name", jx.str s.name)
      ∷ (lit "sale", jx.int s.sale)
      ∷ (lit "size", jx.str s.size)
      ∷ (lit "total_price", jx.int s.total_price)
      ∷ (lit "nm_id", jx.int64 s.nm_id)
      ∷ (lit "brand", jx.str s.brand)
      ∷ (lit "status", jx.int s.status)
      ∷ []

  abbrev pub encode_item : ApiOrderItem → V
  encode_item s = jx.object (item_fields s)

  abbrev pub item_slots : List (Slot V E ApiOrderItem)
  item_slots =
      record {
        name = lit "chrt_id";
        required = true;
        read = assign jx.read_int64 (λ x s. record s { chrt_id = x });
      }
      ∷ record {
        name = lit "track_number";
        required = true;
        read = assign jx.read_str (λ x s. record s { track_number = x });
      }
      ∷ record {
        name = lit "price";
        required = true;
        read = assign jx.read_int (λ x s. record s { price = x });
      }
      ∷ record {
        name = lit "rid";
        required = true;
        read = assign jx.read_str (λ x s. record s { rid = x });
      }
      ∷ record {
        name = lit "name";
        required = true;
        read = assign jx.read_str (λ x s. record s { name = x });
      }
      ∷ record {
        name = lit "sale";
        required = true;
        read = assign jx.read_int (λ x s. record s { sale = x });
      }
      ∷ record {
        name = lit "size";
        required = true;
        read = assign jx.read_str (λ x s. record s { size = x });
      }
      ∷ record {
        name = lit "total_price";
        required = true;
        read = assign jx.read_int (λ x s. record s { total_price = x });
      }
      ∷ record {
        name = lit "nm_id";
        required = true;
        read = assign jx.read_int64 (λ x s. record s { nm_id = x });
      }
      ∷ record {
        name = lit "brand";
        required = true;
        read = assign jx.read_str (λ x s. record s { brand = x });
      }
      ∷ record {
        name = lit "status";
        required = true;
        read = assign jx.read_int (λ x s. record s { status = x });
      }
      ∷ []

  abbrev pub item_table : Table V E ApiOrderItem
  item_table = record {
    of_type = lit "OrderItem";
    names = item_names;
    masks = byte 0xff ∷ byte 0x07 ∷ [];
    slots = item_slots;
  }

  unfoldable pub decode_item : V → Cmd (DecodeError E) ApiOrderItem (Unit {0})
  decode_item v s = decode_object jx item_table v s

  abbrev pub append_item :
      Outcome (DecodeError E) ApiOrderItem (Unit {0})
      → (ApiOrderItem → Outcome (DecodeError E) (List ApiOrderItem) (Unit {0}))
      → Cmd (DecodeError E) (List ApiOrderItem) (Unit {0})
  append_item (ok a elem) more items = more elem
  append_item (err e elem) more items = err e items
  append_item panic more items = panic

  -- The call back of `d.Arr` for each element: the items so far are in the receiver.
  unfoldable pub decode_items :
      List V → Option E → Cmd (DecodeError E) (List ApiOrderItem) (Unit {0})
  decode_items [] fault items = stop_at fault items
  decode_items (v ∷ vs) fault items =
      append_item (decode_item v zero_item) (λ elem. decode_items vs fault (items ++ elem ∷ []))
        items
