-- ===== src/Tests/Quoting.antt =====
-- The statements of saveItems in order_service/internal/ports/adapters/storage/postgres.go.

use l0_wb_tech_school.Base.{arith, ℕ, ◌<◌, ◌≡◌, refl, [], ◌∷◌, map}
use l0_wb_tech_school.Base.Int.{pos}
use l0_wb_tech_school.Base.Text.{lit}
use l0_wb_tech_school.Models.{OrderItem}
use l0_wb_tech_school.Storage.Items.{items_query}
use l0_wb_tech_school.Storage.Quotes.{two_rows, items_query-two_rows}
use l0_wb_tech_school.Storage.Digits.{IsUnquoted}
use l0_wb_tech_school.Storage.Unquoted.{IsUnquotedRow, row_of, items_query-inj}
use l0_wb_tech_school.Tests.Validating.{an_item}

-- A brand that closes its quotes: the statement of one item is that of two.
abbrev plain : OrderItem
plain = record an_item {
  chrt_id = pos 1;
  track_number = lit "T";
  price = pos 2;
  rid = lit "r";
  name = lit "n";
  sale = pos 3;
  size = lit "s";
  total_price = pos 4;
  nm_id = pos 5;
  brand = lit "Z";
  status = pos 6;
}

abbrev crafted : OrderItem
crafted = record plain { brand = lit "Z',6),('u',1,'T',2,'r','n',3,'s',4,5,'Z" }

items_query-two_rows_example :
    items_query (lit "u") (two_rows (lit "u") plain an_item ∷ [])
    ≡ items_query (lit "u") (plain ∷ an_item ∷ [])
items_query-two_rows_example = items_query-two_rows (lit "u") plain an_item

above_quote : (c : ℕ) → 0x27 < c → IsUnquoted (c ∷ [])
above_quote c h = (λ e. absurd (omega (arith, e)), tt)

plain-IsUnquotedRow : IsUnquotedRow (lit "u") plain
plain-IsUnquotedRow = record {
  uid = above_quote _ (omega arith);
  chrt_id = omega arith;
  track_number = above_quote _ (omega arith);
  price = omega arith;
  rid = above_quote _ (omega arith);
  name = above_quote _ (omega arith);
  sale = omega arith;
  size = above_quote _ (omega arith);
  total_price = omega arith;
  nm_id = omega arith;
  brand = above_quote _ (omega arith);
  status = omega arith;
}

-- The text does not have the order's id that the item itself has.
abbrev elsewhere : OrderItem
elsewhere = record plain { order_id = lit "x" }

items_query-inj_example :
    map (row_of (lit "u")) (plain ∷ []) ≡ map (row_of (lit "u")) (elsewhere ∷ [])
unfolding items_query
items_query-inj_example =
    items_query-inj (lit "u") (lit "u") plain elsewhere [] [] (plain-IsUnquotedRow, tt)
      (
        record {
          uid = plain-IsUnquotedRow.uid;
          chrt_id = plain-IsUnquotedRow.chrt_id;
          track_number = plain-IsUnquotedRow.track_number;
          price = plain-IsUnquotedRow.price;
          rid = plain-IsUnquotedRow.rid;
          name = plain-IsUnquotedRow.name;
          sale = plain-IsUnquotedRow.sale;
          size = plain-IsUnquotedRow.size;
          total_price = plain-IsUnquotedRow.total_price;
          nm_id = plain-IsUnquotedRow.nm_id;
          brand = plain-IsUnquotedRow.brand;
          status = plain-IsUnquotedRow.status;
        },
        tt,
      )
      refl

quotes_test : items_query (lit "u") (crafted ∷ []) ≡ items_query (lit "u") (plain ∷ plain ∷ [])
unfolding items_query
quotes_test = refl
