-- ===== src/Storage/Quotes.antt =====
-- What the values between quotes do to the statement that `saveItems` of
-- order_service/internal/ports/adapters/storage/postgres.go builds.
use l0_wb_tech_school.Base.{◌≡◌, sym, ap, ◌∙◌, [], ◌∷◌, ◌++◌}
use mathlib.Core.List.{append_assoc}
use l0_wb_tech_school.Base.Text.{Text}
use l0_wb_tech_school.Models.{OrderItem}
use l0_wb_tech_school.Storage.Items.{decimal, quoted, join, item_values, insert_items, items_query}

-- The row of an item up to its brand, without the parenthesis.
abbrev before_brand : Text → OrderItem → Text
before_brand order_uid item = join (
    quoted order_uid
    ∷ decimal item.chrt_id
    ∷ quoted item.track_number
    ∷ decimal item.price
    ∷ quoted item.rid
    ∷ quoted item.name
    ∷ decimal item.sale
    ∷ quoted item.size
    ∷ decimal item.total_price
    ∷ decimal item.nm_id
    ∷ [])

item_values_lem :
    (order_uid : Text) (item : OrderItem)
    → item_values order_uid item
      ≡ 0x28 ∷ before_brand order_uid item
        ++ 0x2c ∷ 0x27 ∷ item.brand
        ++ 0x27 ∷ 0x2c ∷ decimal item.status
        ++ 0x29 ∷ []
unfolding item_values join quoted
item_values_lem order_uid item = simp (append_assoc)

-- A brand that ends the row of `a` and begins that of `b`.
abbrev pub two_rows : Text → OrderItem → OrderItem → OrderItem
two_rows order_uid a b = record a {
  brand =
      a.brand
      ++ 0x27 ∷ 0x2c ∷ decimal a.status
      ++ 0x29 ∷ 0x2c ∷ 0x28 ∷ before_brand order_uid b
      ++ 0x2c ∷ 0x27 ∷ b.brand;
  status = b.status;
}

rows_lem :
    (p x d q y e : Text)
    → 0x28 ∷ p
        ++ 0x2c ∷ 0x27 ∷ (x ++ 0x27 ∷ 0x2c ∷ d ++ 0x29 ∷ 0x2c ∷ 0x28 ∷ q ++ 0x2c ∷ 0x27 ∷ y)
        ++ 0x27 ∷ 0x2c ∷ e
        ++ 0x29 ∷ []
      ≡ (0x28 ∷ p ++ 0x2c ∷ 0x27 ∷ x ++ 0x27 ∷ 0x2c ∷ d ++ 0x29 ∷ [])
        ++ 0x2c ∷ (0x28 ∷ q ++ 0x2c ∷ 0x27 ∷ y ++ 0x27 ∷ 0x2c ∷ e ++ 0x29 ∷ [])
rows_lem p x d q y e = simp (append_assoc)

item_values-two_rows :
    (order_uid : Text) (a b : OrderItem)
    → item_values order_uid (two_rows order_uid a b)
      ≡ item_values order_uid a ++ 0x2c ∷ item_values order_uid b
item_values-two_rows order_uid a b =
    item_values_lem order_uid (two_rows order_uid a b)
    ∙ rows_lem (before_brand order_uid a) a.brand (decimal a.status) (before_brand order_uid b)
        b.brand (decimal b.status)
    ∙ sym (
        ap (λ r. r ++ 0x2c ∷ item_values order_uid b) (item_values_lem order_uid a)
        ∙ ap
            (λ r.
              (0x28 ∷ before_brand order_uid a
                ++ 0x2c ∷ 0x27 ∷ a.brand
                ++ 0x27 ∷ 0x2c ∷ decimal a.status
                ++ 0x29 ∷ [])
              ++ 0x2c ∷ r)
            (item_values_lem order_uid b))

-- For any two items there is one item, the first with another brand and status, for which the
-- statement has the same text: as no quote is escaped, one item is written as the rows of both.
pub items_query-two_rows :
    (order_uid : Text) (a b : OrderItem)
    → items_query order_uid (two_rows order_uid a b ∷ []) ≡ items_query order_uid (a ∷ b ∷ [])
unfolding items_query join
items_query-two_rows order_uid a b =
    ap (λ r. insert_items ++ r) (item_values-two_rows order_uid a b)
