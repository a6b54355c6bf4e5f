-- ===== src/Storage/Items.antt =====
-- The text that `saveItems` of order_service/internal/ports/adapters/storage/postgres.go builds with
-- `fmt.Sprintf` and `strings.Join`.
use l0_wb_tech_school.Base.{
  ℕ, zero, suc, ◌+◌, ◌/◌, ◌%◌, List, [], ◌∷◌, ◌++◌, map, ltb, if◌then◌else◌,
}
use l0_wb_tech_school.Base.Int.{ℤ, pos, negsuc}
use l0_wb_tech_school.Base.Text.{Text, lit}
use l0_wb_tech_school.Models.{OrderItem}

-- The decimal digits of `n`, behind which `s` stands. Each round drops a digit.
unfoldable pub digits : ℕ → ℕ → Text → Text
digits zero n s = s
digits (suc fuel) n s =
    let rest = digits fuel (n / 10) ((0x30 + n % 10) ∷ s) in
    if ltb n 10 then (0x30 + n) ∷ s else rest

-- `%d`. An `int` of 64 bits has no more than 19 digits.
unfoldable pub decimal : ℤ → Text
unfolding digits
decimal (pos n) = digits 20 n []
decimal (negsuc n) = 0x2d ∷ digits 20 (suc n) []

-- `'%s'`
unfoldable pub quoted : Text → Text
quoted s = 0x27 ∷ s ++ 0x27 ∷ []

-- `strings.Join(list, ",")`
unfoldable pub join : List Text → Text
join [] = []
join (s ∷ []) = s
join (s ∷ t ∷ rest) = s ++ 0x2c ∷ join (t ∷ rest)

unfoldable pub item_values : Text → OrderItem → Text
unfolding decimal quoted join
item_values order_uid item =
    0x28
      ∷ join (
          quoted order_uid
          ∷ decimal item.chrt_id
          ∷ quoted item.track_number
          ∷ decimal item.price
          ∷ quoted item.rid
          ∷ quoted item.name
          ∷ decimal item.sale
          ∷ quoted item.size
          ∷ decimal item.total_price
          ∷ decimal item.nm_id
          ∷ quoted item.brand
          ∷ decimal item.status
          ∷ [])
    ++ 0x29 ∷ []

abbrev pub insert_items : Text
insert_items =
    lit
      "INSERT INTO order_service.order_items(\"order_id\", \"chrt_id\", \"track_number\", \"price\", \"rid\", \"name\", \"sale\", \"size\", \"total_price\", \"nm_id\", \"brand\", \"status\") VALUES "

unfoldable pub items_query : Text → List OrderItem → Text
unfolding item_values join
items_query order_uid items = insert_items ++ join (map (item_values order_uid) items)
