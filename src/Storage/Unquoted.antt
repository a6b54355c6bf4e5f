-- ===== src/Storage/Unquoted.antt =====
-- The statement of `saveItems` of order_service/internal/ports/adapters/storage/postgres.go read back.
use mathlib.Core.List.{append-nil}
use l0_wb_tech_school.Base.{ℕ, zero, suc, ◌≡◌, refl, sym, ap, ◌∙◌, List, [], ◌∷◌, ◌++◌, map, All}
use l0_wb_tech_school.Base.Int.{ℤ, pos}
use l0_wb_tech_school.Base.Text.{Text}
use l0_wb_tech_school.Models.{OrderItem}
use l0_wb_tech_school.Storage.Items.{join, item_values, insert_items, items_query}
use l0_wb_tech_school.Storage.Digits.{IsUnquoted, IsShort}
use l0_wb_tech_school.Storage.Rows.{Column, words, number, IsPlain, columns, item_values-inj}

-- The row of an item: its fields, with the id of the order.
abbrev pub row_of : Text → OrderItem → OrderItem
row_of order_uid item = record item { order_id = order_uid }

abbrev words_at : ℕ → List Column → Text
words_at i [] = []
words_at zero (words s ∷ cs) = s
words_at zero (number x ∷ cs) = []
words_at (suc i) (c ∷ cs) = words_at i cs

abbrev number_at : ℕ → List Column → ℤ
number_at i [] = pos 0
number_at zero (words s ∷ cs) = pos 0
number_at zero (number x ∷ cs) = x
number_at (suc i) (c ∷ cs) = number_at i cs

abbrev of_columns : List Column → OrderItem
of_columns cs = record {
  order_id = words_at 0 cs;
  chrt_id = number_at 1 cs;
  track_number = words_at 2 cs;
  price = number_at 3 cs;
  rid = words_at 4 cs;
  name = words_at 5 cs;
  sale = number_at 6 cs;
  size = words_at 7 cs;
  total_price = number_at 8 cs;
  nm_id = number_at 9 cs;
  brand = words_at 10 cs;
  status = number_at 11 cs;
}

-- The texts of the row have no quote, and its numbers no more than 20 digits.
pub record IsUnquotedRow (order_uid : Text) (item : OrderItem) : Type 0 where
  pub uid : IsUnquoted order_uid
  pub chrt_id : IsShort item.chrt_id
  pub track_number : IsUnquoted item.track_number
  pub price : IsShort item.price
  pub rid : IsUnquoted item.rid
  pub name : IsUnquoted item.name
  pub sale : IsShort item.sale
  pub size : IsUnquoted item.size
  pub total_price : IsShort item.total_price
  pub nm_id : IsShort item.nm_id
  pub brand : IsUnquoted item.brand
  pub status : IsShort item.status

plain :
    (order_uid : Text) (item : OrderItem)
    → IsUnquotedRow order_uid item
    → All IsPlain (columns order_uid item)
plain order_uid item h = (
  h.uid,
  (
    h.chrt_id,
    (
      h.track_number,
      (
        h.price,
        (
          h.rid,
          (h.name, (h.sale, (h.size, (h.total_price, (h.nm_id, (h.brand, (h.status, tt))))))),
        ),
      ),
    ),
  ),
)

-- The rows behind the first one.
abbrev more : Text → List OrderItem → Text
more order_uid [] = []
more order_uid (item ∷ items) = 0x2c ∷ item_values order_uid item ++ more order_uid items

join-more :
    (order_uid : Text) (item : OrderItem) (items : List OrderItem)
    → join (map (item_values order_uid) (item ∷ items))
      ≡ item_values order_uid item ++ more order_uid items
unfolding join
join-more order_uid item [] = sym (append-nil (item_values order_uid item))
join-more order_uid item (next ∷ items) =
    ap (λ z. item_values order_uid item ++ 0x2c ∷ z) (join-more order_uid next items)

more-inj :
    (uid vid : Text) (items others : List OrderItem)
    → All (IsUnquotedRow uid) items
    → All (IsUnquotedRow vid) others
    → more uid items ≡ more vid others
    → map (row_of uid) items ≡ map (row_of vid) others
more-inj uid vid [] [] h k e = refl
more-inj uid vid [] (o ∷ others) h k e = cc e
more-inj uid vid (i ∷ items) [] h k e = cc e
more-inj uid vid (i ∷ items) (o ∷ others) h k e =
    let (same, later) =
      item_values-inj uid vid i o (more uid items) (more vid others) (plain uid i h.0)
        (plain vid o k.0) e in
    ap (λ cs. of_columns cs ∷ map (row_of uid) items) same
    ∙ ap (λ z. row_of vid o ∷ z) (more-inj uid vid items others h.1 k.1 later)

behind_prefix : (p s t : Text) → p ++ s ≡ p ++ t → s ≡ t
behind_prefix [] s t e = e
behind_prefix (c ∷ p) s t e = behind_prefix p s t (cc e)

-- Two statements with the same text have the same rows, in the same order, where no text has a quote
-- and every number has no more than 20 digits, as those of 64 bits have: the text says what each item
-- is.
pub items_query-inj :
    (uid vid : Text) (i o : OrderItem) (items others : List OrderItem)
    → All (IsUnquotedRow uid) (i ∷ items)
    → All (IsUnquotedRow vid) (o ∷ others)
    → items_query uid (i ∷ items) ≡ items_query vid (o ∷ others)
    → map (row_of uid) (i ∷ items) ≡ map (row_of vid) (o ∷ others)
unfolding items_query
items_query-inj uid vid i o items others h k e = more-inj uid vid (i ∷ items) (o ∷ others) h k (
    ap (λ z. 0x2c ∷ z)
      (sym (join-more uid i items) ∙ behind_prefix insert_items _ _ e ∙ join-more vid o others))
