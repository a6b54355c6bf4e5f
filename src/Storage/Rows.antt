-- ===== src/Storage/Rows.antt =====
-- What the statement of `saveItems` of order_service/internal/ports/adapters/storage/postgres.go says of
-- the items, where no text has a quote.
use mathlib.Core.List.{append_assoc}
use l0_wb_tech_school.Base.{ℕ, ◌≡◌, refl, sym, ap, ◌∙◌, List, [], ◌∷◌, ◌++◌, All}
use l0_wb_tech_school.Base.Int.{ℤ}
use l0_wb_tech_school.Base.Text.{Text}
use l0_wb_tech_school.Models.{OrderItem}
use l0_wb_tech_school.Storage.Items.{decimal, quoted, join, item_values}
use l0_wb_tech_school.Storage.Digits.{IsUnquoted, IsShort, IsInside, quoted-cut, decimal-cut}

pub data Column : Type 0 where
  words : Text → Column
  number : ℤ → Column

abbrev pub shown : Column → Text
shown (words s) = quoted s
shown (number x) = decimal x

-- What follows a column of a row, up to what follows the row.
abbrev pub behind : List Column → Text → Text
behind [] t = 0x29 ∷ t
behind (c ∷ cs) t = 0x2c ∷ shown c ++ behind cs t

abbrev pub IsPlain : Column → Type 0
IsPlain (words s) = IsUnquoted s
IsPlain (number x) = IsShort x

-- The columns are of the same kinds.
abbrev pub Alike : List Column → List Column → Type 0
Alike [] [] = Unit
Alike [] (d ∷ ds) = ⊥
Alike (c ∷ cs) [] = ⊥
Alike (words s ∷ cs) (words r ∷ ds) = Alike cs ds
Alike (words s ∷ cs) (number y ∷ ds) = ⊥
Alike (number x ∷ cs) (words r ∷ ds) = ⊥
Alike (number x ∷ cs) (number y ∷ ds) = Alike cs ds

-- `behind` begins with what is in no number.
head_of : List Column → ℕ
head_of [] = 0x29
head_of (c ∷ cs) = 0x2c

rest_of : List Column → Text → Text
rest_of [] t = t
rest_of (c ∷ cs) t = shown c ++ behind cs t

behind_lem : (cs : List Column) (t : Text) → behind cs t ≡ head_of cs ∷ rest_of cs t
unfolding head_of rest_of
behind_lem [] t = refl
behind_lem (c ∷ cs) t = refl

head_of-outside : (cs : List Column) → IsInside (head_of cs) → ⊥
unfolding head_of
head_of-outside [] h = h.1 refl
head_of-outside (c ∷ cs) h = h.0 refl

same_head : (cs ds : List Column) → Alike cs ds → head_of cs ≡ head_of ds
unfolding head_of
same_head [] [] a = refl
same_head [] (d ∷ ds) a = absurd a
same_head (c ∷ cs) [] a = absurd a
same_head (c ∷ cs) (d ∷ ds) a = refl

behind-inj :
    (cs ds : List Column) (t u : Text)
    → Alike cs ds
    → All IsPlain cs
    → All IsPlain ds
    → behind cs t ≡ behind ds u
    → (cs ≡ ds) × (t ≡ u)
behind-inj [] [] t u a h k e = let later : t ≡ u = cc e in (refl, later)
behind-inj [] (d ∷ ds) t u a h k e = absurd a
behind-inj (c ∷ cs) [] t u a h k e = absurd a
behind-inj (words s ∷ cs) (words r ∷ ds) t u a h k e =
    let inside : quoted s ++ behind cs t ≡ quoted r ++ behind ds u = cc e in
    let (same, later) = quoted-cut s r (behind cs t) (behind ds u) h.0 k.0 inside in
    let (others, last) = behind-inj cs ds t u a h.1 k.1 later in
    (ap (λ z. words z ∷ cs) same ∙ ap (λ z. words r ∷ z) others, last)
behind-inj (words s ∷ cs) (number y ∷ ds) t u a h k e = absurd a
behind-inj (number x ∷ cs) (words r ∷ ds) t u a h k e = absurd a
behind-inj (number x ∷ cs) (number y ∷ ds) t u a h k e =
    let inside : decimal x ++ behind cs t ≡ decimal y ++ behind ds u = cc e in
    let split : decimal x ++ head_of cs ∷ rest_of cs t ≡ decimal y ++ head_of ds ∷ rest_of ds u =
      ap (λ z. decimal x ++ z) (sym (behind_lem cs t))
      ∙ inside
      ∙ ap (λ z. decimal y ++ z) (behind_lem ds u) in
    let (same, tails) =
      decimal-cut x y (head_of cs) (head_of ds) (rest_of cs t) (rest_of ds u) h.0 k.0
        (head_of-outside cs) (head_of-outside ds) split in
    let later : behind cs t ≡ behind ds u =
      behind_lem cs t
      ∙ ap (λ z. z ∷ rest_of cs t) (same_head cs ds a)
      ∙ ap (λ z. head_of ds ∷ z) tails
      ∙ sym (behind_lem ds u) in
    let (others, last) = behind-inj cs ds t u a h.1 k.1 later in
    (ap (λ z. number z ∷ cs) same ∙ ap (λ z. number y ∷ z) others, last)

abbrev pub columns : Text → OrderItem → List Column
columns order_uid item =
    words order_uid
    ∷ number item.chrt_id
    ∷ words item.track_number
    ∷ number item.price
    ∷ words item.rid
    ∷ words item.name
    ∷ number item.sale
    ∷ words item.size
    ∷ number item.total_price
    ∷ number item.nm_id
    ∷ words item.brand
    ∷ number item.status
    ∷ []

item_values-behind :
    (order_uid : Text) (item : OrderItem) (t : Text)
    → 0x2c ∷ item_values order_uid item ++ t ≡ 0x2c ∷ 0x28 ∷ rest_of (columns order_uid item) t
unfolding item_values join rest_of
item_values-behind order_uid item t = simp (append_assoc)

-- A row with no quotes has its columns, and ends where it ends.
pub item_values-inj :
    (uid vid : Text) (i o : OrderItem) (t u : Text)
    → All IsPlain (columns uid i)
    → All IsPlain (columns vid o)
    → 0x2c ∷ item_values uid i ++ t ≡ 0x2c ∷ item_values vid o ++ u
    → (columns uid i ≡ columns vid o) × (t ≡ u)
unfolding rest_of
item_values-inj uid vid i o t u h k e =
    let shown : 0x2c ∷ 0x28 ∷ rest_of (columns uid i) t ≡ 0x2c ∷ 0x28 ∷ rest_of (columns vid o) u =
      sym (item_values-behind uid i t) ∙ e ∙ item_values-behind vid o u in
    let inside : rest_of (columns uid i) t ≡ rest_of (columns vid o) u = cc shown in
    behind-inj (columns uid i) (columns vid o) t u tt h k (ap (λ z. 0x2c ∷ z) inside)
