-- ===== src/Storage/Joins.antt =====
-- What the SELECT queries of order_service/internal/ports/adapters/storage/postgres.go mean on the rows
-- of the tables: inner joins as SQL has them.
use Prim.Native.String.{String}
use l0_wb_tech_school.Base.{
  ◌≡◌, ◌≢◌, refl, ap, ◌∙◌, Bool, true, false, Option, none, some, List, [], ◌∷◌, ◌++◌, All, ◌==◌,
  string_eq, if◌then◌else◌,
}
use l0_wb_tech_school.Base.Text.{text_beq}
use l0_wb_tech_school.Storage.{Value, text, int, time, Statement, insert, literal}
use l0_wb_tech_school.Storage.Query.{Join, Select}
use l0_wb_tech_school.Storage.Read.{RowAnswer, row, no_rows}

abbrev pub Row : Type 0
Row = List (String × Value)

-- The row that an INSERT makes.
abbrev pub zipped : List String → List Value → Row
zipped [] vs = []
zipped (c ∷ cs) [] = []
zipped (c ∷ cs) (v ∷ vs) = (c, v) ∷ zipped cs vs

abbrev pub inserted : Statement → Row
inserted (insert table columns values) = zipped columns values
inserted (literal s) = []

abbrev pub cell : String → Row → Option Value
cell c [] = none
cell c ((d, v) ∷ fields) = if d == c then some v else cell c fields

-- The ids of orders are texts: no other column is compared.
abbrev pub equal_texts : Option Value → Option Value → Bool
equal_texts (some (text s)) (some (text t)) = text_beq s t
equal_texts (some (text s)) (some (int x)) = false
equal_texts (some (text s)) (some (time x)) = false
equal_texts (some (text s)) none = false
equal_texts (some (int x)) other = false
equal_texts (some (time x)) other = false
equal_texts none other = false

-- The rows of the tables, and a joined row: a row for each alias.
abbrev pub Tables : Type 0
Tables = String → List Row

abbrev pub Joined : Type 0
Joined = List (String × Row)

abbrev pub row_of : String → Joined → Row
row_of alias [] = []
row_of alias ((a, r) ∷ rest) = if a == alias then r else row_of alias rest

unfoldable pub matching : (Row → Bool) → List Row → List Row
matching keep [] = []
matching keep (r ∷ rs) = let rest = matching keep rs in if keep r then r ∷ rest else rest

unfoldable pub extended : (List Row) → String → Joined → List Joined → List Joined
extended [] alias j rest = rest
extended (r ∷ rs) alias j rest = ((alias, r) ∷ j) ∷ extended rs alias j rest

unfoldable pub joined_with : Tables → Join → List Joined → List Joined
unfolding extended matching
joined_with tables join [] = []
joined_with tables join (j ∷ js) =
    extended
      (matching (λ r. equal_texts (cell join.column r) (cell join.other.1 (row_of join.other.0 j)))
        (tables join.table))
      join.alias j (joined_with tables join js)

unfoldable pub all_joins : Tables → List Join → List Joined → List Joined
unfolding joined_with
all_joins tables [] js = js
all_joins tables (join ∷ joins) js = all_joins tables joins (joined_with tables join js)

unfoldable pub selection : Tables → Select → List Joined
unfolding all_joins
selection tables q = all_joins tables q.joins (
    extended
      (matching (λ r. equal_texts (cell q.column r) (some (text q.argument))) (tables q.table))
      q.alias [] [])

abbrev cons_value : Option Value → Option (List Value) → Option (List Value)
cons_value (some v) (some vs) = some (v ∷ vs)
cons_value (some v) none = none
cons_value none vs = none

abbrev pub columns_of : Joined → List (String × String) → Option (List Value)
columns_of j [] = some []
columns_of j ((alias, c) ∷ rest) = cons_value (cell c (row_of alias j)) (columns_of j rest)

-- What `QueryRow` may answer to a query: that there is no row, or the columns of one of the rows, in
-- whatever order the database finds them.
pub data Answers (tables : Tables) (q : Select) : RowAnswer → Type 0 where
  nothing : selection tables q ≡ [] → Answers tables q no_rows
  one_of :
      (before : List Joined) (j : Joined) (after : List Joined) (values : List Value)
      → selection tables q ≡ before ++ j ∷ after
      → columns_of j q.columns ≡ some values
      → Answers tables q (row values)

-- The one row of an id, and no others.
pub matching-none :
    (keep : Row → Bool) (rs : List Row) → All (λ r. keep r ≡ false) rs → matching keep rs ≡ []
unfolding matching
matching-none keep [] h = refl
matching-none keep (r ∷ rs) h = rw h.0 (matching-none keep rs h.1)

pub matching-all :
    (keep : Row → Bool) (rs others : List Row)
    → All (λ r. keep r ≡ true) rs
    → All (λ r. keep r ≡ false) others
    → matching keep (rs ++ others) ≡ rs
unfolding matching
matching-all keep [] others h differ = matching-none keep others differ
matching-all keep (r ∷ rs) others h differ =
    rw h.0 (ap (◌∷◌ r) (matching-all keep rs others h.1 differ))

pub joined_with-one :
    (tables : Tables) (join : Join) (j : Joined) (rs others : List Row)
    → tables join.table ≡ rs ++ others
    → All
        (λ r. equal_texts (cell join.column r) (cell join.other.1 (row_of join.other.0 j)) ≡ true)
        rs
    → All
        (λ r. equal_texts (cell join.column r) (cell join.other.1 (row_of join.other.0 j)) ≡ false)
        others
    → joined_with tables join (j ∷ []) ≡ extended rs join.alias j []
unfolding joined_with
joined_with-one tables join j rs others stored match differ =
    ap
      (λ x.
        extended
          (matching
            (λ r. equal_texts (cell join.column r) (cell join.other.1 (row_of join.other.0 j))) x)
          join.alias j [])
      stored
    ∙ ap (λ x. extended x join.alias j []) (matching-all _ rs others match differ)

pub nil-ne-append :
    {A : Type 0} (before : List A) (a : A) (after : List A) → [] ≢ before ++ a ∷ after
nil-ne-append [] a after h = cc h
nil-ne-append (b ∷ before) a after h = cc h

pub extended-split :
    (rs : List Row) (alias : String) (e : Joined) (before : List Joined) (j : Joined)
    (after : List Joined)
    → extended rs alias e [] ≡ before ++ j ∷ after
    → (r : Row) × (j ≡ (alias, r) ∷ e)
unfolding extended
extended-split [] alias e [] j after h = absurd (cc h)
extended-split [] alias e (b ∷ before) j after h = absurd (cc h)
extended-split (r ∷ rs) alias e [] j after h = (r, cc h)
extended-split (r ∷ rs) alias e (b ∷ before) j after h =
    extended-split rs alias e before j after (cc h)
