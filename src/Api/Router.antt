-- ===== src/Api/Router.antt =====
-- order_service/internal/api/oas_router_gen.go. Texts here are those of the path of a URL.
pub mod Paths
use l0_wb_tech_school.Base.{
  ℕ, zero, suc, ◌⊎◌, inl, inr, Bool, true, false, List, [], ◌∷◌, ◌++◌, Option, none, some, length,
  if◌then◌else◌, ◌==◌, nat_eq, ◌||◌, not,
}
use l0_wb_tech_school.Base.Text.{Text, lit, text_eq, text_beq}
use l0_wb_tech_school.Api.Ogen.{Ogen}

-- `url.URL`, as far as the router reads it.
pub record Url : Type 0 where
  pub path : Text
  pub raw_path : Text

-- `strings.HasPrefix(s, p)`
abbrev pub has_prefix : Text → Text → Bool
has_prefix s [] = true
has_prefix [] (c ∷ p) = false
has_prefix (d ∷ s) (c ∷ p) = if c == d then has_prefix s p else false

-- `s[l:]`
abbrev pub drop : ℕ → Text → Text
drop zero s = s
drop (suc l) [] = []
drop (suc l) (c ∷ s) = drop l s

-- `strings.ContainsRune(s, c)`, and `strings.IndexByte(s, c) >= 0`
abbrev pub contains : Text → ℕ → Bool
contains [] c = false
contains (d ∷ s) c = d == c || contains s c

abbrev pub slash : ℕ
slash = 0x2f

-- `cutPrefix`, whose second result is false where it is `none` here.
unfoldable pub cut_prefix : Text → Text → Option Text
cut_prefix prefix path =
    if text_beq prefix []
    then some path
    else if has_prefix path prefix
    then some (drop (length prefix) path)
    else none

-- The body of the outer switch: the parameter of the path, if it is that of the operation.
abbrev pub match_order : Text → Option Text
match_order [] = none
match_order (c ∷ elem) =
    if c == slash
    then if has_prefix (c ∷ elem) (lit "/order/")
      then if contains (drop 7 (c ∷ elem)) slash then none else some (drop 7 (c ∷ elem))
      else none
    else none

-- What `ServeHTTP` calls.
pub data Routed : Type 0 where
  handle_order_id_get : Text → Bool → Routed
  not_allowed : Text → Routed
  not_found : Routed

-- `Route`
pub record Route : Type 0 where
  pub name : Text
  pub summary : Text
  pub operation_id : Text
  pub path_pattern : Text
  pub count : ℕ
  pub args : Text

abbrev pub route_of : Text → Route
route_of arg = record {
  name = lit "OrderIDGet";
  summary = lit "Get order by ID";
  operation_id = [];
  path_pattern = lit "/order/{id}";
  count = 1;
  args = arg;
}

abbrev pub by_method : Text → Bool → Option Text → Routed
by_method method escaped none = not_found
by_method method escaped (some arg) =
    if text_beq method (lit "GET") then handle_order_id_get arg escaped else not_allowed (lit "GET")

abbrev pub served : Text → Bool → Option Text → Routed
served method escaped none = not_found
served method escaped (some elem) =
    if text_beq elem [] then not_found else by_method method escaped (match_order elem)

abbrev pub found_by_method : Text → Option Text → Option Route
found_by_method method none = none
found_by_method method (some arg) =
    if text_beq method (lit "GET") then some (route_of arg) else none

abbrev pub found : Text → Option Text → Option Route
found method none = none
found method (some elem) = found_by_method method (match_order elem)

module _ {E : Type 0} (ogen : Ogen E) where
  abbrev pub or_path : Text → Option Text → Text
  or_path path none = path
  or_path path (some normalized) = normalized

  -- The path that is matched, and `elemIsEscaped`.
  abbrev pub request_path : Url → Text
  request_path u =
      if text_beq u.raw_path []
      then u.path
      else or_path u.path (ogen.normalize_escaped_path u.raw_path)

  abbrev pub escaped_in : Option Text → Bool
  escaped_in none = false
  escaped_in (some normalized) = contains normalized 0x25

  abbrev pub is_escaped : Url → Bool
  is_escaped u =
      if text_beq u.raw_path [] then false else escaped_in (ogen.normalize_escaped_path u.raw_path)

  -- `ServeHTTP`
  unfoldable pub serve_http : Text → Text → Url → Routed
  serve_http prefix method u = served method (is_escaped u) (cut_prefix prefix (request_path u))

  abbrev pub or_arg : Text → Text ⊎ E → Text
  or_arg arg (inl unescaped) = unescaped
  or_arg arg (inr e) = arg

  -- The deferred loop of `FindPath` over the arguments.
  abbrev pub unescape_args : Option Route → Option Route
  unescape_args none = none
  unescape_args (some r) = some (record r { args = or_arg r.args (ogen.path_unescape r.args) })

  -- `FindPath`
  unfoldable pub find_path : Text → Text → Url → Option Route
  find_path prefix method u =
      let r = found method (cut_prefix prefix (request_path u)) in
      if text_beq u.raw_path [] then r else unescape_args r

  -- `FindRoute`
  unfoldable pub find_route : Text → Text → Text → Option Route
  find_route prefix method path = find_path prefix method (record { path = path; raw_path = [] })
