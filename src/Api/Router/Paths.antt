-- ===== src/Api/Router/Paths.antt =====
-- Which requests the router of order_service/internal/api/oas_router_gen.go hands to the operation.
use l0_wb_tech_school.Base.{
  ◌≡◌, refl, ap, subst, ◌∙◌, ◌↔◌, inl, inr, arith, Bool, true, false, [], ◌∷◌, ◌++◌, Option, none,
  some, length, if◌then◌else◌, ◌==◌, nat_eq, Bool-cases,
}
use l0_wb_tech_school.Base.Text.{Text, lit, text_beq, text_beq_iff}
use l0_wb_tech_school.Api.Ogen.{Ogen}
use l0_wb_tech_school.Api.Router.{
  Url, has_prefix, drop, contains, slash, cut_prefix, match_order, Routed, handle_order_id_get,
  not_allowed, not_found, Route, route_of, by_method, served, found_by_method, found, request_path,
  is_escaped, serve_http, unescape_args, find_path,
}

has_prefix-append : (p s : Text) → has_prefix (p ++ s) p ≡ true
has_prefix-append [] s = refl
has_prefix-append (c ∷ p) s = ground (arith, has_prefix-append p s)

drop-append : (p s : Text) → drop (length p) (p ++ s) ≡ s
drop-append [] s = refl
drop-append (c ∷ p) s = drop-append p s

append-drop : (p s : Text) → has_prefix s p ≡ true → s ≡ p ++ drop (length p) s
append-drop [] s h = refl
append-drop (c ∷ p) [] h = absurd (cc h)
append-drop (c ∷ p) (d ∷ s) h = ground (arith, append-drop p s)

cut_prefix_iff :
    (prefix path elem : Text) → (cut_prefix prefix path ≡ some elem) ↔ (path ≡ prefix ++ elem)
unfolding cut_prefix
cut_prefix_iff [] path elem = (λ h. cc, λ h. cc)
cut_prefix_iff (c ∷ prefix) path elem = (cut, back)
  where
    cut :
        (if has_prefix path (c ∷ prefix) then some (drop (length (c ∷ prefix)) path) else none)
          ≡ some elem
        → path ≡ (c ∷ prefix) ++ elem
    cut h = elim (Bool-cases (has_prefix path (c ∷ prefix))) [
      | inl fits ↦
          let e : drop (length (c ∷ prefix)) path ≡ elem = cc (rw fits at h) in
          append-drop (c ∷ prefix) path fits ∙ ap (◌++◌ (c ∷ prefix)) e
      | inr other ↦ absurd (cc (rw other at h))
    ]

    back :
        path ≡ (c ∷ prefix) ++ elem
        → (if has_prefix path (c ∷ prefix) then some (drop (length (c ∷ prefix)) path) else none)
          ≡ some elem
    back e =
        rw e (rw (has_prefix-append (c ∷ prefix) elem) (ap some (drop-append (c ∷ prefix) elem)))

abbrev pub order_path : Text
order_path = lit "/order/"

if_some :
    (b : Bool) (x : Option Text) (y : Text)
    → (if b then x else none) ≡ some y
    → (b ≡ true) × (x ≡ some y)
if_some true x y h = (refl, h)
if_some false x y h = absurd (cc h)

if_none : (b : Bool) (x y : Text) → (if b then none else some x) ≡ some y → (b ≡ false) × (x ≡ y)
if_none true x y h = absurd (cc h)
if_none false x y h = (refl, cc)

match_order_append :
    (id : Text) → contains id slash ≡ false → match_order (order_path ++ id) ≡ some id
match_order_append id h = rw h

-- The parts of what the operation's path matches.
match_order_parts :
    (elem id : Text)
    → match_order elem ≡ some id
    → (elem ≡ order_path ++ id) × (contains id slash ≡ false)
match_order_parts [] id h = absurd (cc h)
match_order_parts (c ∷ elem) id h =
    let (fits, leaf) =
      if_some (has_prefix (c ∷ elem) order_path) _ id (if_some (c == slash) _ id h).1 in
    let (leaf_only, e) = if_none (contains (drop 7 (c ∷ elem)) slash) (drop 7 (c ∷ elem)) id leaf in
    (
      append-drop order_path (c ∷ elem) fits ∙ ap (◌++◌ order_path) e,
      subst (λ (t : Text). contains t slash ≡ false) e leaf_only,
    )

-- An operation's path is never empty.
served_handle :
    (method : Text) (escaped : Bool) (elem id : Text) (esc : Bool)
    → served method escaped (some elem) ≡ handle_order_id_get id esc
    → (method ≡ lit "GET") × (escaped ≡ esc) × (match_order elem ≡ some id)
served_handle method escaped [] id esc h = absurd (cc h)
served_handle method escaped (c ∷ elem) id esc h = handled (match_order (c ∷ elem)) h
  where
    handled :
        (o : Option Text)
        → by_method method escaped o ≡ handle_order_id_get id esc
        → (method ≡ lit "GET") × (escaped ≡ esc) × (o ≡ some id)
    handled none k = absurd (cc k)
    handled (some arg) k = elim (Bool-cases (text_beq method (lit "GET"))) [
      | inl get ↦
          let same : handle_order_id_get arg escaped ≡ handle_order_id_get id esc = rw get at k in
          ((text_beq_iff method (lit "GET")).0 get, cc same, cc same)
      | inr other ↦ absurd (cc (rw other at k))
    ]

-- The route that a client of `FindPath` sees for what `ServeHTTP` does.
abbrev pub route_served : Routed → Option Route
route_served (handle_order_id_get id esc) = some (route_of id)
route_served (not_allowed allowed) = none
route_served not_found = none

module _ {E : Type 0} (ogen : Ogen E) (prefix method : Text) (u : Url) where
  -- A request is handed to the operation with the parameter `id` exactly if it is a GET request whose
  -- path, normalized where the URL has a raw path that can be, is the prefix of the server, then
  -- "/order/", then `id`, and `id` has no slash; the parameter counts as escaped exactly if the
  -- normalized path has a percent sign.
  pub serve_http_iff :
      (id : Text) (esc : Bool)
      → (serve_http ogen prefix method u ≡ handle_order_id_get id esc) ↔ (
          (method ≡ lit "GET")
          × (is_escaped ogen u ≡ esc)
          × (request_path ogen u ≡ prefix ++ (order_path ++ id))
          × (contains id slash ≡ false))
  unfolding serve_http
  serve_http_iff id esc = (
    there (cut_prefix prefix (request_path ogen u))
        (λ elem. cut_prefix_iff prefix (request_path ogen u) elem),
    back,
  )
    where
      there :
          (o : Option Text)
          → ((elem : Text) → (o ≡ some elem) ↔ (request_path ogen u ≡ prefix ++ elem))
          → served method (is_escaped ogen u) o ≡ handle_order_id_get id esc
          → (method ≡ lit "GET")
            × (is_escaped ogen u ≡ esc)
            × (request_path ogen u ≡ prefix ++ (order_path ++ id))
            × (contains id slash ≡ false)
      there none cut h = absurd (cc h)
      there (some elem) cut h =
          let (get, e, m) = served_handle method (is_escaped ogen u) elem id esc h in
          let (whole, leaf) = match_order_parts elem id m in
          (get, e, (cut elem).0 refl ∙ ap (◌++◌ prefix) whole, leaf)

      back :
          (method ≡ lit "GET")
            × (is_escaped ogen u ≡ esc)
            × (request_path ogen u ≡ prefix ++ (order_path ++ id))
            × (contains id slash ≡ false)
          → served method (is_escaped ogen u) (cut_prefix prefix (request_path ogen u))
            ≡ handle_order_id_get id esc
      back h =
          rw ((cut_prefix_iff prefix (request_path ogen u) (order_path ++ id)).1 h.2)
            (rw (h.3) (rw (h.0) (ap (handle_order_id_get id) h.1)))

  found-served :
      (escaped : Bool) (o : Option Text) → found method o ≡ route_served (served method escaped o)
  found-served escaped none = refl
  found-served escaped (some []) = refl
  found-served escaped (some (c ∷ elem)) = by_leaf (match_order (c ∷ elem))
    where
      by_leaf :
          (o : Option Text) → found_by_method method o ≡ route_served (by_method method escaped o)
      by_leaf none = refl
      by_leaf (some arg) = elim (Bool-cases (text_beq method (lit "GET"))) [
        | inl get ↦ rw get
        | inr other ↦ rw other
      ]

  -- `FindPath` finds a route exactly where `ServeHTTP` calls the operation, with the same parameter,
  -- of which it undoes the escapes, if it can, where the URL has a raw path.
  pub find_path-serve_http : find_path ogen prefix method u ≡ (
      if text_beq u.raw_path []
      then route_served (serve_http ogen prefix method u)
      else unescape_args ogen (route_served (serve_http ogen prefix method u)))
  unfolding find_path serve_http
  find_path-serve_http =
      rw (found-served (is_escaped ogen u) (cut_prefix prefix (request_path ogen u))) refl
