-- ===== src/Tests/Json.antt =====
-- A JSON library and the rules of ogen, to run and instantiate the theorems on the generated API.
use l0_wb_tech_school.Base.{
  ℕ, ◌-◌, ◌%◌, ◌^◌, ◌≤◌, ◌≡◌, refl, ap, ◌↔◌, inl, arith, Bool, true, false, ◌&&◌, ◌||◌, not, List,
  [], ◌∷◌, Option, none, some, length, leb, if◌then◌else◌,
}
use l0_wb_tech_school.Base.Int.{ℤ, pos, negsuc, ◌≤ℤ◌, leb_ℤ}
use l0_wb_tech_school.Base.Text.{Text, lit, text_beq}
use l0_wb_tech_school.Models.{Time}
use l0_wb_tech_school.Api.Jx.{Jx, IsJx}
use l0_wb_tech_school.Api.Ogen.{StringRule, IntRule, Ogen, IsOgen}
use l0_wb_tech_school.Api.Router.{contains}

mutual
  pub data Json : Type 0 where
    str : Text → Json
    num : ℤ → Json
    obj : Fields → Json
    arr : Elems → Json

  pub data Fields : Type 0 where
    end : Fields
    field : Text → Json → Fields → Fields

  pub data Elems : Type 0 where
    nil : Elems
    cons : Json → Elems → Elems

abbrev to_fields : List (Text × Json) → Fields
to_fields [] = end
to_fields ((k, v) ∷ fs) = field k v (to_fields fs)

abbrev of_fields : Fields → List (Text × Json)
of_fields end = []
of_fields (field k v fs) = (k, v) ∷ of_fields fs

abbrev to_elems : List Json → Elems
to_elems [] = nil
to_elems (v ∷ vs) = cons v (to_elems vs)

abbrev of_elems : Elems → List Json
of_elems nil = []
of_elems (cons v vs) = v ∷ of_elems vs

of_fields-to_fields : (fs : List (Text × Json)) → of_fields (to_fields fs) ≡ fs
of_fields-to_fields [] = refl
of_fields-to_fields ((k, v) ∷ fs) = ap (◌∷◌ (k, v)) (of_fields-to_fields fs)

of_elems-to_elems : (vs : List Json) → of_elems (to_elems vs) ≡ vs
of_elems-to_elems [] = refl
of_elems-to_elems (v ∷ vs) = ap (◌∷◌ v) (of_elems-to_elems vs)

abbrev pub whole_second : Time → Time
whole_second (pos n) = pos (n - n % 10 ^ 9)
whole_second (negsuc n) = negsuc n

abbrev get_str : Json → Text × Option Text
get_str (str s) = (s, none)
get_str v = ([], some (lit "a string"))

abbrev get_num : Json → ℤ × Option Text
get_num (num n) = (n, none)
get_num v = (pos 0, some (lit "a number"))

abbrev get_fields : Json → List (Text × Json) × Option Text
get_fields (obj fs) = (of_fields fs, none)
get_fields v = ([], some (lit "an object"))

abbrev get_elems : Json → List Json × Option Text
get_elems (arr vs) = (of_elems vs, none)
get_elems v = ([], some (lit "an array"))

abbrev pub trees : Jx Json Text Json
trees = record {
  str = str;
  int = num;
  int64 = num;
  date_time = λ t. num (whole_second t);
  object = λ fs. obj (to_fields fs);
  array = λ vs. arr (to_elems vs);
  bytes = λ v. v;
  decode_bytes = λ v. v;
  read_str = get_str;
  read_int = get_num;
  read_int64 = get_num;
  read_date_time = get_num;
  skip = λ v. none;
  fields = get_fields;
  elems = get_elems;
  at_end = λ v. true;
}

pub trees-IsJx : IsJx trees whole_second
trees-IsJx = record {
  str_back = λ s. refl;
  int_back = λ n. refl;
  int64_back = λ n. refl;
  date_time_back = λ t. refl;
  object_back = λ fs. ap (λ (gs : List (Text × Json)). (gs, none)) (of_fields-to_fields fs);
  array_back = λ vs. ap (λ (ws : List Json). (ws, none)) (of_elems-to_elems vs);
  bytes_back = λ v. refl;
  bytes_end = λ v. refl;
}

abbrev fails : Bool → Option Text
fails ok = if ok then none else some (lit "refused")

abbrev within : StringRule → Text → Bool
within rule s =
    (not rule.min_length_set || leb rule.min_length (length s))
    && (not rule.max_length_set || leb (length s) rule.max_length)
    && (not rule.email || contains s 0x40)

abbrev between : IntRule → ℤ → Bool
between rule n = (not rule.min_set || leb_ℤ rule.min n) && (not rule.max_set || leb_ℤ n rule.max)

abbrev pub rules : Ogen Text
rules = record {
  check_string = λ rule s. fails (within rule s);
  check_int = λ rule n. fails (between rule n);
  normalize_escaped_path = λ path. some path;
  path_unescape = λ s. inl s;
  decode_value = λ s. inl s;
  media_type = λ s.
      inl
        (if text_beq s (lit "application/json; charset=utf-8") then lit "application/json" else s);
}

leb_ℤ_iff : (a b : ℤ) → (leb_ℤ a b ≡ true) ↔ (a ≤ℤ b)
leb_ℤ_iff (pos a) (pos b) = ground arith
leb_ℤ_iff (pos a) (negsuc b) = ground arith
leb_ℤ_iff (negsuc a) (pos b) = ground arith
leb_ℤ_iff (negsuc a) (negsuc b) = ground arith

fails_iff : (b : Bool) → (fails b ≡ none) ↔ (b ≡ true)
fails_iff true = (λ h. refl, λ h. refl)
fails_iff false = (λ h. cc, λ h. cc)

and_iff : (a b : Bool) → ((a && b) ≡ true) ↔ ((a ≡ true) × (b ≡ true))
and_iff true true = (λ h. (refl, refl), λ h. refl)
and_iff true false = (λ h. absurd (cc h), λ h. absurd (cc (h.1)))
and_iff false b = (λ h. absurd (cc h), λ h. absurd (cc (h.0)))

in_bounds_iff : (lo hi n : ℕ) → (((leb lo n && leb n hi) && true) ≡ true) ↔ ((lo ≤ n) × (n ≤ hi))
in_bounds_iff lo hi n = ground arith

in_range_iff : (lo hi n : ℤ) → ((leb_ℤ lo n && leb_ℤ n hi) ≡ true) ↔ ((lo ≤ℤ n) × (n ≤ℤ hi))
in_range_iff lo hi n =
    let both = and_iff (leb_ℤ lo n) (leb_ℤ n hi) in
    let low = leb_ℤ_iff lo n in
    let high = leb_ℤ_iff n hi in
    (λ h. (low.0 (both.0 h).0, high.0 (both.0 h).1), λ h. both.1 (low.1 h.0, high.1 h.1))

pub rules-IsOgen : IsOgen rules
rules-IsOgen = record {
  length_checked = λ lo hi s. (
    λ h. (in_bounds_iff lo hi (length s)).0 ((fails_iff _).0 h),
    λ h. (fails_iff _).1 ((in_bounds_iff lo hi (length s)).1 h),
  );
  range_checked = λ lo hi n. (
    λ h. (in_range_iff lo hi n).0 ((fails_iff _).0 h),
    λ h. (fails_iff _).1 ((in_range_iff lo hi n).1 h),
  );
  simple_value = λ s. refl;
  json_type = refl;
}
