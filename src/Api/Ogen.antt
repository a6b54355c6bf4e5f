-- ===== src/Api/Ogen.antt =====
-- What order_service/internal/api calls of the library ogen (and of `net/url` and `mime`), as
-- operations and the laws of those that the code relies on.
use l0_wb_tech_school.Base.{ℕ, ◌≤◌, ◌≡◌, ◌↔◌, ◌⊎◌, inl, Bool, true, false, Option, none, length}
use l0_wb_tech_school.Base.Int.{ℤ, ◌≤ℤ◌}
use l0_wb_tech_school.Base.Text.{Text, lit}

-- `validate.String`, whose `Hostname` is off and whose `Regex` is nil throughout.
pub record StringRule : Type 0 where
  pub min_length : ℕ
  pub min_length_set : Bool
  pub max_length : ℕ
  pub max_length_set : Bool
  pub email : Bool

-- `validate.Int`, whose bounds are inclusive and whose `MultipleOf` is not set throughout.
pub record IntRule : Type 0 where
  pub min_set : Bool
  pub min : ℤ
  pub max_set : Bool
  pub max : ℤ

pub record Ogen (E : Type 0) : Type 0 where
  -- The `Validate` methods: `none` is no error.
  pub check_string : StringRule → Text → Option E
  pub check_int : IntRule → ℤ → Option E
  -- `uri.NormalizeEscapedPath`, `none` where it does not succeed.
  pub normalize_escaped_path : Text → Option Text
  -- `url.PathUnescape`
  pub path_unescape : Text → Text ⊎ E
  -- `DecodeValue` of a simple path parameter, and `conv.ToString` behind it.
  pub decode_value : Text → Text ⊎ E
  -- `mime.ParseMediaType`: the type without its parameters.
  pub media_type : Text → Text ⊎ E

-- Lengths are counted in code points. The value of a simple path parameter is its text.
pub record IsOgen {E : Type 0} (ogen : Ogen E) : Type 0 where
  pub length_checked :
      (lo hi : ℕ) (s : Text)
      → (ogen.check_string
            (record {
              min_length = lo;
              min_length_set = true;
              max_length = hi;
              max_length_set = true;
              email = false;
            })
            s
          ≡ none)
        ↔ ((lo ≤ length s) × (length s ≤ hi))
  pub range_checked :
      (lo hi n : ℤ)
      → (ogen.check_int (record { min_set = true; min = lo; max_set = true; max = hi }) n ≡ none)
        ↔ ((lo ≤ℤ n) × (n ≤ℤ hi))
  pub simple_value : (s : Text) → ogen.decode_value s ≡ inl s
  pub json_type :
      ogen.media_type (lit "application/json; charset=utf-8") ≡ inl (lit "application/json")
