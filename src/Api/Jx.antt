-- ===== src/Api/Jx.antt =====
-- The JSON library jx, as order_service/internal/api calls it: what a decoder stands before and
-- what an encoder has written is a value of `V`. The operations return what the Go calls return, a
-- value together with an error where there is one.
use l0_wb_tech_school.Base.{◌≡◌, Bool, true, List, Option, none}
use l0_wb_tech_school.Base.Int.{ℤ}
use l0_wb_tech_school.Base.Text.{Text}
use l0_wb_tech_school.Models.{Time}

-- `Body` is a text of bytes, and `E` an error of jx.
pub record Jx (V E Body : Type 0) : Type 0 where
  -- Of an encoder: `Str`, `Int`, `Int64`, `json.EncodeDateTime`, and the values between `ObjStart` and
  -- `ObjEnd` (each behind its `FieldStart`) and between `ArrStart` and `ArrEnd`; `Bytes`.
  pub str : Text → V
  pub int : ℤ → V
  pub int64 : ℤ → V
  pub date_time : Time → V
  pub object : List (Text × V) → V
  pub array : List V → V
  pub bytes : V → Body
  -- Of a decoder: `DecodeBytes`, `Str`, `Int`, `Int64`, `json.DecodeDateTime` and `Skip`; the fields
  -- that `ObjBytes` calls back with and the elements that `Arr` does, in the order of the text, with
  -- the error on which it ends if every call back succeeds.
  pub decode_bytes : Body → V
  pub read_str : V → Text × Option E
  pub read_int : V → ℤ × Option E
  pub read_int64 : V → ℤ × Option E
  pub read_date_time : V → Time × Option E
  pub skip : V → Option E
  pub fields : V → List (Text × V) × Option E
  pub elems : V → List V × Option E
  -- `Skip` behind the value returns `io.EOF`: nothing follows it.
  pub at_end : Body → Bool

-- A decoder reads what an encoder wrote. A date is written to the second, `to_second`.
pub record IsJx {V E Body : Type 0} (jx : Jx V E Body) (to_second : Time → Time) : Type 0 where
  pub str_back : (s : Text) → jx.read_str (jx.str s) ≡ (s, none)
  pub int_back : (n : ℤ) → jx.read_int (jx.int n) ≡ (n, none)
  pub int64_back : (n : ℤ) → jx.read_int64 (jx.int64 n) ≡ (n, none)
  pub date_time_back : (t : Time) → jx.read_date_time (jx.date_time t) ≡ (to_second t, none)
  pub object_back : (fs : List (Text × V)) → jx.fields (jx.object fs) ≡ (fs, none)
  pub array_back : (vs : List V) → jx.elems (jx.array vs) ≡ (vs, none)
  pub bytes_back : (v : V) → jx.decode_bytes (jx.bytes v) ≡ v
  pub bytes_end : (v : V) → jx.at_end (jx.bytes v) ≡ true
