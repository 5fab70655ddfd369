-- ===== src/Values.antt =====
-- Python values of any type, as they stand in request bodies, in `policy_overrides` and in the
-- argument of `TenantRegistry.update`, and Python's conversions of them.
use veronica.Prelude.{if◌then◌else◌, String, Bool, true, false, Option}
use veronica.Prelude.Int.{ℤ, pos}
use veronica.Prelude.Result.{Result, ok, err, type_error, value_error, overflow_error, or_raise}
use veronica.Prelude.Dict.{Dict}
use veronica.Float.{Float, fits_float}

-- `other` is any value of a type that the code does not test for.
pub data Value (F : Type 0) : Type 0 where
  null : Value F
  boolean : Bool → Value F
  int : ℤ → Value F
  float : F → Value F
  text : String → Value F
  other : Value F

-- A value that may be a `dict`.
pub data Argument (F : Type 0) : Type 0 where
  plain : Value F → Argument F
  mapping : Dict (Value F) → Argument F

-- What the language does with texts and with values that are not integers: `str`, the parsing
-- of `float` and `int`, which may fail, and `str.strip`.
pub record Conversions (F : Type 0) : Type 0 where
  pub show : Value F → String
  pub parse_float : String → Option F
  pub parse_int : String → Option ℤ
  pub truncate : F → Option ℤ
  pub strip : String → String

abbrev pub of_bool : Bool → ℤ
of_bool true = pos 1
of_bool false = pos 0

module _ {F : Type 0} ⦃fl : Float F⦄ ⦃conv : Conversions F⦄ where
  -- str(v)
  abbrev pub to_str : Value F → String
  to_str (text s) = s
  to_str v = conv.show v

  -- float(v)
  abbrev pub to_float : Value F → Result F
  to_float (float x) = ok x
  to_float (int n) = if fits_float n then ok (fl.of_int n) else err overflow_error
  to_float (boolean b) = ok (fl.of_int (of_bool b))
  to_float (text s) = or_raise (conv.parse_float s) value_error
  to_float _ = err type_error

  -- int(v)
  abbrev pub to_int : Value F → Result ℤ
  to_int (int n) = ok n
  to_int (boolean b) = ok (of_bool b)
  to_int (float x) = or_raise (conv.truncate x) value_error
  to_int (text s) = or_raise (conv.parse_int s) value_error
  to_int _ = err type_error
