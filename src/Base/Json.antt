-- ===== src/Base/Json.antt =====
-- What the sources use of `serde_json::Value`: the variant of a value, and access to its parts.
use mathlib.Core.Bool.{Bool}
use mathlib.Core.Option.{Option, none, some}
use unicity_aos.Base.Text.{Text}

-- The variants that the code matches on. A number carries the text that `to_string` gives.
pub data Shape : Type 0 where
  null array object : Shape
  bool : Bool → Shape
  number string : Text → Shape

pub record Json (Value : Type 0) : Type 0 where
  pub shape : Value → Shape
  pub pointer : Value → Text → Option Value
  pub get : Value → Text → Option Value
  pub from_str : Text → Option Value
  pub null_value : Value
  pub string_value : Text → Value

-- `Value::as_str`.
unfoldable pub as_str : Shape → Option Text
as_str (Shape.string s) = some s
as_str _ = none
