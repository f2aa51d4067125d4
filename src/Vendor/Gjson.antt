-- ===== src/Vendor/Gjson.antt =====
-- github.com/tidwall/gjson, as schema.go uses it: results are parts of a JSON text.
use gokvkit.Prelude.{Str, Bool, List}
use gokvkit.Model.Value.{Value}

pub record Gjson : Type 1 where
  pub Result : Type 0
  -- ParseBytes, and the text of a result
  pub parse_bytes : Str → Result
  pub raw : Result → Str
  pub get : Result → Str → Result
  pub exists : Result → Bool
  pub to_string : Result → Str
  pub to_bool : Result → Bool
  pub value : Result → Value
  -- Map(), in the order in which a `range` visits it
  pub entries : Result → List (Str × Result)
  -- the path of a result within the text of the first one
  pub path : Result → Result → Str
