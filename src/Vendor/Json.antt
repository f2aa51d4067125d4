-- ===== src/Vendor/Json.antt =====
-- github.com/tidwall/gjson and sjson, github.com/nqd/flat and encoding/json, as document.go uses
-- them: `Doc` is the parsed JSON text that a `Document` holds.
use gokvkit.Prelude.{Str, Bool, List}
use gokvkit.Errors.Outcome.{Outcome}
use gokvkit.Model.Value.{Value}

pub record Json : Type 1 where
  pub Doc : Type 0
  -- gjson.Parse("{}")
  pub empty : Doc
  -- gjson.ValidBytes, and whether the text is an array
  pub valid_bytes : Str → Bool
  pub parse : Str → Doc
  pub is_array : Doc → Bool
  -- result.Raw
  pub raw : Doc → Str
  -- result.Get(path).Exists() and result.Get(path).Value()
  pub exists : Doc → Str → Bool
  pub value_at : Doc → Str → Value
  -- sjson.SetBytesOptions and sjson.Delete, parsed again
  pub set : Str → Value → Doc → Outcome Doc
  pub delete : Str → Doc → Outcome Doc
  -- cast.ToStringMap(result.Value()), and flat.Flatten
  pub value : Doc → List (Str × Value)
  pub flatten : List (Str × Value) → Outcome (List (Str × Value))
  -- the paths of the leaves, as `FieldPaths` collects them by gjson's ForEach and Path
  pub field_paths : Doc → List Str
  -- the elements of a value that was marshalled and parsed as an array
  pub array_values : Value → List Value
  -- reflect.DeepEqual of two values
  pub deep_equal : Value → Value → Bool
