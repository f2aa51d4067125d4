-- ===== src/Vendor/Documents.antt =====
-- A conversion library and a document library for the tests and the witnesses: a document is the
-- association list of its fields, without nesting.
use gokvkit.Prelude.{
  ℕ, Str, str, Bool, true, false, ◌==◌, List, [], ◌∷◌, Option, none, some, lookup, put, without,
  ltb, leb, nat_eq, ◌+◌,
}
use gokvkit.Errors.Outcome.{ok}
use gokvkit.Model.Value.{Value, null, boolean, text, float, integer, strings}
use gokvkit.Vendor.Cast.{Cast}
use gokvkit.Vendor.Json.{Json}

abbrev sample_to_string : Value → Str
sample_to_string (text s) = s
sample_to_string (integer n) = n ∷ []
sample_to_string _ = []

abbrev sample_to_string_slice : Value → List Str
sample_to_string_slice (strings xs) = xs
sample_to_string_slice _ = []

abbrev sample_to_number : Value → ℕ
sample_to_number (integer n) = n
sample_to_number (float n) = n
sample_to_number _ = 0

abbrev sample_to_bool : Value → Bool
sample_to_bool (boolean b) = b
sample_to_bool _ = false

abbrev pub sample_cast : Cast
sample_cast = record {
  to_string = sample_to_string;
  to_string_slice = sample_to_string_slice;
  to_bool = sample_to_bool;
  to_uint64 = sample_to_number;
  to_float64 = sample_to_number;
  json_string = sample_to_string;
  float_lt = ltb;
  float_le = leb;
  float_eq = nat_eq;
  float_add = λ a b. a + b;
  float_zero = 0;
  float_one = 1;
}

abbrev Fields : Type 0
Fields = List (Str × Value)

abbrev keys : Fields → List Str
keys [] = []
keys ((k, v) ∷ vs) = k ∷ keys vs

abbrev is_some : Option Value → Bool
is_some none = false
is_some (some v) = true

abbrev or_null : Option Value → Value
or_null none = null
or_null (some v) = v

-- The text of a document holds its first field only; it is compared in `Diff` and nowhere read.
abbrev raw_text : Fields → Str
raw_text [] = str "{}"
raw_text ((k, v) ∷ vs) = sample_to_string v

abbrev pub sample_json : Json
sample_json = record {
  Doc = Fields;
  empty = [];
  valid_bytes = λ s. true;
  parse = λ s. (str "_id", text s) ∷ [];
  is_array = λ d. false;
  raw = raw_text;
  exists = λ d p. is_some (lookup p d);
  value_at = λ d p. or_null (lookup p d);
  set = λ p v d. ok (put p v d);
  delete = λ p d. ok (without p d);
  value = λ d. d;
  flatten = λ vs. ok vs;
  field_paths = keys;
  array_values = λ v. v ∷ [];
  deep_equal = λ a b. sample_to_string a == sample_to_string b;
}
