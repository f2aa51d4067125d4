-- ===== src/Model/Value.antt =====
-- The values that Go's `any` holds in this program: what gjson's `Result.Value()` returns, and the
-- integers and string slices that callers put in a where clause.
use gokvkit.Prelude.{ℕ, Str, Bool, true, false, not, List, str, ◌==◌, nat_eq, if◌then◌else◌}
use gokvkit.Errors.Outcome.{Outcome, ok, panic}

pub data Value : Type 0 where
  -- nil
  null : Value
  boolean : Bool → Value
  text : Str → Value
  -- the bits of a float64
  float : ℕ → Value
  -- the bits of an int64 (also an int)
  integer : ℕ → Value
  -- []string, []any and map[string]any; the last two by their JSON text
  strings : List Str → Value
  array : Str → Value
  object : Str → Value

abbrev pub is_null : Value → Bool
is_null null = true
is_null _ = false

-- `w.Value == "null"`
abbrev pub is_null_text : Value → Bool
is_null_text (text s) = s == str "null"
is_null_text _ = false

-- Go's `==` on two values of type `any`: false at two types, and a panic at two slices or two maps.
unfoldable pub any_eq : (ℕ → ℕ → Bool) → Value → Value → Outcome Bool
any_eq float_eq null null = ok true
any_eq float_eq (boolean a) (boolean b) = ok (if a then b else not b)
any_eq float_eq (text a) (text b) = ok (a == b)
any_eq float_eq (float a) (float b) = ok (float_eq a b)
any_eq float_eq (integer a) (integer b) = ok (nat_eq a b)
any_eq float_eq (strings a) (strings b) = panic
any_eq float_eq (array a) (array b) = panic
any_eq float_eq (object a) (object b) = panic
any_eq float_eq _ _ = ok false
