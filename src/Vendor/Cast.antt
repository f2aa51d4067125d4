-- ===== src/Vendor/Cast.antt =====
-- github.com/spf13/cast, and json.Marshal of a value (`util.JSONString`). A float64 is given by its
-- bits; its order and equality are Go's.
use gokvkit.Prelude.{ℕ, Str, Bool, List}
use gokvkit.Model.Value.{Value}

pub record Cast : Type 0 where
  pub to_string : Value → Str
  pub to_string_slice : Value → List Str
  pub to_bool : Value → Bool
  pub to_uint64 : Value → ℕ
  pub to_float64 : Value → ℕ
  pub json_string : Value → Str
  -- a < b, a <= b and a == b at float64
  pub float_lt : ℕ → ℕ → Bool
  pub float_le : ℕ → ℕ → Bool
  pub float_eq : ℕ → ℕ → Bool
  -- a + b at float64, and the constants 0 and 1
  pub float_add : ℕ → ℕ → ℕ
  pub float_zero : ℕ
  pub float_one : ℕ
