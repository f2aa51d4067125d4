-- ===== src/Vendor/Js.antt =====
-- github.com/dop251/goja: a JavaScript machine. A run may change the machine and may fail.
use gokvkit.Prelude.{Str, Bool}
use gokvkit.Errors.Outcome.{Outcome}
use gokvkit.Model.Value.{Value}

pub record Js : Type 1 where
  pub Vm : Type 0
  -- a Go value that is handed to the machine
  pub Object : Type 0
  -- vm.Set
  pub set : Str → Object → Vm → Outcome (Unit {0}) × Vm
  -- vm.RunString; the value is what `Export()` gives
  pub run_string : Str → Vm → Outcome Value × Vm
  -- ToBoolean
  pub to_boolean : Value → Bool
