-- ===== src/Errors.antt =====
-- errors/errors.go. A message is the text that `fmt.Sprintf` made of its format and arguments.
pub mod Outcome
pub mod Exec
pub mod Gives
pub mod Runs
pub mod Wrapping
mod Tests
use gokvkit.Prelude.{ℕ, Str, Option, none, some, List, [], ◌∷◌, ◌++◌, ltb, is_empty, if◌then◌else◌}

-- HTTP status codes; 0 stands for "no code".
abbrev pub Code : Type 0
Code = ℕ

abbrev pub internal : Code
internal = 500

abbrev pub not_found : Code
not_found = 404

abbrev pub forbidden : Code
forbidden = 403

abbrev pub validation : Code
validation = 400

abbrev pub unauthorized : Code
unauthorized = 401

-- *Error: a code, the messages of the wrappers (oldest first), and the text of the cause.
pub record Error : Type 0 where
  pub code : Code
  pub messages : List Str
  pub err : Str

-- A value of Go's `error` that is not nil: this package's, or any other by its text.
pub data GoError : Type 0 where
  custom : Error → GoError
  foreign : Str → GoError

unfoldable pub remove_error : Error → Error
remove_error e = record { code = e.code; messages = e.messages; err = [] }

-- A nil error is `none`.
unfoldable pub extract : Option GoError → Option Error
extract none = none
extract (some (custom e)) = some e
extract (some (foreign s)) = some (record { code = 0; messages = []; err = s })

abbrev pub new : Code → Str → GoError
new code msg = custom (record { code = code; messages = []; err = msg })

abbrev pub add_message : List Str → Str → List Str
add_message messages msg = if is_empty msg then messages else messages ++ msg ∷ []

-- `marshal` is the JSON text of an error, which `Error()` returns.
module _ (marshal : Error → Str) where
  set_err : Error → Error
  set_err e = if is_empty e.err then record e { err = marshal e } else e

  set_code : Code → Error → Error
  set_code code e = if ltb 0 code then record e { code = code } else e

  -- The part of `Wrap` for an error that is not nil.
  unfoldable pub wrap_error : GoError → Code → Str → GoError
  unfolding set_err set_code
  wrap_error (custom e) code msg =
      custom (set_code code (set_err (record e { messages = add_message e.messages msg })))
  wrap_error (foreign s) code msg =
      custom (record { code = code; messages = add_message [] msg; err = s })

  unfoldable pub wrap : Option GoError → Code → Str → Option GoError
  wrap none code msg = none
  wrap (some e) code msg = some (wrap_error e code msg)
