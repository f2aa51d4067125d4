-- ===== src/Kv/Streams.antt =====
-- ChangeStream of kv/badger/badger.go and kv/tikv/tikv.go: how the changes that a subscription receives
-- are handed over.
use gokvkit.Prelude.{
  Str, str, Bool, true, List, [], ◌∷◌, Option, none, some, has_prefix, if◌then◌else◌,
}
use gokvkit.Errors.{new, internal}
use gokvkit.Errors.Exec.{Exec, pure, raise, ◌>>=◌}
use gokvkit.Kv.BadgerTx.{Change}

module _ {S : Type 0} where
  -- What Badger's subscription runs for a message, which is `none` if its body is not a change; the result
  -- tells the subscription whether to go on.
  unfoldable pub badger_message : Str → (Change → Exec S Bool) → Option Change → Exec S Bool
  badger_message prefix fn none = raise (new internal (str "invalid cdc"))
  badger_message prefix fn (some c) = if has_prefix c.key prefix then fn c else pure true

  -- The loop over the payloads that Redis sends before the context is cancelled
  unfoldable pub tikv_stream :
      (Str → Change) → Str → (Change → Exec S Bool) → List Str → Exec S (Unit {0})
  tikv_stream decode prefix fn [] = pure tt
  tikv_stream decode prefix fn (m ∷ ms) =
      let rest = tikv_stream decode prefix fn ms in
      if has_prefix (decode m).key prefix
      then (fn (decode m) >>= λ contn. if contn then rest else pure tt)
      else rest
