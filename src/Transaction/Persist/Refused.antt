-- ===== src/Transaction/Persist/Refused.antt =====
-- A command that its collection's rules refuse.
use gokvkit.Prelude.{◌≡◌, Str}
use gokvkit.Errors.Outcome.{ok}
use gokvkit.Errors.Exec.{Exec}
use gokvkit.Errors.Runs.{Runs}
use gokvkit.Model.Query.{Action}
use gokvkit.Model.Schema.{CollectionSchema}
use gokvkit.Kv.Interface.{KvLaws}
use gokvkit.Transaction.{Libs, Txn, Context}
use gokvkit.Transaction.Frame.{Frame, OnlyRead}
use gokvkit.Transaction.Queries.Unchanged.{Unchanged}
use gokvkit.Transaction.Evaluate.{check_authorized}

module _ (L : Libs) (laws : KvLaws L.kv) (reads : OnlyRead L laws) (gs : Str) where
  open L use {json, js}
  open json use {Doc}

  -- The authorization of the action fails, whatever state the script machine is in.
  abbrev pub IsRefused : Context → CollectionSchema → Action → Type 0
  IsRefused ctx c action = (t u : Txn L) → check_authorized L gs ctx c action t ≡ (ok tt, u) → ⊥
