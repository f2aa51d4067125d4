-- ===== src/DefaultDb/Streams.antt =====
-- ChangeStream of db.go: the change records of a collection as they are committed.
pub mod HandOver
mod Tests
use gokvkit.Prelude.{Str, str, Bool, true, not, ◌&&◌, ◌||◌, ◌==◌, List, none, some, if◌then◌else◌}
use gokvkit.Errors.{new, internal, validation, forbidden}
use gokvkit.Errors.Outcome.{Outcome, ok, fail, panic, ◌>>=◌ as bind}
use gokvkit.Errors.Exec.{Exec, pure, lift, ◌>>=◌, ◌>>◌}
use gokvkit.Model.Query.{Where}
use gokvkit.Authorization.{authorize_change_stream}
use gokvkit.Document.{new_document_from_bytes, where_clauses}
use gokvkit.Indexing.{index_prefix}
use gokvkit.Kv.BadgerTx.{Change}
use gokvkit.Loading.{Loaded}
use gokvkit.Transaction.{Context, Cdc}
use gokvkit.Transaction.Evaluate.{request}
use gokvkit.Transaction.Persist.{cdc_collection}
use gokvkit.Transaction.Scan.{select_where}
use gokvkit.DefaultDb.{Env, DbState, get_schema, has_collection}
use gokvkit.DefaultDb.Plan.{wrapped_as, not_nil}

module _ (E : Env) where
  open E use {libs, tools, global_scripts}

  -- authorizeChangeStream, on a machine of the pool
  abbrev pub authorize_stream : Context → List Where → Loaded tools → Outcome Bool
  authorize_stream ctx filter c =
      (authorize_change_stream libs.lo libs.js libs.marshal global_scripts
        (request libs global_scripts ctx c.schema (select_where filter 0)) c.schema E.vm).0

  -- What is checked before
  unfoldable pub may_stream : Context → Str → List Where → DbState E → Outcome (Unit {0})
  may_stream ctx collection filter s =
      if not (collection == str "*") && not (has_collection E collection s)
      then fail (new validation (str "collection does not exist"))
      else if (collection == str "*") && ctx.is_internal
      then ok tt
      else if not (has_collection E collection s)
      then fail (new validation (str "collection does not exist"))
      else elim (get_schema E collection s) [
        | none ↦ panic
        | some c ↦
            bind {0, 0} (authorize_stream ctx filter c)
              λ pass. if not pass then fail (new forbidden (str "not authorized")) else ok tt
      ]

  abbrev pub stream_prefix : Context → Str
  stream_prefix ctx = index_prefix ctx.namespace cdc_collection (str "_id.primaryidx")

module _ {S : Type 0} (E : Env) where
  open E use {libs}

  -- The function that is called with each change of the store
  unfoldable pub change_message : Str → List Where → (Cdc → Exec S Bool) → Change → Exec S Bool
  unfolding not_nil
  change_message collection filter fn c = do
    d ← lift (not_nil E (new_document_from_bytes libs.json c.value))
    pass ← lift (where_clauses libs.lo libs.json libs.cast libs.matches filter d)
    if not pass then pure true else do
      e ← lift (wrapped_as E internal (str "failed to unmarshal cdc") (libs.decode_cdc d))
      if (e.collection == collection) || (collection == str "*") then fn e else pure true

  -- ChangeStream over that of a store
  unfoldable pub db_change_stream :
      (Str → (Change → Exec S Bool) → Exec S (Unit {0}))
      → Context
      → Str
      → List Where
      → (Cdc → Exec S Bool)
      → DbState E
      → Exec S (Unit {0})
  unfolding may_stream change_message
  db_change_stream stream ctx collection filter fn s =
      lift (may_stream E ctx collection filter s)
      >> stream (stream_prefix E ctx) (change_message collection filter fn)
