-- ===== src/Transaction/Persist.antt =====
-- persistCommand of tx_util.go.
pub mod Writing
pub mod Indexes
pub mod Refused
pub mod Log
pub mod Recorded
mod Tests
use gokvkit.Prelude.{
  ℕ, zero, suc, nat_eq, Str, str, true, not, ◌&&◌, List, [], ◌∷◌, ◌++◌, ◌==◌, Option, none, some,
  lookup, if◌then◌else◌,
}
use gokvkit.Errors.{foreign, new, internal, forbidden}
use gokvkit.Errors.Outcome.{panic}
use gokvkit.Errors.Exec.{Exec, pure, raise, lift, modify, ◌>>=◌, ◌>>◌}
use gokvkit.Model.Query.{Action, create, set, update, delete}
use gokvkit.Model.Schema.{CollectionSchema, Index}
use gokvkit.Document.Ops.{diff}
use gokvkit.Transaction.Documents.{update_document, delete_document, create_document, set_document}
use gokvkit.Transaction.SecondaryIndex.{update_secondary_index}
use gokvkit.Transaction.Evaluate.{evaluate}
use gokvkit.Transaction.Scan.{get_document}
use gokvkit.Transaction.{
  Libs, Txn, Cdc, Database, Context, wrapping, attempt, remember, forget, docs_key, new_id,
  get_primary_key,
}
use gokvkit.Transaction.Cascade.{Command, new_document_from, cascade_delete}

abbrev pub cdc_collection : Str
cdc_collection = str "system_cdc"

-- context.WithValue(ctx, internalKey, true)
abbrev pub as_internal : Context → Context
as_internal ctx = record ctx { is_internal = true }

-- `if command.Timestamp == 0`
abbrev pub stamp : Context → ℕ → ℕ
stamp ctx timestamp = if nat_eq timestamp 0 then ctx.now else timestamp

module _ (L : Libs) where
  open L use {json}
  open json use {Doc}

  -- The loops over the indexes: all, and those that are not primary.
  unfoldable pub update_indexes :
      Action
      → Database L
      → Context
      → Str
      → List Index
      → Str
      → Option Doc
      → Doc
      → Exec (Txn L) (Unit {0})
  update_indexes action db ctx collection [] id before d = pure tt
  update_indexes action db ctx collection (i ∷ is) id before d = do
    wrapping L 0 (str "failed to update secondary index")
        (update_secondary_index L action db ctx collection i id before d)
    update_indexes action db ctx collection is id before d

  unfoldable pub rebuild_indexes :
      Action
      → Database L
      → Context
      → Str
      → List Index
      → Str
      → Option Doc
      → Doc
      → Exec (Txn L) (Unit {0})
  rebuild_indexes action db ctx collection [] id before d = pure tt
  rebuild_indexes action db ctx collection (i ∷ is) id before d =
      let rest = rebuild_indexes action db ctx collection is id before d in
      if i.primary
      then rest
      else (wrapping L internal [] (update_secondary_index L action db ctx collection i id before d)
          >> rest)

  -- `persist` is persistCommand, for the commands that a command gives rise to.
  module _ (persist : Context → Command L → Exec (Txn L) Doc) (db : Database L) where
    -- The switch over the actions; the document is the command's, as it is then.
    unfoldable pub apply_action :
        Action → Context → CollectionSchema → Str → Option Doc → Command L → Exec (Txn L) Doc
    unfolding cascade_delete
    apply_action update ctx c id before cmd =
        if c.immutable then raise (new forbidden (str "tx: collection is immutable")) else do
          d ← update_document L ctx c id before cmd.document
          modify (remember L (docs_key cmd.collection id))
          pure d
    apply_action create ctx c id before cmd = do
      d ← create_document L ctx c cmd.document
      modify (remember L (docs_key cmd.collection id))
      pure d
    apply_action delete ctx c id before cmd = do
      delete_document L ctx c id
      cascade_delete L persist db ctx c cmd
      modify (forget L (docs_key cmd.collection id))
      pure cmd.document
    apply_action set ctx c id before cmd = do
      d ← set_document L ctx c id before cmd.document
      modify (remember L (docs_key cmd.collection id))
      pure d
    apply_action _ ctx c id before cmd = raise (foreign (str "tx: unsupported action"))

    -- The change record of a command that has been carried out
    unfoldable pub change_of : CollectionSchema → Command L → Option Doc → Str → Cdc
    change_of c cmd before id = record {
      id = id;
      collection = cmd.collection;
      action = cmd.action;
      document_id = get_primary_key L c cmd.document;
      diff = diff json cmd.document before;
      timestamp = cmd.timestamp;
    }

    unfoldable pub append_cdc : Cdc → Txn L → Txn L
    append_cdc e t = record t { cdc = t.cdc ++ e ∷ [] }

    unfoldable pub record_change :
        Context → CollectionSchema → Command L → Option Doc → Exec (Txn L) (Unit {0})
    unfolding change_of append_cdc new_document_from
    record_change ctx c cmd before = if cmd.collection == cdc_collection then pure tt else do
      id ← new_id L
      let e = change_of c cmd before id
      d ←
          wrapping L internal (str "failed to persist cdc")
            (lift (new_document_from json (L.marshal_cdc e)))
      wrapping L internal (str "failed to persist cdc") (
          persist (as_internal ctx) (record {
            collection = str "system_cdc";
            action = create;
            document = d;
            timestamp = cmd.timestamp;
          }))
      modify (append_cdc e)

module _ (L : Libs) (global_scripts : Str) where
  open L use {json}
  open json use {Doc}

  module _ (persist : Context → Command L → Exec (Txn L) Doc) (db : Database L) where
    -- The command after the schema was found. An indexing context only writes index entries.
    unfoldable pub persist_into : Context → CollectionSchema → Command L → Exec (Txn L) Doc
    unfolding apply_action record_change update_indexes rebuild_indexes
    persist_into ctx c cmd = do
      let id = get_primary_key L c cmd.document
      lift (L.valid_schema c)
      before ← attempt L (get_document L db ctx cmd.collection id)
      if ctx.is_indexing
          then (do
            rebuild_indexes L cmd.action db ctx cmd.collection c.indexing id before cmd.document
            pure cmd.document)
          else do
            d ← evaluate L global_scripts ctx c cmd.action cmd.document
            d' ← apply_action L persist db cmd.action ctx c id before (record cmd { document = d })
            update_indexes L cmd.action db ctx cmd.collection c.indexing id before d'
            record_change L persist db ctx c
                (record cmd { document = d'; timestamp = stamp ctx cmd.timestamp }) before
            pure d'

    unfoldable pub persist_command : Context → Command L → Exec (Txn L) Doc
    unfolding persist_into
    persist_command ctx cmd = elim (lookup cmd.collection db.collections) [
      | none ↦ raise (foreign (str "tx: collection does not exist"))
      | some c ↦
          if c.read_only && not ctx.is_internal
          then raise (foreign (str "tx: collection is read only"))
          else persist_into ctx c cmd
    ]

  -- A command whose own commands are at most this deep; past the bound it panics.
  unfoldable pub run_persist : ℕ → Database L → Context → Command L → Exec (Txn L) Doc
  unfolding persist_command
  run_persist zero db ctx cmd = lift panic
  run_persist (suc n) db ctx cmd = persist_command (run_persist n db) db ctx cmd
