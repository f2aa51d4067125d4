-- ===== src/Transaction/Commands.antt =====
-- The operations of tx.go that change documents, end the transaction, or go back in time, and `Cmd`,
-- which runs one of them. Time travel is that of tx_util.go.
use gokvkit.Prelude.{
  ℕ, Str, str, List, [], ◌∷◌, is_empty, Option, none, some, lookup, if◌then◌else◌,
}
use gokvkit.Errors.{Error, extract, new, validation, not_found, GoError, wrap_error}
use gokvkit.Errors.Outcome.{Outcome, ok, fail, panic}
use gokvkit.Errors.Exec.{Exec, pure, raise, lift, modify, ◌>>=◌, ◌>>◌}
use gokvkit.Model.Value.{text, integer}
use gokvkit.Model.Query.{Query, create, set, update, eq, gte, desc}
use gokvkit.Model.Schema.{CollectionSchema}
use gokvkit.Document.{Values}
use gokvkit.Document.Ops.{revert_ops}
use gokvkit.Transaction.Documents.{set_primary_key}
use gokvkit.Transaction.Scan.{get_document}
use gokvkit.Transaction.Cascade.{Command, new_document_from, tx_delete}
use gokvkit.Transaction.Persist.{cdc_collection}
use gokvkit.Transaction.{
  Libs, Txn, Database, Context, Page, wrapping, on_store, new_id, get_primary_key,
}

-- The changes of a document since a time, latest first
abbrev pub changes_since : Str → Str → ℕ → Query
changes_since collection id timestamp = record {
  select = [];
  join = [];
  wheres =
      record { field = str "documentID"; op = eq; value = text id }
      ∷ record { field = str "collection"; op = eq; value = text collection }
      ∷ record { field = str "timestamp"; op = gte; value = integer timestamp }
      ∷ [];
  group_by = [];
  page = 0;
  limit = 0;
  order_by = record { direction = desc; field = str "timestamp" } ∷ [];
  having = [];
}

module _ (L : Libs) where
  open L use {json, kv}
  open json use {Doc}

  clear_cdc : Txn L → Txn L
  clear_cdc t = record t { cdc = [] }

  unfoldable pub tx_commit : Exec (Txn L) (Unit {0})
  unfolding clear_cdc
  tx_commit = on_store L kv.commit >> modify clear_cdc

  unfoldable pub tx_rollback : Exec (Txn L) (Unit {0})
  unfolding clear_cdc
  tx_rollback = on_store L kv.rollback >> modify clear_cdc

  unfoldable pub tx_close : Txn L → Txn L
  unfolding clear_cdc
  tx_close t = clear_cdc (record t { store = kv.close t.store })

  module _ {A : Type 0} where
    -- The error of a transaction, after it was rolled back
    after_rollback : GoError → Str → Outcome (Unit {0}) × Txn L → Outcome A × Txn L
    after_rollback e msg (ok x, t) = (fail (wrap_error L.marshal e 0 msg), t)
    after_rollback e msg (fail r, t) =
        (fail (wrap_error L.marshal e 0 (str "failed to rollback transaction")), t)
    after_rollback e msg (panic, t) = (panic, t)

    after_commit : A → Outcome (Unit {0}) × Txn L → Outcome A × Txn L
    unfolding after_rollback
    after_commit a (ok x, t) = (ok a, t)
    after_commit a (fail e, t) =
        after_rollback e (str "tx: failed to commit transaction - rolled back") (tx_rollback t)
    after_commit a (panic, t) = (panic, t)

    after_fn : Outcome A × Txn L → Outcome A × Txn L
    unfolding after_commit
    after_fn (ok a, t) = after_commit a (tx_commit t)
    after_fn (fail e, t) = after_rollback e (str "tx: rolled back transaction") (tx_rollback t)
    after_fn (panic, t) = (panic, t)

    closed : Outcome A × Txn L → Outcome A × Txn L
    closed (o, t) = (o, tx_close t)

    -- Tx of db.go, on a new transaction, which is closed in the end, also after a panic. The result
    -- is what its function leaves in a variable of the caller.
    unfoldable pub db_tx : Exec (Txn L) A → Exec (Txn L) A
    unfolding after_fn closed
    db_tx fn t = closed (after_fn (fn t))

  -- One command, and what a response to it holds.
  pub data TxCmd : Type 0 where
    commit_cmd rollback_cmd : TxCmd
    query_cmd : Str → Query → TxCmd
    create_cmd set_cmd : Str → Doc → TxCmd
    delete_cmd get_cmd : Str → Str → TxCmd
    update_cmd : Str → Str → Values → TxCmd
    time_travel_cmd revert_cmd : Str → Str → ℕ → TxCmd
    no_cmd : TxCmd

  pub data TxResponse : Type 0 where
    committed rolled_back deleted reverted nothing : TxResponse
    page : Page L → TxResponse
    document : Doc → TxResponse

  pub record TxReply : Type 0 where
    pub response : TxResponse
    pub error : Option Error

  -- The response beside an error
  failed : TxCmd → TxResponse
  failed commit_cmd = committed
  failed rollback_cmd = rolled_back
  failed _ = nothing

  unfoldable pub reply : TxCmd → Outcome TxResponse × Txn L → Outcome TxReply × Txn L
  unfolding failed
  reply cmd (ok r, t) = (ok (record { response = r; error = none }), t)
  reply cmd (fail e, t) = (ok (record { response = failed cmd; error = extract (some e) }), t)
  reply cmd (panic, t) = (panic, t)

  module _ (persist : Context → Command L → Exec (Txn L) Doc) (db : Database L) where
    unfoldable pub tx_update : Context → Str → Str → Values → Exec (Txn L) (Unit {0})
    tx_update ctx collection id values = elim (lookup collection db.collections) [
      | none ↦ raise (new validation (str "tx: unsupported collection"))
      | some c ↦ do
        d ←
            wrapping L 0 (str "tx: failed to update")
              (lift (new_document_from json (L.marshal_values values)))
        d' ← wrapping L 0 (str "tx: failed to set primary key") (set_primary_key L c id d)
        wrapping L 0 (str "tx: failed to commit update") (
            persist ctx (record {
              collection = collection;
              action = update;
              document = d';
              timestamp = ctx.now;
            }))
        pure tt
    ]

    -- The id of a new document, which is made for a document without one.
    ensure_id : CollectionSchema → Doc → Exec (Txn L) (Str × Doc)
    ensure_id c d =
        let id = get_primary_key L c d in
        if is_empty id
        then (do fresh ← new_id L; d' ← set_primary_key L c fresh d; pure (fresh, d'))
        else pure (id, d)

    -- The id, and the document as it was saved
    unfoldable pub tx_create : Context → Str → Doc → Exec (Txn L) (Str × Doc)
    unfolding ensure_id
    tx_create ctx collection d = elim (lookup collection db.collections) [
      | none ↦ raise (new validation (str "tx: unsupported collection"))
      | some c ↦ ensure_id c d >>= λ (id, d').
          wrapping L 0 (str "tx: failed to commit create") (
            persist ctx (record {
              collection = collection;
              action = create;
              document = d';
              timestamp = ctx.now;
            }))
          >>= λ saved. pure (id, saved)
    ]

    unfoldable pub tx_set : Context → Str → Doc → Exec (Txn L) Doc
    tx_set ctx collection d = elim (lookup collection db.collections) [
      | none ↦ raise (new validation (str "tx: unsupported collection"))
      | some c ↦ wrapping L 0 (str "tx: failed to commit set") (
          persist ctx
            (record { collection = collection; action = set; document = d; timestamp = ctx.now }))
    ]

    -- The loop over the changes
    unfoldable pub revert_changes : List Doc → Doc → Exec (Txn L) Doc
    revert_changes [] current = pure current
    revert_changes (d ∷ ds) current = do
      cdc ← lift (L.decode_cdc d)
      current' ← lift (revert_ops json cdc.diff current)
      revert_changes ds current'

    unfoldable pub time_travel : Context → Str → Str → ℕ → Exec (Txn L) Doc
    unfolding revert_changes
    time_travel ctx collection id timestamp = do
      current ← get_document L db ctx collection id
      results ← db.query ctx cdc_collection (changes_since collection id timestamp)
      if is_empty results.documents
          then raise (new not_found (str "not found"))
          else revert_changes results.documents current

    unfoldable pub revert : Context → Str → Str → ℕ → Exec (Txn L) (Unit {0})
    unfolding time_travel tx_set
    revert ctx collection id timestamp = do
      d ← time_travel ctx collection id timestamp
      tx_set ctx collection d
      pure tt

    unfoldable pub run_cmd : Context → TxCmd → Exec (Txn L) TxResponse
    unfolding tx_update tx_create tx_set revert
    run_cmd ctx commit_cmd = tx_commit >> pure committed
    run_cmd ctx rollback_cmd = tx_rollback >> pure rolled_back
    run_cmd ctx (query_cmd c q) = do p ← db.query ctx c q; pure (page p)
    run_cmd ctx (create_cmd c d) = tx_create ctx c d >>= λ (id, saved). pure (document saved)
    run_cmd ctx (set_cmd c d) = do d' ← tx_set ctx c d; pure (document d')
    run_cmd ctx (delete_cmd c id) = tx_delete L persist db ctx c id >> pure deleted
    run_cmd ctx (get_cmd c id) = do d ← get_document L db ctx c id; pure (document d)
    run_cmd ctx (update_cmd c id values) = do
      tx_update ctx c id values
      d ← get_document L db ctx c id
      pure (document d)
    run_cmd ctx (time_travel_cmd c id timestamp) = do
      d ← time_travel ctx c id timestamp
      pure (document d)
    run_cmd ctx (revert_cmd c id timestamp) = revert ctx c id timestamp >> pure reverted
    run_cmd ctx no_cmd = raise (new validation (str "tx: unsupported command"))

    -- Cmd; the errors of its operations are in the response.
    unfoldable pub tx_cmd : Context → TxCmd → Exec (Txn L) TxReply
    unfolding run_cmd reply
    tx_cmd ctx cmd t = reply cmd (run_cmd ctx cmd t)
